-- ===== src/Config/Kept.antt =====
-- What the import of a whole document keeps of the store.
use neo_line.Config.Files.{Json}
use neo_line.Prelude.{ℕ, ◌≡◌, Bool, true, false, String, Option, none, some, List, [], ◌∷◌}
use neo_line.Config.Types.{NotifyGroupEntry, MonitorGroupEntry, MonitorEntry, ServerEntry, File}
use neo_line.Config.Backend.{Backend, Ending, returned, raised, invalid_input, unfinished}
use neo_line.Config.Report.{
  Mode, merge, upsert, other_mode, Options, Message, Act, act_create, act_update, act_skip,
  act_skip_conflict, act_conflict, SeenSet, Importer,
}
use neo_line.Config.Import.{
  write_notify_group, write_monitor_group, import_groups, notify_group_spec, monitor_group_spec,
}
use neo_line.Config.Servers.{
  import_document, import_decoded, reported, write_server, write_monitor, fail_monitors,
  act_on_monitor, checked_monitor, import_each_monitor, import_monitors, act_on_server,
  after_server, checked_server, import_each_server, import_servers, import_monitor_groups,
  import_notify_groups, import_file,
}
use neo_line.Config.Keeps.{
  Updates, decide-Updates, Allows, Keeps, Maintains, failed-Keeps, skipped-Keeps, then-Keeps,
  then-Maintains, update-Maintains, acting-Maintains, return-Maintains, reading-Maintains,
  apply_write-Keeps, update_or_create-Keeps, import_settings-Keeps, import_items-Keeps,
}

module _ {S : Type 0} (P : S → Type 0) (opts : Options) (b : Backend S) (w : Allows P opts b) where
  pub write_notify_group-Keeps :
      opts.dry_run ≡ false
      → (act : Act) (g : NotifyGroupEntry) (s : S) → Updates opts.mode act
      → P s
      → P (write_notify_group b act g s).0
  unfolding write_notify_group
  write_notify_group-Keeps dry act g s u p =
      update_or_create-Keeps P opts.mode act _ _ s (λ m. w.updates_notify_group dry m _ _ s p)
        (w.creates_notify_group dry _ s p) u

  pub write_monitor_group-Keeps :
      opts.dry_run ≡ false
      → (act : Act) (g : MonitorGroupEntry) (s : S) → Updates opts.mode act
      → P s
      → P (write_monitor_group b act g s).0
  unfolding write_monitor_group
  write_monitor_group-Keeps dry act g s u p =
      update_or_create-Keeps P opts.mode act _ _ s (λ m. w.updates_monitor_group dry m _ _ s p)
        (w.creates_monitor_group dry _ s p) u

  write_server-Keeps :
      (act : Act) (srv : ServerEntry)
      → Updates opts.mode act
      → opts.dry_run ≡ false
      → (s : S) → P s
      → P (write_server opts b act srv s).0
  unfolding write_server
  write_server-Keeps act srv u dry s p =
      update_or_create-Keeps P opts.mode act _ _ s (λ m. w.updates_server dry m _ _ s p)
        (w.creates_server dry _ s p) u

  write_monitor-Keeps :
      (act : Act) (server_id : String) (m : MonitorEntry)
      → Updates opts.mode act
      → opts.dry_run ≡ false
      → (s : S) → P s
      → P (write_monitor opts b act server_id m s).0
  unfolding write_monitor
  write_monitor-Keeps act server_id m u dry s p =
      update_or_create-Keeps P opts.mode act _ _ s (λ n. w.updates_monitor dry n _ _ _ s p)
        (w.creates_monitor dry _ _ s p) u

  pub fail_monitors-Keeps :
      (m : Message) (ms : List MonitorEntry) → Keeps P (fail_monitors opts b m ms)
  unfolding fail_monitors
  fail_monitors-Keeps m [] = record { at = λ im p. p }
  fail_monitors-Keeps m (e ∷ ms) =
      then-Keeps P _ _ (failed-Keeps P _ _ _ m) (fail_monitors-Keeps m ms)

  act_on_monitor-Keeps :
      (act : Act) (server_id : String) (m : MonitorEntry)
      → Updates opts.mode act
      → Keeps P (act_on_monitor opts b act server_id m)
  unfolding act_on_monitor
  act_on_monitor-Keeps act_skip server_id m u = skipped-Keeps P _ _ _ none
  act_on_monitor-Keeps act_skip_conflict server_id m u =
      apply_write-Keeps P _ _ _ _ _ _ (write_monitor-Keeps act_skip_conflict server_id m u)
  act_on_monitor-Keeps act_conflict server_id m u =
      apply_write-Keeps P _ _ _ _ _ _ (write_monitor-Keeps act_conflict server_id m u)
  act_on_monitor-Keeps act_create server_id m u =
      apply_write-Keeps P _ _ _ _ _ _ (write_monitor-Keeps act_create server_id m u)
  act_on_monitor-Keeps act_update server_id m u =
      apply_write-Keeps P _ _ _ _ _ _ (write_monitor-Keeps act_update server_id m u)

  checked_monitor-Keeps :
      (m : Option Message) (existing : List String) (server_id : String) (e : MonitorEntry)
      → Keeps P (checked_monitor opts b m existing server_id e)
  unfolding checked_monitor
  checked_monitor-Keeps (some m) existing server_id e = failed-Keeps P _ _ _ m
  checked_monitor-Keeps none existing server_id e =
      act_on_monitor-Keeps _ server_id e (decide-Updates opts.mode _ false)

  pub import_each_monitor-Keeps :
      (ms : List MonitorEntry) (seen : SeenSet) (existing : List String) (server_id : String)
      (groups : List String)
      → Keeps P (import_each_monitor opts b ms seen existing server_id groups)
  unfolding import_each_monitor
  import_each_monitor-Keeps [] seen existing server_id groups = record { at = λ im p. p }
  import_each_monitor-Keeps (m ∷ ms) seen existing server_id groups =
      then-Keeps P _ _ (checked_monitor-Keeps _ existing server_id m)
        (import_each_monitor-Keeps ms _ existing server_id groups)

  pub act_on_server-Keeps :
      (act : Act) (srv : ServerEntry)
      → Updates opts.mode act
      → Keeps P (λ im. (act_on_server opts b act srv im).0)
  unfolding act_on_server
  act_on_server-Keeps act_skip srv u = skipped-Keeps P _ _ _ none
  act_on_server-Keeps act_skip_conflict srv u =
      apply_write-Keeps P _ _ _ _ _ _ (write_server-Keeps act_skip_conflict srv u)
  act_on_server-Keeps act_conflict srv u =
      apply_write-Keeps P _ _ _ _ _ _ (write_server-Keeps act_conflict srv u)
  act_on_server-Keeps act_create srv u =
      apply_write-Keeps P _ _ _ _ _ _ (write_server-Keeps act_create srv u)
  act_on_server-Keeps act_update srv u =
      apply_write-Keeps P _ _ _ _ _ _ (write_server-Keeps act_update srv u)

  after_server-Maintains :
      (fuel : S → ℕ) (srv : ServerEntry) (exists : Bool) (groups : List String) (imported : Bool)
      → Maintains P (after_server opts b fuel srv exists groups imported)
  unfolding after_server import_monitors
  after_server-Maintains fuel srv exists groups true =
      then-Maintains P _ _ (reading-Maintains P _)
        λ existing. update-Maintains P _ (import_each_monitor-Keeps srv.monitors _ _ _ _)
  after_server-Maintains fuel srv exists groups false =
      update-Maintains P _ (fail_monitors-Keeps _ srv.monitors)

  checked_server-Maintains :
      (fuel : S → ℕ) (m : Option Message) (srv : ServerEntry) (exists : Bool) (groups : List String)
      → Maintains P (checked_server opts b fuel m srv exists groups)
  unfolding checked_server
  checked_server-Maintains fuel (some m) srv exists groups =
      update-Maintains P _
        (then-Keeps P _ _ (failed-Keeps P _ _ _ m) (fail_monitors-Keeps _ srv.monitors))
  checked_server-Maintains fuel none srv exists groups =
      then-Maintains P _ _
        (acting-Maintains P _ (act_on_server-Keeps _ srv (decide-Updates opts.mode exists false)))
        λ imported. after_server-Maintains fuel srv exists groups imported

  import_each_server-Maintains :
      (fuel : S → ℕ) (servers : List ServerEntry) (seen : SeenSet) (existing groups : List String)
      → Maintains P (import_each_server opts b fuel servers seen existing groups)
  unfolding import_each_server
  import_each_server-Maintains fuel [] seen existing groups = return-Maintains P tt
  import_each_server-Maintains fuel (srv ∷ servers) seen existing groups =
      then-Maintains P _ _ (checked_server-Maintains fuel _ srv _ groups)
        λ u. import_each_server-Maintains fuel servers _ existing groups

  import_file-Maintains : (fuel : S → ℕ) (f : File) → Maintains P (import_file opts b fuel f)
  unfolding import_file import_servers import_notify_groups import_monitor_groups import_groups
  import_file-Maintains fuel f =
      then-Maintains P _ _ (update-Maintains P _ (import_settings-Keeps P opts b w f.settings)) λ u.
        then-Maintains P _ _
          (then-Maintains P _ _ (reading-Maintains P _) λ existing. acting-Maintains P _ (
            import_items-Keeps P opts b w (notify_group_spec b _) write_notify_group-Keeps
              f.notify_groups _ _))
          λ notify.
            then-Maintains P _ _
              (then-Maintains P _ _ (reading-Maintains P _) λ existing. acting-Maintains P _ (
                import_items-Keeps P opts b w (monitor_group_spec b notify _)
                  write_monitor_group-Keeps f.monitor_groups _ _))
              λ groups.
                then-Maintains P _ _ (reading-Maintains P _)
                  λ existing. import_each_server-Maintains fuel f.servers _ _ groups

  reported-Keeps : (r : Importer S × Ending (Unit {0})) → P r.0.state → P (reported opts b r).0
  unfolding reported
  reported-Keeps (im, returned u) p = p
  reported-Keeps (im, raised e) p = p
  reported-Keeps (im, invalid_input) p = p
  reported-Keeps (im, unfinished) p = p

  import_decoded-Keeps :
      (fuel : S → ℕ) (mode : Mode) (file : Option File) (s : S)
      → P s
      → P (import_decoded opts b fuel mode file s).0
  unfolding import_decoded
  import_decoded-Keeps fuel other_mode file s p = p
  import_decoded-Keeps fuel merge none s p = p
  import_decoded-Keeps fuel upsert none s p = p
  import_decoded-Keeps fuel merge (some f) s p =
      reported-Keeps _ ((import_file-Maintains fuel f).at _ p)
  import_decoded-Keeps fuel upsert (some f) s p =
      reported-Keeps _ ((import_file-Maintains fuel f).at _ p)

  -- What the writes that an import may make keep is kept by the import, however it ends.
  pub import_document-Keeps :
      (fuel : S → ℕ) (json : Json) (bytes : json.Bytes) (s : S)
      → P s
      → P (import_document opts b fuel json bytes s).0
  unfolding import_document
  import_document-Keeps fuel json bytes s p = import_decoded-Keeps fuel opts.mode _ s p
