-- ===== src/Config/Servers.antt =====
-- The import of servers with their monitors and the whole of `Import` in
-- internal/configio/import.go.
use neo_line.Prelude.{
  ℕ, Bool, true, false, not, String, Option, none, some, List, [], ◌∷◌, map, if◌then◌else◌,
}
use neo_line.Monitoring.Types.{Monitor}
use neo_line.Inventory.State.{names}
use neo_line.Config.Types.{MonitorEntry, ServerEntry, File}
use neo_line.Config.Files.{Json, decode, server_to_store, monitor_to_store}
use neo_line.Config.Backend.{Backend, Ending, returned, raised, invalid_input, unfinished, list_all}
use neo_line.Config.Report.{
  Mode, other_mode, Options, server_resource, monitor_resource, Message, text, unsupported_kind,
  is_valid_kind, Report, empty_report, Act, act_skip, decide, SeenSet, new_seen_set, check,
  missing_refs, Importer, Importing, return, reading, update, acting, ◌>>=◌, failed, skipped,
}
use neo_line.Config.Import.{
  Write, written, update_or_create, import_settings, apply_write, import_groups, notify_group_spec,
  monitor_group_spec,
}

module _ {S : Type 0} (opts : Options) (b : Backend S) where
  unfoldable pub write_server : Act → ServerEntry → Write S
  unfolding update_or_create
  write_server act srv =
      update_or_create act (written (b.update_server srv.id (server_to_store srv)))
        (written (b.create_server (server_to_store srv)))

  unfoldable pub write_monitor : Act → String → MonitorEntry → Write S
  unfolding update_or_create
  write_monitor act server_id m =
      update_or_create act
        (written (b.update_monitor server_id m.id (monitor_to_store server_id m)))
        (written (b.create_monitor server_id (monitor_to_store server_id m)))

  unfoldable pub fail_monitors : Message → List MonitorEntry → Importer S → Importer S
  fail_monitors message [] im = im
  fail_monitors message (m ∷ ms) im =
      fail_monitors message ms (failed monitor_resource m.id m.name message im)

  unfoldable pub act_on_monitor : Act → String → MonitorEntry → Importer S → Importer S
  unfolding write_monitor
  act_on_monitor act_skip server_id m im = skipped monitor_resource m.id m.name none im
  act_on_monitor act server_id m im =
      (apply_write opts.dry_run monitor_resource m.id m.name act (write_monitor act server_id m)
        im).0

  -- By the message of the first test that refuses.
  unfoldable pub checked_monitor :
      Option Message → List String → String → MonitorEntry → Importer S → Importer S
  unfolding act_on_monitor
  checked_monitor (some message) existing server_id m im =
      failed monitor_resource m.id m.name message im
  checked_monitor none existing server_id m im =
      act_on_monitor (decide opts.mode (names m.id existing) false) server_id m im

  unfoldable pub first_message : Option Message → MonitorEntry → List String → Option Message
  first_message (some message) m groups = some message
  first_message none m groups =
      if not (is_valid_kind m.kind)
      then some (unsupported_kind m.kind)
      else missing_refs "group" m.group_ids groups

  unfoldable pub import_each_monitor :
      List MonitorEntry → SeenSet → List String → String → List String → Importer S → Importer S
  unfolding checked_monitor first_message check
  import_each_monitor [] seen existing server_id groups im = im
  import_each_monitor (m ∷ ms) seen existing server_id groups im =
      let (seen_now, message) = check m.id m.name false seen in
      import_each_monitor ms seen_now existing server_id groups
        (checked_monitor (first_message message m groups) existing server_id m im)

  unfoldable pub existing_monitors : (S → ℕ) → Bool → String → S → Ending (List Monitor)
  existing_monitors fuel false server_id s = returned []
  existing_monitors fuel true server_id s =
      list_all (λ limit token. b.list_monitors server_id limit token s) (fuel s)

  unfoldable pub import_monitors :
      (S → ℕ) → ServerEntry → Bool → List String → Importing S (Unit {0})
  unfolding existing_monitors import_each_monitor
  import_monitors fuel srv exists groups =
      reading (existing_monitors fuel exists srv.id) >>= λ existing.
      update
        (import_each_monitor srv.monitors new_seen_set (map (λ m. m.id) existing) srv.id groups)

  -- Whether the monitors of the server are imported too.
  unfoldable pub act_on_server : Act → ServerEntry → Importer S → Importer S × Bool
  unfolding write_server
  act_on_server act_skip srv im = (skipped server_resource srv.id srv.name none im, true)
  act_on_server act srv im =
      apply_write opts.dry_run server_resource srv.id srv.name act (write_server act srv) im

  unfoldable pub after_server :
      (S → ℕ) → ServerEntry → Bool → List String → Bool → Importing S (Unit {0})
  unfolding fail_monitors import_monitors
  after_server fuel srv exists groups true = import_monitors fuel srv exists groups
  after_server fuel srv exists groups false =
      update (fail_monitors (text "parent server was not imported") srv.monitors)

  unfoldable pub checked_server :
      (S → ℕ) → Option Message → ServerEntry → Bool → List String → Importing S (Unit {0})
  unfolding act_on_server after_server
  checked_server fuel (some message) srv exists groups = update (λ im.
      fail_monitors (text "parent server was not imported") srv.monitors
        (failed server_resource srv.id srv.name message im))
  checked_server fuel none srv exists groups =
      acting (act_on_server (decide opts.mode exists false) srv)
      >>= after_server fuel srv exists groups

  unfoldable pub import_each_server :
      (S → ℕ) → List ServerEntry → SeenSet → List String → List String → Importing S (Unit {0})
  unfolding checked_server check
  import_each_server fuel [] seen existing groups = return tt
  import_each_server fuel (srv ∷ servers) seen existing groups =
      let (seen_now, message) = check srv.id srv.name false seen in
      checked_server fuel message srv (names srv.id existing) groups >>= λ _.
      import_each_server fuel servers seen_now existing groups

  unfoldable pub import_servers : (S → ℕ) → List ServerEntry → List String → Importing S (Unit {0})
  unfolding import_each_server
  import_servers fuel servers groups =
      reading (λ s. list_all (λ limit token. b.list_servers limit token s) (fuel s)) >>= λ existing.
      import_each_server fuel servers new_seen_set (map (λ s. s.id) existing) groups

  unfoldable pub import_monitor_groups : (S → ℕ) → File → List String → Importing S (List String)
  import_monitor_groups fuel f notify =
      reading (λ s. list_all (λ limit token. b.list_monitor_groups limit token s) (fuel s))
      >>= λ existing. acting (
          import_groups opts
            (monitor_group_spec b notify (map (λ g. record { id = g.id; name = g.name }) existing))
            f.monitor_groups)

  unfoldable pub import_notify_groups : (S → ℕ) → File → Importing S (List String)
  import_notify_groups fuel f =
      reading (λ s. list_all (λ limit token. b.list_notify_groups limit token s) (fuel s))
      >>= λ existing. acting (
          import_groups opts
            (notify_group_spec b (map (λ g. record { id = g.id; name = g.name }) existing))
            f.notify_groups)

  unfoldable pub import_file : (S → ℕ) → File → Importing S (Unit {0})
  unfolding import_notify_groups import_monitor_groups import_servers
  import_file fuel f = update (import_settings opts b f.settings) >>= λ _.
      import_notify_groups fuel f >>= λ notify.
      import_monitor_groups fuel f notify >>= λ groups. import_servers fuel f.servers groups

  -- The report of a run that returned.
  unfoldable pub reported : Importer S × Ending (Unit {0}) → S × Ending Report
  reported (im, returned u) = (im.state, returned im.report)
  reported (im, raised e) = (im.state, raised e)
  reported (im, invalid_input) = (im.state, invalid_input)
  reported (im, unfinished) = (im.state, unfinished)

  unfoldable pub import_decoded : (S → ℕ) → Mode → Option File → S → S × Ending Report
  unfolding import_file reported
  import_decoded fuel other_mode file s = (s, invalid_input)
  import_decoded fuel mode none s = (s, invalid_input)
  import_decoded fuel mode (some f) s =
      reported (import_file fuel f record { state = s; report = empty_report opts.dry_run })

  -- `Import`, with what is stored after it.
  unfoldable pub import_document : (S → ℕ) → (json : Json) → json.Bytes → S → S × Ending Report
  unfolding import_decoded
  import_document fuel json bytes s = import_decoded fuel opts.mode (decode json bytes) s
