-- ===== src/Config/Counted.antt =====
-- An import returns a report that counts every entry of the document once.
use neo_line.Config.Entries.{
  entries, file_entries, file_entries-entries, monitor_entries, server_entries,
}
use neo_line.Config.Files.{decode, Json}
use neo_line.Config.TallyServers.{act_on_server-Adds, fail_monitors-Adds, import_each_monitor-Adds}
use neo_line.Config.Kept.{
  act_on_server-Keeps, write_monitor_group-Keeps, write_notify_group-Keeps, fail_monitors-Keeps,
  import_each_monitor-Keeps,
}
use neo_line.Config.Tally.{
  counted, handled, weight, import_items-Adds, failed-Adds, then-Adds, import_settings-Adds,
}
use neo_line.Config.Totals.{
  Returned, acting-Totals, read-Totals, then-Totals, update-Totals, return-Totals, Totals,
}
use neo_line.Monitoring.Types.{Server, Monitor, MonitorGroup, NotifyGroup}
use neo_line.Config.Keeps.{
  decide-Updates, import_items-Keeps, failed-Keeps, import_settings-Keeps, then-Keeps, Allows,
}
use neo_line.Config.Servers.{
  import_document, reported, import_decoded, existing_monitors, import_monitor_groups,
  import_notify_groups, import_servers, import_each_server, import_file, import_monitors,
  checked_server, after_server,
}
use neo_line.Config.Import.{monitor_group_spec, notify_group_spec, import_groups}
use neo_line.Prelude.{
  ◌∙◌, ap, ◌≢◌, subst, ℕ, ◌+◌, ◌^◌, ◌<◌, ◌≡◌, refl, Bool, true, false, String, Option, none, some,
  List, [], ◌∷◌, arith,
}
use neo_line.Config.Types.{ServerEntry, File}
use neo_line.Config.Backend.{list_all, Backend, Ending, returned, raised, invalid_input, unfinished}
use neo_line.Config.Report.{
  empty_report, merge, upsert, other_mode, Report, SeenSet, Mode, Options, ResourceType,
  settings_resource, notify_group_resource, monitor_group_resource, server_resource,
  monitor_resource, Message, Importer,
}

-- The lists of the store that an import reads come to an end within the fuel, which depends on the
-- state that is read, since an import may add to the lists.
pub record Readable {S : Type 0} (P : S → Type 0) (b : Backend S) (fuel : S → ℕ) : Type 0 where
  pub reads_notify_groups :
      (s : S)
      → P s
      → (xs : List NotifyGroup) × (list_all
            (λ limit token. b.list_notify_groups limit token s)
            (fuel s)
          ≡ returned xs)
  pub reads_monitor_groups :
      (s : S)
      → P s
      → (xs : List MonitorGroup) × (list_all
            (λ limit token. b.list_monitor_groups limit token s)
            (fuel s)
          ≡ returned xs)
  pub reads_servers :
      (s : S)
      → P s
      → (xs : List Server) × (list_all (λ limit token. b.list_servers limit token s) (fuel s)
          ≡ returned xs)
  pub reads_monitors :
      (id : String) (s : S)
      → P s
      → (xs : List Monitor) × (list_all (λ limit token. b.list_monitors id limit token s) (fuel s)
          ≡ returned xs)

module _ {S : Type 0} (P : S → Type 0) (q : ResourceType) (opts : Options) (b : Backend S)
    (w : Allows P opts b) (fuel : S → ℕ) (r : Readable P b fuel) where
  monitors-read :
      (exists : Bool) (id : String) (s : S)
      → P s
      → (xs : List Monitor) × (existing_monitors opts b fuel exists id s ≡ returned xs)
  unfolding existing_monitors
  monitors-read false id s p = ([], refl)
  monitors-read true id s p = r.reads_monitors id s p

  after_server-Totals :
      (srv : ServerEntry) (exists : Bool) (groups : List String) (imported : Bool)
      → Totals P q (monitor_entries q srv) (after_server opts b fuel srv exists groups imported)
  unfolding after_server import_monitors
  after_server-Totals srv exists groups true =
      read-Totals P q _ _ _ (monitors-read exists srv.id) λ existing.
        update-Totals P q _ _ (import_each_monitor-Keeps P opts b w srv.monitors _ _ _ _)
          (import_each_monitor-Adds q opts b srv.monitors _ _ _ _)
  after_server-Totals srv exists groups false =
      update-Totals P q _ _ (fail_monitors-Keeps P opts b w _ srv.monitors)
        (fail_monitors-Adds q opts b _ srv.monitors)

  checked_server-Totals :
      (m : Option Message) (srv : ServerEntry) (exists : Bool) (groups : List String)
      → Totals P q
          (weight q server_resource + monitor_entries q srv)
          (checked_server opts b fuel m srv exists groups)
  unfolding checked_server
  checked_server-Totals (some m) srv exists groups =
      update-Totals P q _ _
        (then-Keeps P _ _ (failed-Keeps P server_resource srv.id srv.name m)
          (fail_monitors-Keeps P opts b w _ srv.monitors))
        (then-Adds q _ _ _ _ (failed-Adds q server_resource srv.id srv.name m)
          (fail_monitors-Adds q opts b _ srv.monitors))
  checked_server-Totals none srv exists groups =
      then-Totals P q _ _ _ _
        (acting-Totals P q _ _
          (act_on_server-Keeps P opts b w _ srv (decide-Updates opts.mode exists false))
          (act_on_server-Adds q opts b _ srv))
        λ imported. after_server-Totals srv exists groups imported

  import_each_server-Totals :
      (servers : List ServerEntry) (seen : SeenSet) (existing groups : List String)
      → Totals P q
          (server_entries q servers)
          (import_each_server opts b fuel servers seen existing groups)
  unfolding import_each_server
  import_each_server-Totals [] seen existing groups = return-Totals P q tt
  import_each_server-Totals (srv ∷ servers) seen existing groups =
      then-Totals P q _ _ _ _ (checked_server-Totals _ srv _ groups)
        λ u. import_each_server-Totals servers _ existing groups

  import_file-Totals : (f : File) → Totals P q (file_entries q f) (import_file opts b fuel f)
  unfolding import_file import_servers import_notify_groups import_monitor_groups import_groups
  import_file-Totals f =
      then-Totals P q _ _ _ _
        (update-Totals P q _ _ (import_settings-Keeps P opts b w f.settings)
          (import_settings-Adds q opts b f.settings))
        λ u.
          then-Totals P q _ _ _ _
            (read-Totals P q _ _ _ r.reads_notify_groups λ existing.
              acting-Totals P q _ _
                (import_items-Keeps P opts b w (notify_group_spec b _)
                  (write_notify_group-Keeps P opts b w) f.notify_groups _ _)
                (import_items-Adds q opts (notify_group_spec b _) f.notify_groups _ _))
            λ notify.
              then-Totals P q _ _ _ _
                (read-Totals P q _ _ _ r.reads_monitor_groups λ existing.
                  acting-Totals P q _ _
                    (import_items-Keeps P opts b w (monitor_group_spec b notify _)
                      (write_monitor_group-Keeps P opts b w) f.monitor_groups _ _)
                    (import_items-Adds q opts (monitor_group_spec b notify _) f.monitor_groups _ _))
                λ groups.
                  read-Totals P q _ _ _ r.reads_servers
                    λ existing. import_each_server-Totals f.servers _ _ groups

module _ {S : Type 0} (opts : Options) (b : Backend S) (f : File) where
  abbrev start : S → Importer S
  start s = record { state = s; report = empty_report opts.dry_run }

  counted-start : (q : ResourceType) (s : S) → counted q (start s) ≡ 0
  unfolding handled
  counted-start settings_resource s = refl
  counted-start notify_group_resource s = refl
  counted-start monitor_group_resource s = refl
  counted-start server_resource s = refl
  counted-start monitor_resource s = refl

  -- The end of a run that returns with the counts of its entries.
  reported-handled :
      (P : S → Type 0) (r : Importer S × Ending (Unit {0}))
      → ((q : ResourceType) → Returned (P r.0.state × (counted q r.0 ≡ entries q f)) r.1)
      → (t : S) × (report : Report) × (reported opts b r ≡ (t, returned report))
        × ((q : ResourceType) → handled q report.summary ≡ entries q f)
  unfolding reported
  reported-handled P (im, returned u) h = (im.state, im.report, refl, λ q. (h q).1)
  reported-handled P (im, raised e) h = elim (h settings_resource) [ ]
  reported-handled P (im, invalid_input) h = elim (h settings_resource) [ ]
  reported-handled P (im, unfinished) h = elim (h settings_resource) [ ]

  module _ (P : S → Type 0) (w : Allows P opts b) (fuel : S → ℕ) (r : Readable P b fuel) where
    import_file-handled :
        (s : S)
        → P s
        → ((q : ResourceType) → entries q f < 2 ^ 32)
        → (t : S) × (report : Report) × (reported opts b (import_file opts b fuel f (start s))
            ≡ (t, returned report))
          × ((q : ResourceType) → handled q report.summary ≡ entries q f)
    import_file-handled s p fits =
        let result = import_file opts b fuel f (start s) in
        reported-handled P result λ q.
          let same = file_entries-entries q f in
          let fresh = counted-start q s in
          let small = fits q in
          let total : counted q (start s) + file_entries q f ≡ entries q f = omega arith in
          subst (λ n. Returned (P result.0.state × (counted q result.0 ≡ n)) result.1) total
            ((import_file-Totals P q opts b w fuel r f).at (start s) p (omega arith))

    import_decoded-handled :
        (mode : Mode) (file : Option File) (s : S)
        → mode ≢ other_mode
        → file ≡ some f
        → P s
        → ((q : ResourceType) → entries q f < 2 ^ 32)
        → (t : S) × (report : Report) × (import_decoded opts b fuel mode file s
            ≡ (t, returned report))
          × ((q : ResourceType) → handled q report.summary ≡ entries q f)
    import_decoded-handled other_mode file s m e p fits = elim (m refl) [ ]
    import_decoded-handled merge file s m e p fits =
        let (t, report, h, k) = import_file-handled s p fits in
        (
          t,
          report,
          ap (λ o. import_decoded opts b fuel merge o s) e ∙ unfold import_decoded in h,
          k,
        )
    import_decoded-handled upsert file s m e p fits =
        let (t, report, h, k) = import_file-handled s p fits in
        (
          t,
          report,
          ap (λ o. import_decoded opts b fuel upsert o s) e ∙ unfold import_decoded in h,
          k,
        )

-- An import in one of the two modes, of a document that can be decoded and has fewer than 2^32 entries of
-- each kind, returns a report whatever writes fail, where in every state that the writes lead to
-- the lists of the store can be read, within the fuel for that state. For the settings, the notify groups, the monitor groups, the
-- servers and the monitors, the created, updated, skipped and failed entries that the report counts add up
-- to the entries of the document.
pub import_document-handled :
    {S : Type 0} (opts : Options) (b : Backend S) (f : File) (P : S → Type 0) (w : Allows P opts b)
    (fuel : S → ℕ) (r : Readable P b fuel) (json : Json) (bytes : json.Bytes) (s : S)
    → opts.mode ≢ other_mode
    → decode json bytes ≡ some f
    → P s
    → ((q : ResourceType) → entries q f < 2 ^ 32)
    → (t : S) × (report : Report) × (import_document opts b fuel json bytes s
        ≡ (t, returned report))
      × ((q : ResourceType) → handled q report.summary ≡ entries q f)
unfolding import_document
import_document-handled opts b f P w fuel r json bytes s m e p fits =
    import_decoded-handled opts b f P w fuel r opts.mode (decode json bytes) s m e p fits
