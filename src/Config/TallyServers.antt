-- ===== src/Config/TallyServers.antt =====
-- The steps on servers and monitors that count entries.
use neo_line.Config.Tally.{weight, apply_write-Adds, then-Adds, failed-Adds, skipped-Adds, Adds}
use neo_line.Config.Servers.{
  first_message, act_on_monitor, fail_monitors, act_on_server, checked_monitor, import_each_monitor,
}
use neo_line.Prelude.{subst, ◌*◌, false, String, Option, none, some, List, [], ◌∷◌, arith, length}
use neo_line.Config.Types.{MonitorEntry, ServerEntry}
use neo_line.Config.Backend.{Backend}
use neo_line.Config.Report.{
  check, SeenSet, Options, ResourceType, server_resource, monitor_resource, Message, Act,
  act_create, act_update, act_skip, act_skip_conflict, act_conflict, failed,
}

module _ {S : Type 0} (q : ResourceType) (opts : Options) (b : Backend S) where
  pub fail_monitors-Adds :
      (w : Message) (ms : List MonitorEntry)
      → Adds q (length ms * weight q monitor_resource) (fail_monitors opts b w ms)
  unfolding fail_monitors
  fail_monitors-Adds w [] = record { at = λ im h. omega arith }
  fail_monitors-Adds w (m ∷ ms) =
      subst
        (λ n. Adds q n (λ im. fail_monitors opts b w ms (failed monitor_resource m.id m.name w im)))
        (omega arith)
        (then-Adds q _ _ _ _ (failed-Adds q monitor_resource m.id m.name w)
          (fail_monitors-Adds w ms))

  act_on_monitor-Adds :
      (act : Act) (server_id : String) (m : MonitorEntry)
      → Adds q (weight q monitor_resource) (act_on_monitor opts b act server_id m)
  unfolding act_on_monitor
  act_on_monitor-Adds act_skip server_id m = skipped-Adds q monitor_resource m.id m.name none
  act_on_monitor-Adds act_skip_conflict server_id m = apply_write-Adds q _ _ _ _ _ _
  act_on_monitor-Adds act_conflict server_id m = apply_write-Adds q _ _ _ _ _ _
  act_on_monitor-Adds act_create server_id m = apply_write-Adds q _ _ _ _ _ _
  act_on_monitor-Adds act_update server_id m = apply_write-Adds q _ _ _ _ _ _

  checked_monitor-Adds :
      (w : Option Message) (existing : List String) (server_id : String) (m : MonitorEntry)
      → Adds q (weight q monitor_resource) (checked_monitor opts b w existing server_id m)
  unfolding checked_monitor
  checked_monitor-Adds (some w) existing server_id m = failed-Adds q monitor_resource m.id m.name w
  checked_monitor-Adds none existing server_id m = act_on_monitor-Adds _ server_id m

  pub import_each_monitor-Adds :
      (ms : List MonitorEntry) (seen : SeenSet) (existing : List String) (server_id : String)
      (groups : List String)
      → Adds q
          (length ms * weight q monitor_resource)
          (import_each_monitor opts b ms seen existing server_id groups)
  unfolding import_each_monitor
  import_each_monitor-Adds [] seen existing server_id groups = record { at = λ im h. omega arith }
  import_each_monitor-Adds (m ∷ ms) seen existing server_id groups =
      let (seen_now, w) = check m.id m.name false seen in
      subst
        (λ n. Adds q n (λ im.
          import_each_monitor opts b ms seen_now existing server_id groups
            (checked_monitor opts b (first_message opts b w m groups) existing server_id m im)))
        (omega arith)
        (then-Adds q _ _ _ _ (checked_monitor-Adds _ existing server_id m)
          (import_each_monitor-Adds ms seen_now existing server_id groups))

  pub act_on_server-Adds :
      (act : Act) (srv : ServerEntry)
      → Adds q (weight q server_resource) (λ im. (act_on_server opts b act srv im).0)
  unfolding act_on_server
  act_on_server-Adds act_skip srv = skipped-Adds q server_resource srv.id srv.name none
  act_on_server-Adds act_skip_conflict srv = apply_write-Adds q _ _ _ _ _ _
  act_on_server-Adds act_conflict srv = apply_write-Adds q _ _ _ _ _ _
  act_on_server-Adds act_create srv = apply_write-Adds q _ _ _ _ _ _
  act_on_server-Adds act_update srv = apply_write-Adds q _ _ _ _ _ _
