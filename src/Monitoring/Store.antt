-- ===== src/Monitoring/Store.antt =====
-- The writes of a probe's result: `GetServerHealth` in internal/store/store.go and `SaveCheckResult` in
-- internal/store/runtime.go. The clock and the generated ids are arguments.
use neo_line.Prelude.{
  ℕ, Bool, false, not, ◌&&◌, String, ◌==◌, Option, none, some, List, if◌then◌else◌, is_some, Result,
  ok, err, Error,
}
use neo_line.Mongo.{Collection}
use neo_line.Monitoring.Types.{Server, Monitor, CheckResult, ServerEvent, ServerHealth}
use neo_line.Monitoring.Status.{text, normalize_status, status_beq, tally_all, aggregate_health}
use neo_line.Monitoring.Health.{no_monitors}

pub record MonitoringDatabase : Type 0 where
  pub servers : Collection Server
  pub monitors : Collection Monitor
  pub results : Collection CheckResult
  pub events : Collection ServerEvent

pub record MonitoringStore : Type 0 where
  pub server_documents : List Server
  pub monitor_documents : List Monitor
  pub result_documents : List CheckResult
  pub event_documents : List ServerEvent

unfoldable pub is_server : String → Server → Bool
is_server server_id s = s.id == server_id

-- The filter of the monitors that count for the health of a server.
unfoldable pub counts_for : String → Monitor → Bool
counts_for server_id m = m.server_id == server_id && m.enabled

unfoldable pub is_monitor : String → String → Monitor → Bool
is_monitor server_id monitor_id m = m.server_id == server_id && m.id == monitor_id

-- The update of the server whose health has changed.
unfoldable pub with_health : ServerHealth → ℕ → Server → Server
with_health health now s = record s {
  health_status = health.status;
  last_status_change_at = now;
  last_check_at = health.last_check_at;
  updated_at = now;
}

unfoldable pub health_event : String → String → Server → ServerHealth → ℕ → ServerEvent
health_event fresh server_id server health now = record {
  id = fresh;
  server_id = server_id;
  previous_status = server.health_status;
  current_status = health.status;
  reason = "health aggregation";
  occurred_at = now;
}

-- The monitor after a result, with the time of a change of status where there is one.
unfoldable pub with_result : CheckResult → Bool → ℕ → Monitor → Monitor
with_result result changed now m = record m {
  status = result.status;
  last_check_at = result.ended_at;
  updated_at = now;
  certificate = if is_some result.certificate then result.certificate else m.certificate;
  last_status_change_at = if changed then now else m.last_status_change_at;
}

module _ (db : MonitoringDatabase) where
  open db use {servers, monitors, results, events}

  -- The end of the method: both writes may fail, which is ignored.
  unfoldable pub record_health :
      ℕ
      → String
      → String
      → Server
      → ServerHealth
      → MonitoringStore
      → MonitoringStore × Result ServerHealth
  unfolding is_server with_health health_event
  record_health now fresh server_id server health s =
      if health.status == server.health_status then (s, ok health) else (
        record s {
          server_documents =
              (servers.update_one (is_server server_id) (with_health health now)
                s.server_documents).0;
          event_documents =
              (events.insert_one (health_event fresh server_id server health now)
                s.event_documents).0;
        },
        ok (record health { last_status_change_at = now }),
      )

  -- The health by the counters.
  unfoldable pub aggregated : Server → String → List Monitor → ServerHealth
  aggregated server server_id ms =
      let health =
        tally_all (no_monitors server_id server.last_status_change_at server.last_check_at) ms in
      record health { status = text (aggregate_health health) }

  unfoldable pub get_server_health :
      ℕ → String → String → MonitoringStore → MonitoringStore × Result ServerHealth
  unfolding is_server counts_for aggregated record_health
  get_server_health now fresh server_id s =
      elim (servers.find_one (is_server server_id) s.server_documents) [
        | err e ↦ (s, err e)
        | ok server ↦ elim (monitors.find (counts_for server_id) s.monitor_documents) [
          | err e ↦ (s, err e)
          | ok ms ↦ record_health now fresh server_id server (aggregated server server_id ms) s
        ]
      ]

  -- The previous status, and the error that may come with it.
  abbrev pub Saved : Type 0
  Saved = MonitoringStore × String × Option Error

  unfoldable pub then_health : ℕ → String → String → String → MonitoringStore → Result ℕ → Saved
  unfolding get_server_health
  then_health now fresh server_id prev s (err e) = (s, prev, some e)
  then_health now fresh server_id prev s (ok _) =
      let (t, health) = get_server_health now fresh server_id s in
      elim health [ err e ↦ (t, prev, some e) | ok _ ↦ (t, prev, none) ]

  unfoldable pub update_monitor :
      ℕ → ℕ → String → CheckResult → Result Monitor → MonitoringStore → Saved
  unfolding is_monitor with_result then_health
  update_monitor now later fresh result current s =
      let prev : String = elim current [ err _ ↦ "" | ok m ↦ m.status ] in
      let changed : Bool = elim current [
        | err _ ↦ false
        | ok m ↦ not (status_beq (normalize_status m.status) (normalize_status result.status))
      ] in
      let (ms, r) =
        monitors.update_one (is_monitor result.server_id result.monitor_id)
          (with_result result changed now) s.monitor_documents in
      then_health later fresh result.server_id prev (record s { monitor_documents = ms }) r

  unfoldable pub save_check_result : ℕ → ℕ → String → String → CheckResult → MonitoringStore → Saved
  unfolding is_monitor update_monitor
  save_check_result now later fresh_result fresh_event result s =
      let doc = record result { id = if result.id == "" then fresh_result else result.id } in
      let (rs, r) = results.insert_one doc s.result_documents in
      let inserted = record s { result_documents = rs } in
      elim r [
        | err e ↦ (inserted, "", some e)
        | ok _ ↦
            update_monitor now later fresh_event doc
              (monitors.find_one (is_monitor doc.server_id doc.monitor_id)
                inserted.monitor_documents)
              inserted
      ]
