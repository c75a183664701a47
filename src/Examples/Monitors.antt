-- ===== src/Examples/Monitors.antt =====
-- Monitors, their alerts, their probes and the scheduler, at concrete inputs.
use neo_line.Prelude.{
  ◌^◌, ◌<◌, select, inl, ◌*◌, inr, ◌+◌, ◌-◌, ◌/◌, ◌≤◌, ◌≡◌, ◌≢◌, ◌||◌, refl, true, false, String,
  ◌==◌, none, List, [], ◌∷◌, All, arith, ltb, nat_beq, length, if◌then◌else◌, ok, eq_iff,
}
use neo_line.Monitoring.Types.{Monitor, MonitorGroup}
use neo_line.Monitoring.Status.{unknown, text, normalize_status, tally_all, aggregate_health}
use neo_line.Monitoring.Health.{aggregate_health-worst, no_monitors, statuses, worst, severity}
use neo_line.Alert.{AlertStore, Last, normalize, on_monitor_status_change}
use neo_line.Alert.Policy.{IsDue, on_monitor_status_change-IsDue}
use neo_line.Alert.Throttle.{
  Request, Spaced, Incidents, passed_at, passed_at-Spaced, on_monitor_status_change-unannounced,
}
use neo_line.Probe.Types.{Network, PeerCertificate}
use neo_line.Probe.Kinds.{certificate_info, certificate_status, nanoseconds_per_day}
use neo_line.Probe.Run.{run_once, run_attempts, IsLast, run_attempts-IsLast}
use neo_line.Probe.Window.{by_days_left, certificate_status-by_days, certificate_status_mono}
use neo_line.Scheduler.{start, Event, tick, probe_ended, acts}
use neo_line.Mongo.{memory}
use neo_line.Monitoring.Store.{
  MonitoringDatabase, MonitoringStore, is_server, counts_for, record_health, aggregated,
  get_server_health,
}
use neo_line.Monitoring.Saved.{due_status, get_server_health_lem}
use neo_line.Scheduler.{interval_of}
use neo_line.Scheduler.Spacing.{RegularTicks, far_apart, acts-far_apart}
use neo_line.Scheduler.Runs.{alternates, acts-alternates}
use neo_line.Examples.Data.{server, monitor, group, receivers}

abbrev monitors : List Monitor
monitors =
    monitor ∷ record monitor { status = "Healthy" } ∷ record monitor { status = "WARNING" } ∷ []

aggregate_health-worst_example :
    let h = tally_all (no_monitors "srv_1" 0 0) monitors in
    (aggregate_health h
      ≡ (if nat_beq (length monitors) 0 then unknown else worst (statuses monitors)))
    × (h.total_monitors
        ≡ h.healthy_monitors + h.warning_monitors + h.critical_monitors + h.down_monitors
          + h.unknown_monitors)
aggregate_health-worst_example = aggregate_health-worst "srv_1" 0 0 monitors (omega arith)

-- A store with one group and its receivers.
abbrev groups : AlertStore
groups = record { get_monitor_group = λ _. ok group; get_notify_group = λ _. ok receivers }

abbrev silent : Last
silent _ = none

on_monitor_status_change-IsDue_example :
    All
      (IsDue groups monitor "Healthy" "Down")
      (on_monitor_status_change groups monitor "Healthy" "Down" 5 silent).1
on_monitor_status_change-IsDue_example =
    on_monitor_status_change-IsDue groups monitor "Healthy" "Down" 5 silent

abbrev alerts : List Request
alerts =
    record { key = "grp_1|mon_1"; status = "Down"; min_interval = 60; at = 1000 }
    ∷ record { key = "grp_1|mon_2"; status = "Healthy"; min_interval = 60; at = 2000 }
    ∷ record { key = "grp_1|mon_1"; status = "Critical"; min_interval = 60; at = 3000 }
    ∷ []

different : (a b : String) → (a == b) ≡ false → a ≢ b
different a b h e = cc (h, (eq_iff a b).1 e)

one_interval : Incidents "grp_1|mon_1" 60 alerts
unfolding normalize
one_interval = (
  λ e. (different "Down" "Healthy" refl, refl),
  (
    λ e. absurd (different "grp_1|mon_2" "grp_1|mon_1" refl e),
    (λ e. (different "Critical" "Healthy" refl, refl), tt),
  ),
)

passed_at-Spaced_example :
    Spaced (60 * 1000000000) (silent "grp_1|mon_1") (passed_at "grp_1|mon_1" alerts silent)
passed_at-Spaced_example =
    passed_at-Spaced "grp_1|mon_1" 60 alerts silent (omega arith) one_interval

healthy-normal : normalize "Healthy" ≡ "Healthy"
unfolding normalize
healthy-normal = refl

all_silent :
    (id : String) (found : MonitorGroup)
    → groups.get_monitor_group id ≡ ok found
    → found.alert_policy.on_recover ≡ false
all_silent id found h = ground arith

on_monitor_status_change-unannounced_example :
    on_monitor_status_change groups monitor "Down" "Healthy" 5 silent ≡ (silent, [])
on_monitor_status_change-unannounced_example =
    on_monitor_status_change-unannounced groups monitor "Down" "Healthy" 5 silent healthy-normal
      all_silent

abbrev network : Network
network = record {
  dial = λ host port. inr "10.0.0.1:443";
  handshake = λ name insecure. inl "refused";
  is_ip = λ host. true;
  parse_url = λ target. inl "no scheme";
  new_request = λ method target. none;
  exchange = λ request. inr (record { status_code = 200; peer_certificates = [] });
  trim_text = λ s. s;
  decimal = λ n. "200";
  info_at = 0;
  status_at = 0;
  reason_at = 0;
}

run_attempts-IsLast_example :
    IsLast
      (λ i. run_once network monitor)
      (λ _. false)
      0
      3
      (run_attempts (λ _. network) (λ _. false) monitor)
run_attempts-IsLast_example = run_attempts-IsLast (λ _. network) (λ _. false) monitor

abbrev leaf : PeerCertificate
leaf = record {
  subject = "CN=example.com";
  issuer = "CN=CA";
  dns_names = [];
  serial_number = "1";
  not_before = 0;
  not_after = 90 * nanoseconds_per_day;
}

certificate_status-by_days_example :
    certificate_status 1000 leaf monitor (certificate_info 1000 leaf) ≡ (
      if ltb 1000 leaf.not_before || ltb leaf.not_after 1000
      then "Down"
      else text (by_days_left monitor ((leaf.not_after - 1000) / nanoseconds_per_day)))
certificate_status-by_days_example =
    certificate_status-by_days 1000 leaf monitor (omega arith) (omega arith) (omega arith)

certificate_status_mono_example :
    severity (normalize_status (certificate_status 1000 leaf monitor (certificate_info 1000 leaf)))
    ≤ severity
        (normalize_status (certificate_status 2000 leaf monitor (certificate_info 2000 leaf)))
certificate_status_mono_example =
    certificate_status_mono 1000 2000 leaf monitor (omega arith) (omega arith) (omega arith)
      (omega arith) (omega arith)

abbrev ticks : List Event
ticks =
    tick 100 ((monitor, 101) ∷ (monitor, 102) ∷ [])
    ∷ probe_ended "mon_1"
    ∷ tick 200 ((monitor, 201) ∷ [])
    ∷ []

acts-alternates_example : alternates "mon_1" false (acts ticks start) ≡ true
acts-alternates_example = acts-alternates "mon_1" ticks start

ticks_regular : RegularTicks "mon_1" 60000000000 ticks
unfolding interval_of
ticks_regular = (
  (λ _. (refl, omega arith), ((λ _. (refl, omega arith)), tt)),
  (((λ _. (refl, omega arith)), tt), tt),
)

acts-far_apart_example : far_apart "mon_1" 60000000000 none (acts ticks start) ≡ true
acts-far_apart_example = acts-far_apart "mon_1" 60000000000 ticks start ticks_regular

abbrev monitored : MonitoringDatabase
unfolding memory
monitored = record {
  servers = memory λ a b. a.id == b.id;
  monitors = memory λ a b. a.id == b.id;
  results = memory λ a b. a.id == b.id;
  events = memory λ a b. a.id == b.id;
}

abbrev one_server : MonitoringStore
one_server = record {
  server_documents = server ∷ [];
  monitor_documents = monitor ∷ [];
  result_documents = [];
  event_documents = [];
}

one_fits : length (select (counts_for "srv_1") one_server.monitor_documents) < 2 ^ 32
unfolding counts_for
one_fits = omega arith

still_down :
    get_server_health monitored 9 "evt_1" "srv_1" one_server
    ≡ (one_server, ok (aggregated monitored server "srv_1" (monitor ∷ [])))
unfolding get_server_health record_health aggregated is_server counts_for memory tally_all
    aggregate_health normalize_status
still_down = refl

get_server_health_lem_example :
    ((aggregated monitored server "srv_1" (monitor ∷ [])).status
      ≡ due_status "srv_1" one_server.monitor_documents)
    × (one_server.monitor_documents ≡ one_server.monitor_documents)
get_server_health_lem_example =
    get_server_health_lem monitored 9 "evt_1" "srv_1" one_server one_server
      (aggregated monitored server "srv_1" (monitor ∷ [])) one_fits still_down
