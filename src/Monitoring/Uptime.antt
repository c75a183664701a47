-- ===== src/Monitoring/Uptime.antt =====
-- The availability of a monitor: internal/store/uptime.go. The stages of the aggregation are those that the
-- server documents, on the stored results; the division of floats is kept as a quotient.
use neo_line.Prelude.{
  ℕ, ◌+◌, ◌-◌, ◌*◌, ◌/◌, Bool, ◌&&◌, ◌||◌, String, ◌==◌, Option, List, [], ◌∷◌, ◌++◌, ltb, leb,
  if◌then◌else◌, take, select, map, Result, ok, err, DriverError,
}
use neo_line.Mongo.Documents.{answer}
use neo_line.Monitoring.Types.{CheckResult}
use neo_line.Monitoring.Status.{Status, normalize_status}

abbrev pub hour : ℕ
hour = 3600 * 1_000_000_000

abbrev pub uptime_max_window : ℕ
uptime_max_window = 24 * hour

abbrev pub uptime_beat_limit : ℕ
uptime_beat_limit = 50

-- `downStatusVariants`.
unfoldable pub is_down_variant : String → Bool
is_down_variant s = s == "Down" || s == "down" || s == "DOWN" || s == "HEALTH_STATUS_DOWN"

pub record Quotient : Type 0 where
  pub dividend : ℕ
  pub divisor : ℕ

pub record UptimeWindow : Type 0 where
  pub window_seconds : ℕ
  pub total : ℕ
  pub up : ℕ
  pub down : ℕ
  pub uptime : Quotient
  pub avg_latency_ms : Quotient

pub record Heartbeat : Type 0 where
  pub status : Status
  pub started_at : ℕ
  pub duration_ms : ℕ

pub record MonitorUptime : Type 0 where
  pub windows : List (String × UptimeWindow)
  pub heartbeats : List Heartbeat

pub record WindowAccumulator : Type 0 where
  pub total : ℕ
  pub down : ℕ
  pub latency_sum : ℕ

abbrev pub no_results : WindowAccumulator
no_results = record { total = 0; down = 0; latency_sum = 0 }

abbrev pub uptime_windows : List (String × ℕ)
uptime_windows = ("1h", hour) ∷ ("24h", uptime_max_window) ∷ []

unfoldable pub of_monitor : String → String → CheckResult → Bool
of_monitor server_id monitor_id r = r.server_id == server_id && r.monitor_id == monitor_id

-- `$gte` the time that the window begins.
unfoldable pub since : ℕ → ℕ → CheckResult → Bool
since now window r = leb (now - window) r.started_at

-- The sums of the `$group` stage.
unfoldable pub accumulated : List CheckResult → WindowAccumulator
unfolding is_down_variant
accumulated [] = no_results
accumulated (r ∷ rs) =
    let acc = accumulated rs in
    record {
      total = acc.total + 1;
      down = acc.down + (if is_down_variant r.status then 1 else 0);
      latency_sum = acc.latency_sum + (if is_down_variant r.status then 0 else r.duration_ms);
    }

-- The stage makes no document of no documents.
unfoldable pub grouped : List CheckResult → List WindowAccumulator
unfolding accumulated
grouped [] = []
grouped (r ∷ rs) = accumulated (r ∷ rs) ∷ []

unfoldable pub first_or_none : List WindowAccumulator → WindowAccumulator
first_or_none [] = no_results
first_or_none (acc ∷ rest) = acc

unfoldable pub build_window : ℕ → WindowAccumulator → UptimeWindow
build_window window_seconds acc =
    let up = acc.total - acc.down in
    record {
      window_seconds = window_seconds;
      total = acc.total;
      up = up;
      down = acc.down;
      uptime =
          if ltb 0 acc.total
          then record { dividend = up; divisor = acc.total }
          else record { dividend = 0; divisor = 1 };
      avg_latency_ms =
          if ltb 0 up
          then record { dividend = acc.latency_sum; divisor = up }
          else record { dividend = 0; divisor = 1 };
    }

-- One branch of the `$facet` stage, on what the first stage has matched.
unfoldable pub facet_window : ℕ → List CheckResult → String × ℕ → String × UptimeWindow
unfolding since grouped first_or_none build_window
facet_window now matched (key, window) = (
  key,
  build_window (window / 1_000_000_000)
      (first_or_none (grouped (select (since now window) matched))),
)

-- The documents that both queries match.
unfoldable pub matching : String → String → ℕ → CheckResult → Bool
unfolding of_monitor since
matching server_id monitor_id now r =
    of_monitor server_id monitor_id r && since now uptime_max_window r

unfoldable pub aggregate_uptime_windows :
    Option DriverError
    → String
    → String
    → ℕ
    → List CheckResult
    → Result (List (String × UptimeWindow))
unfolding facet_window matching
aggregate_uptime_windows failure server_id monitor_id now results = answer failure (
    ok (map (facet_window now (select (matching server_id monitor_id now) results)) uptime_windows))

unfoldable pub insert_newest : CheckResult → List CheckResult → List CheckResult
insert_newest r [] = r ∷ []
insert_newest r (x ∷ xs) =
    let rest = insert_newest r xs in if leb x.started_at r.started_at then r ∷ x ∷ xs else x ∷ rest

-- The sort of the query, by `started_at` descending.
unfoldable pub newest_first : List CheckResult → List CheckResult
unfolding insert_newest
newest_first [] = []
newest_first (r ∷ rs) = insert_newest r (newest_first rs)

unfoldable pub to_heartbeats : List CheckResult → List Heartbeat
to_heartbeats [] = []
to_heartbeats (r ∷ rs) =
    to_heartbeats rs
    ++ record {
      status = normalize_status r.status;
      started_at = r.started_at;
      duration_ms = r.duration_ms;
    }
      ∷ []

unfoldable pub heartbeats_of : Result (List CheckResult) → Result (List Heartbeat)
unfolding to_heartbeats
heartbeats_of (ok rs) = ok (to_heartbeats rs)
heartbeats_of (err e) = err e

unfoldable pub recent_heartbeats :
    Option DriverError → String → String → ℕ → List CheckResult → Result (List Heartbeat)
unfolding heartbeats_of newest_first matching
recent_heartbeats failure server_id monitor_id now results = heartbeats_of (
    answer failure (
      ok (
        take uptime_beat_limit
          (newest_first (select (matching server_id monitor_id now) results)))))

unfoldable pub both :
    Result (List (String × UptimeWindow)) → Result (List Heartbeat) → Result MonitorUptime
both (err e) beats = err e
both (ok windows) (err e) = err e
both (ok windows) (ok beats) = ok record { windows = windows; heartbeats = beats }

-- By the failures of the two queries, at one reading of the clock.
unfoldable pub get_monitor_uptime :
    Option DriverError
    → Option DriverError
    → String
    → String
    → ℕ
    → List CheckResult
    → Result MonitorUptime
unfolding both aggregate_uptime_windows recent_heartbeats
get_monitor_uptime failure beats_failure server_id monitor_id now results =
    both (aggregate_uptime_windows failure server_id monitor_id now results)
      (recent_heartbeats beats_failure server_id monitor_id now results)
