-- ===== src/Examples/Uptime.antt =====
-- The availability of a monitor by two stored results.
use neo_line.Prelude.{◌≡◌, refl, none, [], ◌∷◌, ok, ◌*◌}
use neo_line.Monitoring.Types.{CheckResult}
use neo_line.Monitoring.Status.{normalize_status, down, healthy}
use neo_line.Monitoring.Uptime.{MonitorUptime, hour, get_monitor_uptime}
use neo_line.Monitoring.Counting.{IsSummary, get_monitor_uptime-IsSummary}

abbrev answered : CheckResult
answered = record {
  id = "res_1";
  server_id = "srv_1";
  monitor_id = "mon_1";
  status = "Healthy";
  started_at = 30 * hour;
  ended_at = 30 * hour;
  duration_ms = 12;
  error_stage = "";
  error_message = "";
  remote_address = "";
  port = 443;
  http_status_code = 0;
  certificate = none;
}

abbrev timed_out : CheckResult
timed_out = record answered {
  id = "res_2";
  status = "down";
  started_at = 20 * hour;
  duration_ms = 5000;
}

abbrev availability : MonitorUptime
availability = record {
  windows =
      (
        "1h",
        record {
          window_seconds = 3600;
          total = 1;
          up = 1;
          down = 0;
          uptime = record { dividend = 1; divisor = 1 };
          avg_latency_ms = record { dividend = 12; divisor = 1 };
        },
      )
      ∷ (
        "24h",
        record {
          window_seconds = 86400;
          total = 2;
          up = 1;
          down = 1;
          uptime = record { dividend = 1; divisor = 2 };
          avg_latency_ms = record { dividend = 12; divisor = 1 };
        },
      )
      ∷ [];
  heartbeats =
      record { status = down; started_at = 20 * hour; duration_ms = 5000 }
      ∷ record { status = healthy; started_at = 30 * hour; duration_ms = 12 }
      ∷ [];
}

two_results :
    get_monitor_uptime none none "srv_1" "mon_1" (31 * hour) (answered ∷ timed_out ∷ [])
    ≡ ok availability
unfolding get_monitor_uptime normalize_status
two_results = refl

get_monitor_uptime-IsSummary_example :
    IsSummary "srv_1" "mon_1" (31 * hour) (answered ∷ timed_out ∷ []) availability
get_monitor_uptime-IsSummary_example =
    get_monitor_uptime-IsSummary "srv_1" "mon_1" (31 * hour) none none (answered ∷ timed_out ∷ [])
      availability two_results
