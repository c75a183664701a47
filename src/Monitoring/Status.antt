-- ===== src/Monitoring/Status.antt =====
-- The health statuses of internal/store/store.go: their spellings, the status of a server from those
-- of its monitors, and the defaults of a monitor.
use neo_line.Prelude.{
  ℕ, ◌+◌, ◌%◌, ◌^◌, Bool, true, false, not, ◌&&◌, ◌||◌, String, ◌==◌, List, [], ◌∷◌, ltb, nat_beq,
  if◌then◌else◌, is_blank,
}
use neo_line.Monitoring.Types.{Monitor, ServerHealth}

pub data Status : Type 0 where
  healthy warning critical down unknown : Status

-- The constants `StatusHealthy` to `StatusUnknown`.
abbrev pub text : Status → String
text healthy = "Healthy"
text warning = "Warning"
text critical = "Critical"
text down = "Down"
text unknown = "Unknown"

unfoldable pub normalize_status : String → Status
normalize_status s =
    if s == "Healthy" || s == "healthy" || s == "HEALTHY" || s == "HEALTH_STATUS_HEALTHY"
    then healthy
    else if s == "Warning" || s == "warning" || s == "WARNING" || s == "HEALTH_STATUS_WARNING"
    then warning
    else if s == "Critical" || s == "critical" || s == "CRITICAL" || s == "HEALTH_STATUS_CRITICAL"
    then critical
    else if s == "Down" || s == "down" || s == "DOWN" || s == "HEALTH_STATUS_DOWN"
    then down
    else unknown

abbrev pub status_beq : Status → Status → Bool
status_beq healthy healthy = true
status_beq warning warning = true
status_beq critical critical = true
status_beq down down = true
status_beq unknown unknown = true
status_beq _ _ = false

-- `++` on a uint32.
abbrev increment : ℕ → ℕ
increment n = (n + 1) % 2 ^ 32

unfoldable pub count_status : Status → ServerHealth → ServerHealth
count_status healthy h = record h { healthy_monitors = increment h.healthy_monitors }
count_status warning h = record h { warning_monitors = increment h.warning_monitors }
count_status critical h = record h { critical_monitors = increment h.critical_monitors }
count_status down h = record h { down_monitors = increment h.down_monitors }
count_status unknown h = record h { unknown_monitors = increment h.unknown_monitors }

-- One round of the loop over the monitors.
unfoldable pub tally : ServerHealth → Monitor → ServerHealth
unfolding count_status
tally health m =
    let counted =
      count_status (normalize_status m.status)
        (record health { total_monitors = increment health.total_monitors }) in
    if ltb counted.last_check_at m.last_check_at
    then record counted { last_check_at = m.last_check_at }
    else counted

unfoldable pub tally_all : ServerHealth → List Monitor → ServerHealth
unfolding tally
tally_all health [] = health
tally_all health (m ∷ ms) = tally_all (tally health m) ms

unfoldable pub aggregate_health : ServerHealth → Status
aggregate_health health =
    if nat_beq health.total_monitors 0
    then unknown
    else if ltb 0 health.down_monitors
    then down
    else if ltb 0 health.critical_monitors
    then critical
    else if ltb 0 health.warning_monitors
    then warning
    else if ltb 0 health.unknown_monitors
    then unknown
    else healthy

abbrev or_default : ℕ → ℕ → ℕ
or_default n d = if nat_beq n 0 then d else n

unfoldable pub value_or : String → String → String
value_or value fallback = if not (value == "") then value else fallback

unfoldable pub is_tls_port_kind : String → Bool
is_tls_port_kind kind = kind == "tls" || kind == "tls_port" || kind == "tls_certificate"

unfoldable pub is_url_kind : String → Bool
is_url_kind kind = kind == "url" || kind == "http" || kind == "https"

abbrev pub default_tls_warning_days : ℕ
default_tls_warning_days = 21

abbrev pub default_tls_critical_days : ℕ
default_tls_critical_days = 7

unfoldable pub apply_common_defaults : Monitor → Monitor
apply_common_defaults m = record m {
  kind = if m.kind == "" then "tcp" else m.kind;
  interval_seconds = or_default m.interval_seconds 60;
  timeout_seconds = or_default m.timeout_seconds 5;
  retries = or_default m.retries 3;
  status = if m.status == "" then text unknown else m.status;
}

unfoldable pub apply_url_defaults : Monitor → Monitor
unfolding is_url_kind
apply_url_defaults m = record m {
  method = if m.method == "" && is_url_kind m.kind then "GET" else m.method;
  expected_status_codes =
      if is_blank m.expected_status_codes && is_url_kind m.kind
      then "200"
      else m.expected_status_codes;
}

unfoldable pub apply_tls_defaults : Monitor → Monitor
unfolding is_tls_port_kind
apply_tls_defaults m =
    if is_tls_port_kind m.kind
    then record m {
      port = or_default m.port 443;
      warning_days = or_default m.warning_days default_tls_warning_days;
      critical_days = or_default m.critical_days default_tls_critical_days;
    }
    else m

unfoldable pub apply_monitor_defaults : Monitor → Monitor
unfolding apply_common_defaults apply_url_defaults apply_tls_defaults
apply_monitor_defaults m = apply_tls_defaults (apply_url_defaults (apply_common_defaults m))
