-- ===== src/Alert.antt =====
-- internal/alert/dispatcher.go: which status changes a group's policy announces, the throttle, and the
-- deliveries. The two store calls are parameters. A delivery is the channel and the payload handed to
-- `deliver`; what the notifier then sends is not modelled. A time is a count of nanoseconds, and the
-- map of the last alerts is a function on its keys.
pub mod Policy
pub mod Throttle
use neo_line.Prelude.{
  ℕ, ◌+◌, ◌*◌, Bool, true, false, not, ◌&&◌, ◌||◌, String, ◌==◌, Option, none, some, List, [], ◌∷◌,
  ◌++◌, join_text, map, ltb, nat_beq, if◌then◌else◌, Result, ok, err, length,
}
use neo_line.Monitoring.Types.{Monitor, MonitorGroup, NotifyGroup, AlertPolicy, AlertChannel}

pub record Payload : Type 0 where
  pub monitor_id : String
  pub monitor_name : String
  pub server_id : String
  pub previous_status : String
  pub current_status : String
  pub occurred_at : ℕ
  pub group_id : String
  pub group_name : String

-- The interface `Store` of the package.
pub record AlertStore : Type 0 where
  pub get_monitor_group : String → Result MonitorGroup
  pub get_notify_group : String → Result NotifyGroup

-- The map `last` of the dispatcher.
abbrev pub Last : Type 0
Last = String → Option ℕ

unfoldable pub normalize : String → String
normalize s =
    if s == "Healthy" || s == "healthy" || s == "HEALTHY" || s == "HEALTH_STATUS_HEALTHY"
    then "Healthy"
    else if s == "Warning" || s == "warning" || s == "WARNING" || s == "HEALTH_STATUS_WARNING"
    then "Warning"
    else if s == "Critical" || s == "critical" || s == "CRITICAL" || s == "HEALTH_STATUS_CRITICAL"
    then "Critical"
    else if s == "Down" || s == "down" || s == "DOWN" || s == "HEALTH_STATUS_DOWN"
    then "Down"
    else if s == ""
    then ""
    else "Unknown"

unfoldable pub should_fire : AlertPolicy → String → String → Bool
unfolding normalize
should_fire policy prev curr =
    let p = normalize prev in
    let c = normalize curr in
    if policy.on_recover
      && not (p == "Healthy")
      && not (p == "")
      && not (p == "Unknown")
      && c == "Healthy"
    then true
    else if c == "Down"
    then policy.on_down
    else if c == "Critical"
    then policy.on_critical
    else if c == "Warning"
    then policy.on_warning
    else false

unfoldable pub throttle_key : String → String → String
throttle_key group_id monitor_id = join_text group_id (join_text "|" monitor_id)

unfoldable pub reset_throttle : String → Last → Last
reset_throttle key last k = if k == key then none else last k

-- The map with an alert recorded.
unfoldable pub recorded : String → ℕ → Last → Last
recorded key now last k = if k == key then some now else last k

-- The test of the window, `now.Sub(last) < window`.
unfoldable pub within : ℕ → ℕ → Option ℕ → Bool
within min_interval_seconds now none = false
within min_interval_seconds now (some t) = ltb now (t + min_interval_seconds * 1000000000)

unfoldable pub allow_throttle : String → ℕ → ℕ → Last → Bool × Last
unfolding within recorded
allow_throttle key min_interval_seconds now last =
    if nat_beq min_interval_seconds 0
    then (true, last)
    else if within min_interval_seconds now (last key)
    then (false, last)
    else (true, recorded key now last)

unfoldable pub resolve_channels : AlertStore → List String → List AlertChannel
resolve_channels st [] = []
resolve_channels st (id ∷ ids) =
    let rest = resolve_channels st ids in
    elim (st.get_notify_group id) [ err e ↦ rest | ok group ↦ group.channels ++ rest ]

-- Whether the alert goes out, with the throttle after it: a recovery is never held back.
unfoldable pub pass_throttle : String → String → ℕ → ℕ → Last → Bool × Last
unfolding normalize reset_throttle allow_throttle
pass_throttle key curr min_interval_seconds now last =
    if normalize curr == "Healthy"
    then (true, reset_throttle key last)
    else allow_throttle key min_interval_seconds now last

abbrev pub Delivery : Type 0
Delivery = AlertChannel × Payload

unfoldable pub payload : Monitor → String → String → ℕ → MonitorGroup → Payload
unfolding normalize
payload m prev curr occurred_at group = record {
  monitor_id = m.id;
  monitor_name = m.name;
  server_id = m.server_id;
  previous_status = normalize prev;
  current_status = normalize curr;
  occurred_at = occurred_at;
  group_id = group.id;
  group_name = group.name;
}

-- One round of the loop for a group that was found.
unfoldable pub alert_group :
    AlertStore → Monitor → String → String → ℕ → String → MonitorGroup → Last → Last × List Delivery
unfolding should_fire throttle_key pass_throttle resolve_channels payload
alert_group st m prev curr at group_id group last =
    let policy = group.alert_policy in
    let (passed, next) =
      pass_throttle (throttle_key group_id m.id) curr policy.min_interval_seconds at last in
    let deliveries =
      map (λ c. (c, payload m prev curr at group)) (resolve_channels st policy.notify_group_ids) in
    if not policy.enabled || nat_beq (length policy.notify_group_ids) 0
    then (last, [])
    else if not (should_fire policy prev curr)
    then (last, [])
    else if passed
    then (next, deliveries)
    else (next, [])

-- One round of the loop.
unfoldable pub visit_group :
    AlertStore → Monitor → String → String → ℕ → String → Last → Last × List Delivery
unfolding alert_group
visit_group st m prev curr at group_id last = elim (st.get_monitor_group group_id) [
  | err e ↦ (last, [])
  | ok group ↦ alert_group st m prev curr at group_id group last
]

unfoldable pub visit_groups :
    AlertStore → Monitor → String → String → ℕ → List String → Last → Last × List Delivery
unfolding visit_group
visit_groups st m prev curr at [] last = (last, [])
visit_groups st m prev curr at (id ∷ ids) last =
    let (next, sent) = visit_group st m prev curr at id last in
    let (final, rest) = visit_groups st m prev curr at ids next in (final, sent ++ rest)

unfoldable pub on_monitor_status_change :
    AlertStore → Monitor → String → String → ℕ → Last → Last × List Delivery
unfolding normalize visit_groups
on_monitor_status_change st m prev curr at last =
    if normalize prev == normalize curr
    then (last, [])
    else visit_groups st m prev curr at m.group_ids last
