-- ===== src/Api/Groups.antt =====
-- The messages of monitor groups and notify groups in internal/connectapi/conv.go. Those of an alert policy
-- and of a channel have the fields of the documents.
use neo_line.Prelude.{ℕ, zero, suc, ◌≡◌, refl, ap, false, Option, none, some, List, [], ◌∷◌, map}
use neo_line.Monitoring.Types.{AlertChannel, NotifyGroup, AlertPolicy, MonitorGroup}
use neo_line.Api.Convert.{time_to_ts, ts_to_time, MonitorGroupMessage, NotifyGroupMessage}

unfoldable pub alert_policy_to_proto : AlertPolicy → AlertPolicy
alert_policy_to_proto p = record {
  enabled = p.enabled;
  notify_group_ids = p.notify_group_ids;
  on_down = p.on_down;
  on_recover = p.on_recover;
  on_warning = p.on_warning;
  on_critical = p.on_critical;
  min_interval_seconds = p.min_interval_seconds;
}

abbrev pub no_policy : AlertPolicy
no_policy = record {
  enabled = false;
  notify_group_ids = [];
  on_down = false;
  on_recover = false;
  on_warning = false;
  on_critical = false;
  min_interval_seconds = 0;
}

unfoldable pub alert_policy_from_proto : Option AlertPolicy → AlertPolicy
alert_policy_from_proto none = no_policy
alert_policy_from_proto (some p) = record {
  enabled = p.enabled;
  notify_group_ids = p.notify_group_ids;
  on_down = p.on_down;
  on_recover = p.on_recover;
  on_warning = p.on_warning;
  on_critical = p.on_critical;
  min_interval_seconds = p.min_interval_seconds;
}

unfoldable pub monitor_group_to_proto : MonitorGroup → MonitorGroupMessage
unfolding alert_policy_to_proto time_to_ts
monitor_group_to_proto g = record {
  id = g.id;
  name = g.name;
  description = g.description;
  sort_order = g.sort_order;
  alert_policy = some (alert_policy_to_proto g.alert_policy);
  created_at = time_to_ts g.created_at;
  updated_at = time_to_ts g.updated_at;
}

unfoldable pub monitor_group_from_proto : Option MonitorGroupMessage → MonitorGroup
unfolding alert_policy_from_proto ts_to_time
monitor_group_from_proto none = record {
  id = "";
  name = "";
  description = "";
  sort_order = 0;
  alert_policy = no_policy;
  created_at = 0;
  updated_at = 0;
}
monitor_group_from_proto (some p) = record {
  id = p.id;
  name = p.name;
  description = p.description;
  sort_order = p.sort_order;
  alert_policy = alert_policy_from_proto p.alert_policy;
  created_at = ts_to_time p.created_at;
  updated_at = ts_to_time p.updated_at;
}

unfoldable pub alert_channel_to_proto : AlertChannel → AlertChannel
alert_channel_to_proto c = record { kind = c.kind; target = c.target; extra = c.extra }

unfoldable pub alert_channel_from_proto : AlertChannel → AlertChannel
alert_channel_from_proto c = record { kind = c.kind; target = c.target; extra = c.extra }

unfoldable pub notify_group_to_proto : NotifyGroup → NotifyGroupMessage
unfolding alert_channel_to_proto time_to_ts
notify_group_to_proto g = record {
  id = g.id;
  name = g.name;
  description = g.description;
  channels = map alert_channel_to_proto g.channels;
  created_at = time_to_ts g.created_at;
  updated_at = time_to_ts g.updated_at;
}

unfoldable pub notify_group_from_proto : Option NotifyGroupMessage → NotifyGroup
unfolding alert_channel_from_proto ts_to_time
notify_group_from_proto none = record {
  id = "";
  name = "";
  description = "";
  channels = [];
  created_at = 0;
  updated_at = 0;
}
notify_group_from_proto (some p) = record {
  id = p.id;
  name = p.name;
  description = p.description;
  channels = map alert_channel_from_proto p.channels;
  created_at = ts_to_time p.created_at;
  updated_at = ts_to_time p.updated_at;
}

ts_to_time-time_to_ts : (t : ℕ) → ts_to_time (time_to_ts t) ≡ t
unfolding ts_to_time time_to_ts
ts_to_time-time_to_ts zero = refl
ts_to_time-time_to_ts (suc t) = refl

channels-same :
    (cs : List AlertChannel) → map alert_channel_from_proto (map alert_channel_to_proto cs) ≡ cs
unfolding alert_channel_from_proto alert_channel_to_proto
channels-same [] = refl
channels-same (c ∷ cs) = ap (λ ds. c ∷ ds) (channels-same cs)

-- A monitor group and a notify group that are sent and read back are what they were, with their times.
pub groups-from_to_proto :
    (g : MonitorGroup) (n : NotifyGroup)
    → (monitor_group_from_proto (some (monitor_group_to_proto g)) ≡ g)
      × (notify_group_from_proto (some (notify_group_to_proto n)) ≡ n)
unfolding monitor_group_from_proto monitor_group_to_proto notify_group_from_proto
    notify_group_to_proto alert_policy_from_proto alert_policy_to_proto
groups-from_to_proto g n = (
  λ i. record g {
    created_at = ts_to_time-time_to_ts g.created_at i;
    updated_at = ts_to_time-time_to_ts g.updated_at i;
  },
  λ i. record n {
    channels = channels-same n.channels i;
    created_at = ts_to_time-time_to_ts n.created_at i;
    updated_at = ts_to_time-time_to_ts n.updated_at i;
  },
)
