-- ===== src/Config/Files.antt =====
-- The conversions of internal/configio/file.go between the document and the store, and the reading of a
-- document. The JSON decoder is a parameter.
use neo_line.Prelude.{
  ℕ, ◌*◌, ◌^◌, Bool, not, String, Option, none, some, List, map, ltb, nat_beq, if◌then◌else◌,
}
use neo_line.Monitoring.Types.{
  ServerSsh, Server, Monitor, AlertChannel, NotifyGroup, AlertPolicy, MonitorGroup,
}
use neo_line.Config.Settings.{Settings}
use neo_line.Config.Types.{
  SettingsEntry, ChannelEntry, NotifyGroupEntry, AlertPolicyEntry, MonitorGroupEntry, SshEntry,
  MonitorEntry, ServerEntry, File,
}

abbrev pub file_version : ℕ
file_version = 1

abbrev pub max_import_bytes : ℕ
max_import_bytes = 10 * 2 ^ 20

-- encoding/json on the bytes of a document: the version alone, the strict decoding, whether nothing
-- follows it, and the writing of a document. A version that is negative reads as 0.
pub record Json : Type 1 where
  pub Bytes : Type 0
  pub size : Bytes → ℕ
  pub head_version : Bytes → Option ℕ
  pub strict : Bytes → Option File
  pub at_end : Bytes → Bool
  pub marshal : File → Bytes

unfoldable pub decode_strict : Option File → Bool → Option File
decode_strict none last = none
decode_strict (some f) last = if last then some f else none

unfoldable pub decode_head : Option ℕ → Option File → Bool → Option File
unfolding decode_strict
decode_head none file last = none
decode_head (some version) file last =
    if not (nat_beq version file_version) then none else decode_strict file last

-- Every error is one of invalid input.
unfoldable pub decode : (json : Json) → json.Bytes → Option File
unfolding decode_head
decode json bytes =
    if ltb max_import_bytes (json.size bytes)
    then none
    else decode_head (json.head_version bytes) (json.strict bytes) (json.at_end bytes)

unfoldable pub settings_from_store : Settings → SettingsEntry
settings_from_store s = record { site_name = s.site_name; status_page_title = s.status_page_title }

unfoldable pub settings_to_store : SettingsEntry → Settings
settings_to_store s = record {
  site_name = s.site_name;
  status_page_title = s.status_page_title;
  updated_at = 0;
}

unfoldable pub channel_from_store : AlertChannel → ChannelEntry
channel_from_store c = record { kind = c.kind; target = c.target; extra = c.extra }

unfoldable pub channel_to_store : ChannelEntry → AlertChannel
channel_to_store c = record { kind = c.kind; target = c.target; extra = c.extra }

unfoldable pub notify_group_from_store : NotifyGroup → NotifyGroupEntry
unfolding channel_from_store
notify_group_from_store g = record {
  id = g.id;
  name = g.name;
  description = g.description;
  channels = map channel_from_store g.channels;
}

unfoldable pub notify_group_to_store : NotifyGroupEntry → NotifyGroup
unfolding channel_to_store
notify_group_to_store g = record {
  id = g.id;
  name = g.name;
  description = g.description;
  channels = map channel_to_store g.channels;
  created_at = 0;
  updated_at = 0;
}

unfoldable pub policy_from_store : AlertPolicy → AlertPolicyEntry
policy_from_store p = record {
  enabled = p.enabled;
  notify_group_ids = p.notify_group_ids;
  on_down = p.on_down;
  on_recover = p.on_recover;
  on_warning = p.on_warning;
  on_critical = p.on_critical;
  min_interval_seconds = p.min_interval_seconds;
}

unfoldable pub policy_to_store : AlertPolicyEntry → AlertPolicy
policy_to_store p = record {
  enabled = p.enabled;
  notify_group_ids = p.notify_group_ids;
  on_down = p.on_down;
  on_recover = p.on_recover;
  on_warning = p.on_warning;
  on_critical = p.on_critical;
  min_interval_seconds = p.min_interval_seconds;
}

unfoldable pub monitor_group_from_store : MonitorGroup → MonitorGroupEntry
unfolding policy_from_store
monitor_group_from_store g = record {
  id = g.id;
  name = g.name;
  description = g.description;
  sort_order = g.sort_order;
  alert_policy = policy_from_store g.alert_policy;
}

unfoldable pub monitor_group_to_store : MonitorGroupEntry → MonitorGroup
unfolding policy_to_store
monitor_group_to_store g = record {
  id = g.id;
  name = g.name;
  description = g.description;
  sort_order = g.sort_order;
  alert_policy = policy_to_store g.alert_policy;
  created_at = 0;
  updated_at = 0;
}

unfoldable pub ssh_from_store : Option ServerSsh → Option SshEntry
ssh_from_store none = none
ssh_from_store (some h) =
    some record { enabled = h.enabled; host = h.host; port = h.port; user = h.user }

unfoldable pub ssh_to_store : Option SshEntry → Option ServerSsh
ssh_to_store none = none
ssh_to_store (some h) =
    some record { enabled = h.enabled; host = h.host; port = h.port; user = h.user }

unfoldable pub monitor_from_store : Monitor → MonitorEntry
monitor_from_store m = record {
  id = m.id;
  group_ids = m.group_ids;
  name = m.name;
  kind = m.kind;
  enabled = m.enabled;
  host = m.host;
  port = m.port;
  url = m.url;
  method = m.method;
  path = m.path;
  headers = m.headers;
  expected_status_codes = m.expected_status_codes;
  tls_verify = m.tls_verify;
  sni_name = m.sni_name;
  warning_days = m.warning_days;
  critical_days = m.critical_days;
  interval_seconds = m.interval_seconds;
  timeout_seconds = m.timeout_seconds;
  retries = m.retries;
}

unfoldable pub monitor_to_store : String → MonitorEntry → Monitor
monitor_to_store server_id m = record {
  id = m.id;
  server_id = server_id;
  group_ids = m.group_ids;
  name = m.name;
  kind = m.kind;
  enabled = m.enabled;
  host = m.host;
  port = m.port;
  url = m.url;
  method = m.method;
  path = m.path;
  headers = m.headers;
  expected_status_codes = m.expected_status_codes;
  tls_verify = m.tls_verify;
  sni_name = m.sni_name;
  warning_days = m.warning_days;
  critical_days = m.critical_days;
  interval_seconds = m.interval_seconds;
  timeout_seconds = m.timeout_seconds;
  retries = m.retries;
  status = "";
  last_check_at = 0;
  last_status_change_at = 0;
  certificate = none;
  created_at = 0;
  updated_at = 0;
}

unfoldable pub server_from_store : Server → List Monitor → ServerEntry
unfolding ssh_from_store monitor_from_store
server_from_store s monitors = record {
  id = s.id;
  name = s.name;
  host = s.host;
  environment = s.environment;
  region = s.region;
  tags = s.tags;
  sort_order = s.sort_order;
  enabled = s.enabled;
  ssh = ssh_from_store s.ssh;
  monitors = map monitor_from_store monitors;
}

unfoldable pub server_to_store : ServerEntry → Server
unfolding ssh_to_store
server_to_store s = record {
  id = s.id;
  name = s.name;
  host = s.host;
  environment = s.environment;
  region = s.region;
  tags = s.tags;
  sort_order = s.sort_order;
  enabled = s.enabled;
  health_status = "";
  last_status_change_at = 0;
  last_check_at = 0;
  ssh = ssh_to_store s.ssh;
  created_at = 0;
  updated_at = 0;
}
