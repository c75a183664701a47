-- ===== src/Api/Convert.antt =====
-- internal/connectapi/conv.go: between the documents of the store and the messages of
-- src/pkg/proto/neoline/v1, which are records here. A timestamp is a count of nanoseconds, a nil message is
-- `none`, and a document whose time is Go's zero time, here 0, has no timestamp.
use neo_line.Prelude.{ℕ, zero, suc, Bool, false, String, Option, none, some, List, []}
use neo_line.Monitoring.Types.{
  ServerSsh, Server, CertificateInfo, Monitor, AlertChannel, AlertPolicy,
}

unfoldable pub time_to_ts : ℕ → Option ℕ
time_to_ts zero = none
time_to_ts (suc t) = some (suc t)

unfoldable pub ts_to_time : Option ℕ → ℕ
ts_to_time none = 0
ts_to_time (some t) = t

pub record ServerMessage : Type 0 where
  pub id : String
  pub name : String
  pub host : String
  pub environment : String
  pub region : String
  pub tags : List String
  pub sort_order : ℕ
  pub enabled : Bool
  pub health_status : String
  pub last_status_change_at : Option ℕ
  pub last_check_at : Option ℕ
  pub created_at : Option ℕ
  pub updated_at : Option ℕ
  pub ssh : Option ServerSsh

pub record CertificateMessage : Type 0 where
  pub subject : String
  pub issuer : String
  pub dns_names : List String
  pub serial_number : String
  pub not_before : Option ℕ
  pub not_after : Option ℕ
  pub days_remaining : ℕ

pub record MonitorMessage : Type 0 where
  pub id : String
  pub server_id : String
  pub group_ids : List String
  pub name : String
  pub kind : String
  pub enabled : Bool
  pub host : String
  pub port : ℕ
  pub url : String
  pub method : String
  pub path : String
  pub headers : List (String × String)
  pub expected_status_codes : String
  pub tls_verify : Bool
  pub sni_name : String
  pub warning_days : ℕ
  pub critical_days : ℕ
  pub interval_seconds : ℕ
  pub timeout_seconds : ℕ
  pub retries : ℕ
  pub status : String
  pub last_check_at : Option ℕ
  pub last_status_change_at : Option ℕ
  pub certificate : Option CertificateMessage
  pub created_at : Option ℕ
  pub updated_at : Option ℕ

pub record MonitorGroupMessage : Type 0 where
  pub id : String
  pub name : String
  pub description : String
  pub sort_order : ℕ
  pub alert_policy : Option AlertPolicy
  pub created_at : Option ℕ
  pub updated_at : Option ℕ

pub record NotifyGroupMessage : Type 0 where
  pub id : String
  pub name : String
  pub description : String
  pub channels : List AlertChannel
  pub created_at : Option ℕ
  pub updated_at : Option ℕ

unfoldable pub server_to_proto : Server → ServerMessage
unfolding time_to_ts
server_to_proto s = record {
  id = s.id;
  name = s.name;
  host = s.host;
  environment = s.environment;
  region = s.region;
  tags = s.tags;
  sort_order = s.sort_order;
  enabled = s.enabled;
  health_status = s.health_status;
  last_status_change_at = time_to_ts s.last_status_change_at;
  last_check_at = time_to_ts s.last_check_at;
  created_at = time_to_ts s.created_at;
  updated_at = time_to_ts s.updated_at;
  ssh = s.ssh;
}

abbrev pub no_server : Server
no_server = record {
  id = "";
  name = "";
  host = "";
  environment = "";
  region = "";
  tags = [];
  sort_order = 0;
  enabled = false;
  health_status = "";
  last_status_change_at = 0;
  last_check_at = 0;
  ssh = none;
  created_at = 0;
  updated_at = 0;
}

unfoldable pub server_from_proto : Option ServerMessage → Server
server_from_proto none = no_server
server_from_proto (some p) = record no_server {
  id = p.id;
  name = p.name;
  host = p.host;
  environment = p.environment;
  region = p.region;
  tags = p.tags;
  sort_order = p.sort_order;
  enabled = p.enabled;
  ssh = p.ssh;
}

unfoldable pub cert_to_proto : Option CertificateInfo → Option CertificateMessage
unfolding time_to_ts
cert_to_proto none = none
cert_to_proto (some c) = some record {
  subject = c.subject;
  issuer = c.issuer;
  dns_names = c.dns_names;
  serial_number = c.serial_number;
  not_before = time_to_ts c.not_before;
  not_after = time_to_ts c.not_after;
  days_remaining = c.days_remaining;
}

unfoldable pub monitor_to_proto : Monitor → MonitorMessage
unfolding time_to_ts cert_to_proto
monitor_to_proto m = record {
  id = m.id;
  server_id = m.server_id;
  group_ids = m.group_ids;
  name = m.name;
  kind = m.kind;
  enabled = m.enabled;
  host = m.host;
  port = m.port;
  url = m.url;
  method = m.method;
  path = m.path;
  headers = m.headers;
  expected_status_codes = m.expected_status_codes;
  tls_verify = m.tls_verify;
  sni_name = m.sni_name;
  warning_days = m.warning_days;
  critical_days = m.critical_days;
  interval_seconds = m.interval_seconds;
  timeout_seconds = m.timeout_seconds;
  retries = m.retries;
  status = m.status;
  last_check_at = time_to_ts m.last_check_at;
  last_status_change_at = time_to_ts m.last_status_change_at;
  certificate = cert_to_proto m.certificate;
  created_at = time_to_ts m.created_at;
  updated_at = time_to_ts m.updated_at;
}

abbrev pub no_monitor : Monitor
no_monitor = record {
  id = "";
  server_id = "";
  group_ids = [];
  name = "";
  kind = "";
  enabled = false;
  host = "";
  port = 0;
  url = "";
  method = "";
  path = "";
  headers = [];
  expected_status_codes = "";
  tls_verify = false;
  sni_name = "";
  warning_days = 0;
  critical_days = 0;
  interval_seconds = 0;
  timeout_seconds = 0;
  retries = 0;
  status = "";
  last_check_at = 0;
  last_status_change_at = 0;
  certificate = none;
  created_at = 0;
  updated_at = 0;
}

unfoldable pub monitor_from_proto : Option MonitorMessage → Monitor
monitor_from_proto none = no_monitor
monitor_from_proto (some p) = record no_monitor {
  id = p.id;
  server_id = p.server_id;
  group_ids = p.group_ids;
  name = p.name;
  kind = p.kind;
  enabled = p.enabled;
  host = p.host;
  port = p.port;
  url = p.url;
  method = p.method;
  path = p.path;
  headers = p.headers;
  expected_status_codes = p.expected_status_codes;
  tls_verify = p.tls_verify;
  sni_name = p.sni_name;
  warning_days = p.warning_days;
  critical_days = p.critical_days;
  interval_seconds = p.interval_seconds;
  timeout_seconds = p.timeout_seconds;
  retries = p.retries;
}
