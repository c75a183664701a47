-- ===== src/Monitoring/Types.antt =====
-- The documents of the monitoring collections: internal/store/store.go. A time is a count of
-- nanoseconds, with 0 for Go's zero time; a map is a list of its entries.
use neo_line.Prelude.{ℕ, Bool, String, Option, List}

pub record ServerSsh : Type 0 where
  pub enabled : Bool
  pub host : String
  pub port : ℕ
  pub user : String

pub record Server : Type 0 where
  pub id : String
  pub name : String
  pub host : String
  pub environment : String
  pub region : String
  pub tags : List String
  pub sort_order : ℕ
  pub enabled : Bool
  pub health_status : String
  pub last_status_change_at : ℕ
  pub last_check_at : ℕ
  pub ssh : Option ServerSsh
  pub created_at : ℕ
  pub updated_at : ℕ

-- `days_remaining` is an int32, here as the 32 bits of its two's complement.
pub record CertificateInfo : Type 0 where
  pub subject : String
  pub issuer : String
  pub dns_names : List String
  pub serial_number : String
  pub not_before : ℕ
  pub not_after : ℕ
  pub days_remaining : ℕ

pub record Monitor : Type 0 where
  pub id : String
  pub server_id : String
  pub group_ids : List String
  pub name : String
  pub kind : String
  pub enabled : Bool
  pub host : String
  pub port : ℕ
  pub url : String
  pub method : String
  pub path : String
  pub headers : List (String × String)
  pub expected_status_codes : String
  pub tls_verify : Bool
  pub sni_name : String
  pub warning_days : ℕ
  pub critical_days : ℕ
  pub interval_seconds : ℕ
  pub timeout_seconds : ℕ
  pub retries : ℕ
  pub status : String
  pub last_check_at : ℕ
  pub last_status_change_at : ℕ
  pub certificate : Option CertificateInfo
  pub created_at : ℕ
  pub updated_at : ℕ

pub record CheckResult : Type 0 where
  pub id : String
  pub server_id : String
  pub monitor_id : String
  pub status : String
  pub started_at : ℕ
  pub ended_at : ℕ
  pub duration_ms : ℕ
  pub error_stage : String
  pub error_message : String
  pub remote_address : String
  pub port : ℕ
  pub http_status_code : ℕ
  pub certificate : Option CertificateInfo

pub record ServerEvent : Type 0 where
  pub id : String
  pub server_id : String
  pub previous_status : String
  pub current_status : String
  pub reason : String
  pub occurred_at : ℕ

pub record ServerHealth : Type 0 where
  pub server_id : String
  pub status : String
  pub last_status_change_at : ℕ
  pub last_check_at : ℕ
  pub total_monitors : ℕ
  pub healthy_monitors : ℕ
  pub warning_monitors : ℕ
  pub critical_monitors : ℕ
  pub down_monitors : ℕ
  pub unknown_monitors : ℕ

pub record AlertChannel : Type 0 where
  pub kind : String
  pub target : String
  pub extra : List (String × String)

pub record NotifyGroup : Type 0 where
  pub id : String
  pub name : String
  pub description : String
  pub channels : List AlertChannel
  pub created_at : ℕ
  pub updated_at : ℕ

pub record AlertPolicy : Type 0 where
  pub enabled : Bool
  pub notify_group_ids : List String
  pub on_down : Bool
  pub on_recover : Bool
  pub on_warning : Bool
  pub on_critical : Bool
  pub min_interval_seconds : ℕ

pub record MonitorGroup : Type 0 where
  pub id : String
  pub name : String
  pub description : String
  pub sort_order : ℕ
  pub alert_policy : AlertPolicy
  pub created_at : ℕ
  pub updated_at : ℕ
