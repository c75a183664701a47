-- ===== src/Config/Types.antt =====
-- The document of internal/configio/file.go. Its fields that are accepted and ignored are left out.
use neo_line.Prelude.{ℕ, Bool, String, Option, List}

pub record SettingsEntry : Type 0 where
  pub site_name : String
  pub status_page_title : String

pub record ChannelEntry : Type 0 where
  pub kind : String
  pub target : String
  pub extra : List (String × String)

pub record NotifyGroupEntry : Type 0 where
  pub id : String
  pub name : String
  pub description : String
  pub channels : List ChannelEntry

pub record AlertPolicyEntry : Type 0 where
  pub enabled : Bool
  pub notify_group_ids : List String
  pub on_down : Bool
  pub on_recover : Bool
  pub on_warning : Bool
  pub on_critical : Bool
  pub min_interval_seconds : ℕ

pub record MonitorGroupEntry : Type 0 where
  pub id : String
  pub name : String
  pub description : String
  pub sort_order : ℕ
  pub alert_policy : AlertPolicyEntry

pub record SshEntry : Type 0 where
  pub enabled : Bool
  pub host : String
  pub port : ℕ
  pub user : String

pub record MonitorEntry : Type 0 where
  pub id : String
  pub group_ids : List String
  pub name : String
  pub kind : String
  pub enabled : Bool
  pub host : String
  pub port : ℕ
  pub url : String
  pub method : String
  pub path : String
  pub headers : List (String × String)
  pub expected_status_codes : String
  pub tls_verify : Bool
  pub sni_name : String
  pub warning_days : ℕ
  pub critical_days : ℕ
  pub interval_seconds : ℕ
  pub timeout_seconds : ℕ
  pub retries : ℕ

pub record ServerEntry : Type 0 where
  pub id : String
  pub name : String
  pub host : String
  pub environment : String
  pub region : String
  pub tags : List String
  pub sort_order : ℕ
  pub enabled : Bool
  pub ssh : Option SshEntry
  pub monitors : List MonitorEntry

pub record File : Type 0 where
  pub version : ℕ
  pub exported_at : ℕ
  pub settings : Option SettingsEntry
  pub notify_groups : List NotifyGroupEntry
  pub monitor_groups : List MonitorGroupEntry
  pub servers : List ServerEntry
