-- ===== src/Examples/Data.antt =====
-- A database in memory, an operation that waits in it, two replicas, and a monitor.
use neo_line.Prelude.{◌*◌, true, false, refl, none, [], ◌∷◌}
use neo_line.Mongo.{memory}
use neo_line.Certificates.Types.{
  ManagedCertificate, Database, operation_clash, certificate_clash, CertificateOperation,
  CertificateVersion, IssueConfigSnapshot, DnsChallengeRecord, issue,
}
use neo_line.Certificates.Store.{Store}
use neo_line.Certificates.Operations.{prepared}
use neo_line.Certificates.Lease.{ClaimParams}
use neo_line.Certificates.Commands.{new_operation}
use neo_line.Monitoring.Types.{Server, Monitor, AlertPolicy, MonitorGroup, NotifyGroup}

abbrev pub in_memory : Database
unfolding memory
in_memory = record {
  operations = memory operation_clash;
  certificates = memory certificate_clash;
  operations_indexed = refl;
  certificates_indexed = refl;
}

abbrev pub snapshot : IssueConfigSnapshot
snapshot = record {
  domains = "example.com" ∷ [];
  certificate_issuer_id = "iss_1";
  dns_provider_account_id = "dns_1";
  key_type = "ec_p256";
}

abbrev pub issuance : CertificateOperation
issuance = new_operation issue "crt_1" snapshot "" 0

abbrev pub waiting : CertificateOperation
unfolding prepared new_operation
waiting = prepared 100 "cop_1" issuance

abbrev pub empty : Store
empty = record { operations = []; certificates = [] }

abbrev pub one_waiting : Store
one_waiting = record { operations = waiting ∷ []; certificates = [] }

abbrev pub first_replica : ClaimParams
first_replica = record { op_id = "cop_1"; owner = "replica_a"; now = 200; lease_expires = 300 }

abbrev pub second_replica : ClaimParams
second_replica = record { op_id = "cop_1"; owner = "replica_b"; now = 350; lease_expires = 450 }

abbrev pub early_replica : ClaimParams
early_replica = record { op_id = "cop_1"; owner = "replica_b"; now = 250; lease_expires = 350 }

abbrev pub challenge : DnsChallengeRecord
challenge = record { domain = "example.com"; token = "token"; key_auth = "auth" }

abbrev pub version : CertificateVersion
version = record {
  id = "ver_1";
  config_snapshot = snapshot;
  fullchain_pem = "chain";
  private_key_pem = "key";
  leaf_fingerprint = "ff";
  serial_number = "1";
  issuer_common_name = "CA";
  not_before = 0;
  not_after = 90 * 86400 * 1000000000;
  key_type = "ec_p256";
  staging_untrusted = false;
  certificate_issuer_id = "iss_1";
  revoke_pending = false;
  revoked_at = none;
  created_at = 0;
}

abbrev pub monitor : Monitor
monitor = record {
  id = "mon_1";
  server_id = "srv_1";
  group_ids = "grp_1" ∷ [];
  name = "web";
  kind = "tcp";
  enabled = true;
  host = "10.0.0.1";
  port = 443;
  url = "";
  method = "";
  path = "";
  headers = [];
  expected_status_codes = "";
  tls_verify = true;
  sni_name = "";
  warning_days = 21;
  critical_days = 7;
  interval_seconds = 60;
  timeout_seconds = 5;
  retries = 2;
  status = "Down";
  last_check_at = 0;
  last_status_change_at = 0;
  certificate = none;
  created_at = 0;
  updated_at = 0;
}

abbrev pub server : Server
server = record {
  id = "srv_1";
  name = "edge";
  host = "10.0.0.1";
  environment = "prod";
  region = "";
  tags = [];
  sort_order = 0;
  enabled = true;
  health_status = "Down";
  last_status_change_at = 0;
  last_check_at = 0;
  ssh = none;
  created_at = 0;
  updated_at = 0;
}

abbrev pub policy : AlertPolicy
policy = record {
  enabled = true;
  notify_group_ids = "ntf_1" ∷ [];
  on_down = true;
  on_recover = false;
  on_warning = false;
  on_critical = true;
  min_interval_seconds = 60;
}

abbrev pub group : MonitorGroup
group = record {
  id = "grp_1";
  name = "edge";
  description = "";
  sort_order = 0;
  alert_policy = policy;
  created_at = 0;
  updated_at = 0;
}

abbrev pub receivers : NotifyGroup
receivers = record {
  id = "ntf_1";
  name = "on call";
  description = "";
  channels = [];
  created_at = 0;
  updated_at = 0;
}

abbrev pub certificate : ManagedCertificate
certificate = record {
  id = "crt_1";
  name = "example";
  domains = "example.com" ∷ [];
  certificate_issuer_id = "iss_1";
  dns_provider_account_id = "dns_1";
  key_type = "ec_p256";
  auto_renew_enabled = true;
  renew_before_days = 30;
  notify_group_ids = "ntf_1" ∷ [];
  server_ids = [];
  active_version = none;
  previous_version = none;
  notification_state = none;
  created_at = 0;
  updated_at = 0;
}
