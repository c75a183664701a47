-- ===== src/Certificates/Types.antt =====
-- The documents of the certificate collections: internal/store/managed_certificates.go and
-- internal/store/certificate_operations.go. A `time.Time` is a count of nanoseconds, a nil pointer or
-- a missing field is `none`, and the string constants of a field are the constructors of a type.
use neo_line.Prelude.{ℕ, Bool, true, false, ◌&&◌, ◌||◌, String, ◌==◌, Option, List, ◌≡◌}
use neo_line.Mongo.{Collection}

pub record IssueConfigSnapshot : Type 0 where
  pub domains : List String
  pub certificate_issuer_id : String
  pub dns_provider_account_id : String
  pub key_type : String

pub record CertificateVersion : Type 0 where
  pub id : String
  pub config_snapshot : IssueConfigSnapshot
  pub fullchain_pem : String
  pub private_key_pem : String
  pub leaf_fingerprint : String
  pub serial_number : String
  pub issuer_common_name : String
  pub not_before : ℕ
  pub not_after : ℕ
  pub key_type : String
  pub staging_untrusted : Bool
  pub certificate_issuer_id : String
  pub revoke_pending : Bool
  pub revoked_at : Option ℕ
  pub created_at : ℕ

-- internal/store/certificate_notifications.go. A field that is omitted while empty reads as empty.
pub record CertificateNotificationState : Type 0 where
  pub had_operation_failure : Bool
  pub last_fail_notified_at : Option ℕ
  pub seven_day_reminder_version_id : String
  pub expired_notified_version_id : String
  pub last_notification_warning : String
  pub last_notification_warning_at : Option ℕ

pub record ManagedCertificate : Type 0 where
  pub id : String
  pub name : String
  pub domains : List String
  pub certificate_issuer_id : String
  pub dns_provider_account_id : String
  pub key_type : String
  pub auto_renew_enabled : Bool
  pub renew_before_days : ℕ
  pub notify_group_ids : List String
  pub server_ids : List String
  pub active_version : Option CertificateVersion
  pub previous_version : Option CertificateVersion
  pub notification_state : Option CertificateNotificationState
  pub created_at : ℕ
  pub updated_at : ℕ

pub data OperationType : Type 0 where
  issue renew revoke : OperationType

pub data OperationStatus : Type 0 where
  pending running succeeded failed : OperationStatus

pub record DnsChallengeRecord : Type 0 where
  pub domain : String
  pub token : String
  pub key_auth : String

-- The stored field `pending_txt_records`: omitted while empty, set to null, or an array.
pub data TxtRecords : Type 0 where
  absent null : TxtRecords
  records : List DnsChallengeRecord → TxtRecords

pub record CertificateOperation : Type 0 where
  pub id : String
  pub managed_certificate_id : String
  pub kind : OperationType
  pub status : OperationStatus
  pub attempt_count : ℕ
  pub consecutive_failures : ℕ
  pub config_snapshot : IssueConfigSnapshot
  pub error_summary : String
  pub warning : String
  pub lease_owner : String
  pub lease_expires_at : Option ℕ
  pub pending_txt_records : TxtRecords
  pub target_version_id : String
  pub revoke_reason : ℕ
  pub started_at : Option ℕ
  pub finished_at : Option ℕ
  pub next_attempt_at : Option ℕ
  pub deadline_at : Option ℕ
  pub created_at : ℕ
  pub updated_at : ℕ

abbrev pub is_pending : OperationStatus → Bool
is_pending pending = true
is_pending _ = false

abbrev pub is_running : OperationStatus → Bool
is_running running = true
is_running _ = false

-- `CertOpInFlightStatuses`.
abbrev pub in_flight : OperationStatus → Bool
in_flight pending = true
in_flight running = true
in_flight _ = false

abbrev pub type_beq : OperationType → OperationType → Bool
type_beq issue issue = true
type_beq renew renew = true
type_beq revoke revoke = true
type_beq _ _ = false

-- The unique indexes of `EnsureCertificateOperationIndexes`: the id, and the certificate among the
-- operations in flight.
unfoldable pub operation_clash : CertificateOperation → CertificateOperation → Bool
operation_clash a b =
    a.id == b.id
    || (in_flight a.status
        && in_flight b.status
        && a.managed_certificate_id == b.managed_certificate_id)

-- The unique indexes of `EnsureManagedCertificateIndexes`.
unfoldable pub certificate_clash : ManagedCertificate → ManagedCertificate → Bool
certificate_clash a b = a.id == b.id || a.name == b.name

-- The two collections, with the indexes that the program creates at its start.
pub record Database : Type 0 where
  pub operations : Collection CertificateOperation
  pub certificates : Collection ManagedCertificate
  pub operations_indexed : operations.clash ≡ operation_clash
  pub certificates_indexed : certificates.clash ≡ certificate_clash
