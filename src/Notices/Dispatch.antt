-- ===== src/Notices/Dispatch.antt =====
-- internal/certnotify: which notices the outcome of an operation and the hourly scan send. The result of
-- a method is the payloads that are handed to `deliver`; a nil dispatcher, the rendering and the transport
-- are left out, and so are the warnings of deliveries that fail, each of them one call of
-- `set_certificate_notification_warning`.
use neo_line.Prelude.{
  ℕ, ◌-◌, ◌+◌, ◌/◌, Bool, true, false, ◌&&◌, String, Option, none, some, List, [], ◌∷◌, ◌++◌, ltb,
  leb, nat_beq, if◌then◌else◌, Result, ok, err,
}
use neo_line.Certificates.Types.{
  CertificateOperation, CertificateVersion, ManagedCertificate, OperationType, issue, renew,
  Database,
}
use neo_line.Certificates.Store.{Method, return, ◌>>=◌}
use neo_line.Certificates.Operations.{find_running_operation}
use neo_line.CertState.{compute_validity, Validity, expired, day}
use neo_line.Monitoring.Types.{AlertChannel, NotifyGroup}
use neo_line.Manager.Runner.{recover}
use neo_line.Notices.Records.{
  cert_notification_seven_day_threshold, list_managed_certificates_for_notifications,
  try_record_operation_failure_notification, try_record_operation_failure_reminder,
  try_record_operation_recovery, try_record_seven_day_reminder, try_record_expired_notification,
}

pub data EventType : Type 0 where
  operation_failed operation_failed_reminder operation_recovered expiring_soon expired_event :
      EventType

pub record Payload : Type 0 where
  pub event_type : EventType
  pub managed_certificate_id : String
  pub certificate_name : String
  pub domains : List String
  pub operation_type : Option OperationType
  pub operation_id : String
  pub error_summary : String
  pub active_validity : Validity
  pub days_remaining : ℕ
  pub occurred_at : ℕ

-- The quotient of an int64 by a day fits an int32.
unfoldable pub days_remaining : Option CertificateVersion → ℕ → ℕ
days_remaining none now = 0
days_remaining (some v) now =
    let remaining = v.not_after - now in
    let days = remaining / day in
    if ltb v.not_after now then 0 else if nat_beq days 0 && ltb 0 remaining then 1 else days

abbrev is_expired : Validity → Bool
is_expired expired = true
is_expired _ = false

abbrev no_groups : ManagedCertificate → Bool
no_groups cert = elim cert.notify_group_ids [ [] ↦ true | _ ∷ _ ↦ false ]

unfoldable pub operation_payload :
    EventType → ManagedCertificate → CertificateOperation → String → ℕ → Payload
operation_payload event cert op summary now = record {
  event_type = event;
  managed_certificate_id = cert.id;
  certificate_name = cert.name;
  domains = cert.domains;
  operation_type = some op.kind;
  operation_id = op.id;
  error_summary = summary;
  active_validity = (compute_validity cert now).0;
  days_remaining = 0;
  occurred_at = now;
}

unfoldable pub validity_payload : EventType → ManagedCertificate → ℕ → ℕ → Payload
validity_payload event cert days now = record {
  event_type = event;
  managed_certificate_id = cert.id;
  certificate_name = cert.name;
  domains = cert.domains;
  operation_type = none;
  operation_id = "";
  error_summary = "";
  active_validity = (compute_validity cert now).0;
  days_remaining = days;
  occurred_at = now;
}

-- The notice of a marker that was claimed; an error of the store sends none.
unfoldable pub claimed_notice : Payload → Result Bool → Method (List Payload)
claimed_notice p (ok true) = return (p ∷ [])
claimed_notice p (ok false) = return []
claimed_notice p (err e) = return []

-- A notify group that cannot be read is skipped.
unfoldable pub resolve_channels : (String → Result NotifyGroup) → List String → List AlertChannel
resolve_channels get_notify_group [] = []
resolve_channels get_notify_group (id ∷ ids) =
    let rest = resolve_channels get_notify_group ids in
    elim (get_notify_group id) [ err e ↦ rest | ok group ↦ group.channels ++ rest ]

module _ (db : Database) where
  -- The reminder, where the failure itself was notified before.
  unfoldable pub remind_failure :
      ManagedCertificate → CertificateOperation → String → ℕ → Result Bool → Method (List Payload)
  unfolding claimed_notice operation_payload
  remind_failure cert op summary now (ok true) =
      return (operation_payload operation_failed cert op summary now ∷ [])
  remind_failure cert op summary now (ok false) =
      recover (try_record_operation_failure_reminder db cert.id now)
        (claimed_notice (operation_payload operation_failed_reminder cert op summary now))
  remind_failure cert op summary now (err e) = return []

  unfoldable pub on_operation_failure :
      ManagedCertificate → CertificateOperation → String → ℕ → Method (List Payload)
  unfolding remind_failure
  on_operation_failure cert op summary now =
      if no_groups cert
      then return []
      else recover (try_record_operation_failure_notification db cert.id now)
          (remind_failure cert op summary now)

  unfoldable pub on_operation_success :
      ManagedCertificate → CertificateOperation → ℕ → Method (List Payload)
  unfolding claimed_notice operation_payload
  on_operation_success cert op now =
      if no_groups cert
      then return []
      else recover (try_record_operation_recovery db cert.id now)
          (claimed_notice (operation_payload operation_recovered cert op "" now))

  -- Whether an operation was found; any error counts as none.
  unfoldable pub found_running : String → OperationType → Method Bool
  found_running cert_id kind =
      recover (find_running_operation db cert_id kind)
        λ r. return (elim r as (λ _. Bool) [ ok _ ↦ true | err _ ↦ false ])

  unfoldable pub seven_day_reminder_blocked_by_in_flight_operation :
      ManagedCertificate → Method Bool
  unfolding found_running
  seven_day_reminder_blocked_by_in_flight_operation cert = do
    renewing ← found_running cert.id renew
    if renewing
        then return true
        else elim cert.active_version [ none ↦ return false | some _ ↦ found_running cert.id issue ]

  unfoldable pub remind_unless_blocked :
      ManagedCertificate → CertificateVersion → ℕ → Bool → Method (List Payload)
  unfolding claimed_notice validity_payload days_remaining
  remind_unless_blocked cert v now true = return []
  remind_unless_blocked cert v now false =
      recover (try_record_seven_day_reminder db cert.id v.id now)
        (claimed_notice (validity_payload expiring_soon cert (days_remaining (some v) now) now))

  -- The body of the loop, for the active version.
  unfoldable pub scan_version : ManagedCertificate → CertificateVersion → ℕ → Method (List Payload)
  unfolding seven_day_reminder_blocked_by_in_flight_operation remind_unless_blocked claimed_notice
      validity_payload
  scan_version cert v now =
      if is_expired (compute_validity cert now).0
      then recover (try_record_expired_notification db cert.id v.id now)
          (claimed_notice (validity_payload expired_event cert 0 now))
      else if leb v.not_after (now + cert_notification_seven_day_threshold) && ltb now v.not_after
      then (seven_day_reminder_blocked_by_in_flight_operation cert >>= λ blocked.
          remind_unless_blocked cert v now blocked)
      else return []

  unfoldable pub scan_certificate :
      ManagedCertificate → ℕ → Option CertificateVersion → Method (List Payload)
  unfolding scan_version
  scan_certificate cert now none = return []
  scan_certificate cert now (some v) = if no_groups cert then return [] else scan_version cert v now

  unfoldable pub scan_each : ℕ → List ManagedCertificate → Method (List Payload)
  unfolding scan_certificate
  scan_each now [] = return []
  scan_each now (cert ∷ certs) = do
    sent ← scan_certificate cert now cert.active_version
    rest ← scan_each now certs
    return (sent ++ rest)

  unfoldable pub scan_found : ℕ → Result (List ManagedCertificate) → Method (List Payload)
  unfolding scan_each
  scan_found now (ok certs) = scan_each now certs
  scan_found now (err e) = return []

  unfoldable pub scan_validity_notifications : ℕ → Method (List Payload)
  unfolding scan_found
  scan_validity_notifications now =
      recover (list_managed_certificates_for_notifications db) (scan_found now)
