-- ===== src/Notices/Records.antt =====
-- internal/store/certificate_notifications.go: the markers of the notices, kept on the certificate. Each
-- `TryRecord` method claims one notice by an update that matches only while it has not been sent.
use neo_line.Prelude.{
  ◌*◌, ℕ, ◌+◌, Bool, true, false, not, ◌&&◌, String, ◌==◌, Option, none, some, List, [], ◌∷◌, leb,
  ltb, is_some, get_or,
}
use neo_line.Certificates.Types.{CertificateNotificationState, ManagedCertificate, Database}
use neo_line.Certificates.Store.{Method, return, on_certificates, read_certificates, ◌>>=◌}
use neo_line.Certificates.Versions.{has_certificate_id, holds_version}
use neo_line.CertState.{day}

abbrev pub cert_notification_fail_reminder_interval : ℕ
cert_notification_fail_reminder_interval = day

abbrev pub cert_notification_seven_day_threshold : ℕ
cert_notification_seven_day_threshold = 7 * day

abbrev pub no_state : CertificateNotificationState
no_state = record {
  had_operation_failure = false;
  last_fail_notified_at = none;
  seven_day_reminder_version_id = "";
  expired_notified_version_id = "";
  last_notification_warning = "";
  last_notification_warning_at = none;
}

-- The state that the fields under `notification_state` are read from.
abbrev pub state_of : ManagedCertificate → CertificateNotificationState
state_of c = get_or c.notification_state no_state

unfoldable pub failing : String → ManagedCertificate → Bool
failing cert_id c = has_certificate_id cert_id c && (state_of c).had_operation_failure

unfoldable pub not_failing : String → ManagedCertificate → Bool
not_failing cert_id c = has_certificate_id cert_id c && not (state_of c).had_operation_failure

-- `$lte` of a time that is missing or null does not match.
abbrev pub elapsed : ℕ → Option ℕ → Bool
elapsed now none = false
elapsed now (some t) = leb (t + cert_notification_fail_reminder_interval) now

unfoldable pub remindable : String → ℕ → ManagedCertificate → Bool
unfolding failing
remindable cert_id now c = failing cert_id c && elapsed now (state_of c).last_fail_notified_at

unfoldable pub marked :
    (CertificateNotificationState → CertificateNotificationState)
    → ℕ
    → ManagedCertificate
    → ManagedCertificate
marked f now c = record c { notification_state = some (f (state_of c)); updated_at = now }

unfoldable pub failure_notified : ℕ → CertificateNotificationState → CertificateNotificationState
failure_notified now st = record st {
  had_operation_failure = true;
  last_fail_notified_at = some now;
}

unfoldable pub failure_reminded : ℕ → CertificateNotificationState → CertificateNotificationState
failure_reminded now st = record st { last_fail_notified_at = some now }

unfoldable pub recovered : CertificateNotificationState → CertificateNotificationState
recovered st = record st { had_operation_failure = false; last_fail_notified_at = none }

-- Whether the version is the active one, and the marker names another one.
unfoldable pub unmarked :
    (CertificateNotificationState → String) → String → String → ManagedCertificate → Bool
unmarked marker cert_id version_id c =
    has_certificate_id cert_id c
    && holds_version version_id c.active_version
    && not (marker (state_of c) == version_id)

abbrev nonempty : List String → Bool
nonempty [] = false
nonempty (x ∷ xs) = true

module _ (db : Database) where
  open db use {certificates}

  -- The update of one certificate, and whether it matched.
  unfoldable pub try_record :
      (ManagedCertificate → Bool)
      → (CertificateNotificationState → CertificateNotificationState)
      → ℕ
      → Method Bool
  try_record p f now = do
    matched ← on_certificates (certificates.update_one p (marked f now))
    return (ltb 0 matched)

  unfoldable pub list_managed_certificates_for_notifications : Method (List ManagedCertificate)
  list_managed_certificates_for_notifications =
      read_certificates
        (certificates.find (λ c. nonempty c.notify_group_ids && is_some c.active_version))

  unfoldable pub try_record_operation_failure_notification : String → ℕ → Method Bool
  unfolding try_record not_failing failure_notified
  try_record_operation_failure_notification cert_id now =
      try_record (not_failing cert_id) (failure_notified now) now

  unfoldable pub try_record_operation_failure_reminder : String → ℕ → Method Bool
  unfolding try_record remindable failure_reminded
  try_record_operation_failure_reminder cert_id now =
      try_record (remindable cert_id now) (failure_reminded now) now

  unfoldable pub try_record_operation_recovery : String → ℕ → Method Bool
  unfolding try_record failing recovered
  try_record_operation_recovery cert_id now = try_record (failing cert_id) recovered now

  unfoldable pub try_record_seven_day_reminder : String → String → ℕ → Method Bool
  unfolding try_record unmarked
  try_record_seven_day_reminder cert_id version_id now =
      try_record (unmarked (λ st. st.seven_day_reminder_version_id) cert_id version_id)
        (λ st. record st { seven_day_reminder_version_id = version_id }) now

  unfoldable pub try_record_expired_notification : String → String → ℕ → Method Bool
  unfolding try_record unmarked
  try_record_expired_notification cert_id version_id now =
      try_record (unmarked (λ st. st.expired_notified_version_id) cert_id version_id)
        (λ st. record st { expired_notified_version_id = version_id }) now

  unfoldable pub set_certificate_notification_warning : String → String → ℕ → Method (Unit {0})
  set_certificate_notification_warning cert_id warning at = do
    _ ← on_certificates (
        certificates.update_one (has_certificate_id cert_id) (
          marked
            (λ st. record st {
              last_notification_warning = warning;
              last_notification_warning_at = some at;
            })
            at))
    return tt

  -- `$unset`.
  unfoldable pub clear_certificate_notification_state : String → Method (Unit {0})
  clear_certificate_notification_state cert_id = do
    _ ← on_certificates (
        certificates.update_one (has_certificate_id cert_id)
          (λ c. record c { notification_state = none }))
    return tt
