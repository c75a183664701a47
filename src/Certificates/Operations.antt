-- ===== src/Certificates/Operations.antt =====
-- internal/store/certificate_operations.go: creating and finding operations. The clock and the fresh
-- id are arguments.
use neo_line.Prelude.{
  get_or, ℕ, ◌+◌, ◌*◌, Bool, true, false, ◌&&◌, ◌||◌, String, ◌==◌, Option, none, some, ltb, leb,
  if◌then◌else◌,
}
use neo_line.Certificates.Types.{
  CertificateOperation, OperationType, Database, is_pending, is_running, in_flight, type_beq,
}
use neo_line.Certificates.Store.{Method, return, on_operations, read_operations, ◌>>=◌, ◌>>◌}

abbrev pub second : ℕ
second = 1_000_000_000

abbrev pub default_operation_total_timeout : ℕ
default_operation_total_timeout = 72 * 3600 * second

abbrev pub default_operation_lease_duration : ℕ
default_operation_lease_duration = 90 * second

-- `nil`, missing, or `$lte` now.
abbrev pub is_due : ℕ → Option ℕ → Bool
is_due now none = true
is_due now (some t) = leb t now

-- `$gt` now; a missing time is not.
abbrev pub is_after : ℕ → Option ℕ → Bool
is_after now none = false
is_after now (some t) = ltb now t

unfoldable pub claimable : ℕ → CertificateOperation → Bool
claimable now op =
    (is_pending op.status && is_due now op.next_attempt_at)
    || (is_running op.status && is_due now op.lease_expires_at)

unfoldable pub lease_held : ℕ → CertificateOperation → Bool
lease_held now op = is_running op.status && is_after now op.lease_expires_at

unfoldable pub has_id : String → CertificateOperation → Bool
has_id id op = op.id == id

unfoldable pub in_flight_for : String → CertificateOperation → Bool
in_flight_for cert_id op = op.managed_certificate_id == cert_id && in_flight op.status

-- The document that `CreateCertificateOperation` inserts.
unfoldable pub prepared : ℕ → String → CertificateOperation → CertificateOperation
prepared now fresh op = record op {
  id = if op.id == "" then fresh else op.id;
  created_at = now;
  updated_at = now;
  deadline_at = some (get_or op.deadline_at (now + default_operation_total_timeout));
}

module _ (db : Database) where
  open db use {operations}

  unfoldable pub create_operation : ℕ → String → CertificateOperation → Method CertificateOperation
  create_operation now fresh op = do
    let doc = prepared now fresh op
    on_operations (operations.insert_one doc)
    return doc

  unfoldable pub get_operation : String → Method CertificateOperation
  get_operation id = read_operations (operations.find_one (has_id id))

  unfoldable pub find_running_operation : String → OperationType → Method CertificateOperation
  find_running_operation cert_id kind =
      read_operations
        (operations.find_one (λ op. in_flight_for cert_id op && type_beq op.kind kind))

  unfoldable pub has_running_operation : String → Method Bool
  has_running_operation cert_id = do
    count ← read_operations (operations.count_documents (in_flight_for cert_id))
    return (ltb 0 count)
