-- ===== src/Certificates/Lease.antt =====
-- internal/store/certificate_operation_lease.go: claiming an operation, keeping its lease, and ending
-- an attempt. A time is stored as it is given; the dates of the database keep its milliseconds.
use neo_line.Prelude.{
  get_or, is_some, ◌++◌, ℕ, ◌+◌, Bool, not, ◌&&◌, String, ◌==◌, Option, none, some, [], ◌∷◌, ltb,
  if◌then◌else◌, any, operation_conflict,
}
use neo_line.Certificates.Types.{
  CertificateOperation, pending, running, failed, DnsChallengeRecord, TxtRecords, absent, null,
  records, Database, is_running, in_flight,
}
use neo_line.Certificates.Store.{
  Method, return, require, require_matched, on_operations, read_operations, ◌>>=◌, ◌>>◌,
}
use neo_line.Certificates.Operations.{
  claimable, lease_held, has_id, is_after, is_due, get_operation,
}

pub record ClaimParams : Type 0 where
  pub op_id : String
  pub owner : String
  pub now : ℕ
  pub lease_expires : ℕ

unfoldable pub claimed : ClaimParams → CertificateOperation → CertificateOperation
claimed p op = record op {
  status = running;
  lease_owner = p.owner;
  lease_expires_at = some p.lease_expires;
  updated_at = p.now;
  finished_at = none;
  started_at = some (get_or op.started_at p.now);
  attempt_count = op.attempt_count + 1;
}

-- The other operations of a certificate whose lease is held.
unfoldable pub conflicting : String → ClaimParams → CertificateOperation → Bool
conflicting cert_id p op =
    op.managed_certificate_id == cert_id && not (op.id == p.op_id) && lease_held p.now op

unfoldable pub claims : ClaimParams → CertificateOperation → Bool
claims p op = has_id p.op_id op && claimable p.now op

-- The filter of the updates that only the owner of a running operation may make.
unfoldable pub owned_by : String → String → CertificateOperation → Bool
owned_by op_id owner op = has_id op_id op && is_running op.status && op.lease_owner == owner

unfoldable pub renewable : String → String → ℕ → CertificateOperation → Bool
renewable op_id owner now op = owned_by op_id owner op && is_after now op.lease_expires_at

unfoldable pub renewed : ℕ → ℕ → CertificateOperation → CertificateOperation
renewed lease_expires now op = record op { lease_expires_at = some lease_expires; updated_at = now }

unfoldable pub record_beq : DnsChallengeRecord → DnsChallengeRecord → Bool
record_beq a b = a.domain == b.domain && a.token == b.token && a.key_auth == b.key_auth

-- `$addToSet`: the server makes the array where the field is missing, and refuses a field that is
-- there and is no array.
unfoldable pub add_to_set : DnsChallengeRecord → TxtRecords → Option TxtRecords
add_to_set r absent = some (records (r ∷ []))
add_to_set r null = none
add_to_set r (records rs) = some (records (if any (record_beq r) rs then rs else rs ++ r ∷ []))

unfoldable pub presented :
    DnsChallengeRecord → ℕ → CertificateOperation → Option CertificateOperation
presented r now op = elim (add_to_set r op.pending_txt_records) [
  | none ↦ none
  | some rs ↦ some (record op { pending_txt_records = rs; updated_at = now })
]

unfoldable pub rescheduled : ℕ → String → ℕ → ℕ → CertificateOperation → CertificateOperation
rescheduled next_attempt error_summary failures now op = record op {
  status = pending;
  error_summary = error_summary;
  next_attempt_at = some next_attempt;
  consecutive_failures = failures;
  lease_owner = "";
  lease_expires_at = none;
  updated_at = now;
}

unfoldable pub ended : String → ℕ → CertificateOperation → CertificateOperation
ended error_summary now op = record op {
  status = failed;
  error_summary = error_summary;
  finished_at = some now;
  lease_owner = "";
  lease_expires_at = none;
  updated_at = now;
}

unfoldable pub txt_cleared : ℕ → CertificateOperation → CertificateOperation
txt_cleared now op = record op { pending_txt_records = null; updated_at = now }

abbrev pub total_timeout_summary : String
total_timeout_summary = "operation total timeout exceeded"

-- `deadline_at` `$lte` now; a missing deadline does not match.
unfoldable pub expired : ℕ → CertificateOperation → Bool
expired now op = in_flight op.status && is_some op.deadline_at && is_due now op.deadline_at

module _ (db : Database) where
  open db use {operations}

  unfoldable pub try_claim : ClaimParams → Method CertificateOperation
  unfolding get_operation
  try_claim p = do
    target ← get_operation db p.op_id
    conflicts ←
        read_operations (operations.count_documents (conflicting target.managed_certificate_id p))
    require (not (ltb 0 conflicts)) operation_conflict
    on_operations (operations.find_one_and_update (claims p) (claimed p))

  -- `res.MatchedCount == 0` after an update of one operation.
  unfoldable pub update_matched :
      (CertificateOperation → Bool)
      → (CertificateOperation → CertificateOperation)
      → Method (Unit {0})
  update_matched p f = do
    matched ← on_operations (operations.update_one p f)
    require_matched matched operation_conflict

  unfoldable pub renew_lease : String → String → ℕ → ℕ → Method (Unit {0})
  unfolding update_matched
  renew_lease op_id owner lease_expires now =
      update_matched (renewable op_id owner now) (renewed lease_expires now)

  unfoldable pub record_pending_txt : String → String → DnsChallengeRecord → ℕ → Method (Unit {0})
  record_pending_txt op_id owner r now = do
    matched ← on_operations (operations.try_update_one (owned_by op_id owner) (presented r now))
    require_matched matched operation_conflict

  unfoldable pub schedule_retry : String → String → ℕ → String → ℕ → ℕ → Method (Unit {0})
  unfolding update_matched
  schedule_retry op_id owner next_attempt error_summary failures now =
      update_matched (owned_by op_id owner) (rescheduled next_attempt error_summary failures now)

  unfoldable pub mark_failed : String → String → String → ℕ → Method (Unit {0})
  unfolding update_matched
  mark_failed op_id owner error_summary now =
      update_matched (owned_by op_id owner) (ended error_summary now)

  unfoldable pub clear_pending_txt : String → ℕ → Method (Unit {0})
  clear_pending_txt op_id now = do
    _ ← on_operations (operations.update_one (has_id op_id) (txt_cleared now))
    return tt

  unfoldable pub fail_expired : ℕ → Method ℕ
  fail_expired now =
      on_operations (operations.update_many (expired now) (ended total_timeout_summary now))
