-- ===== src/Certificates/Commands.antt =====
-- The calls by which the replicas create, change and remove operations, and with them the certificates,
-- in any order and with any failure of the database. The other writes of a certificate, of the markers of
-- its notices and of what refers to it, leave every operation as it is and are no commands.
use neo_line.Prelude.{◌==◌, ℕ, ◌≡◌, Bool, true, false, String, List, [], ◌∷◌, none}
use neo_line.Certificates.Types.{
  ManagedCertificate, CertificateOperation, CertificateVersion, IssueConfigSnapshot,
  DnsChallengeRecord, OperationType, pending, absent, Database,
}
use neo_line.Certificates.Store.{Store}
use neo_line.Certificates.Operations.{create_operation}
use neo_line.Certificates.Lease.{
  ClaimParams, try_claim, renew_lease, record_pending_txt, schedule_retry, mark_failed,
  clear_pending_txt, fail_expired,
}
use neo_line.Certificates.Versions.{
  ManagedCertificateUpdate, update_certificate, create_certificate, activate_first_version,
  activate_subsequent_version, activate_previous_version, mark_version_revoke_pending,
  clear_version_revoke_pending, complete_revoke_version, delete_certificate,
}
use neo_line.Certificates.Preserve.{OperationsAdvance}
use neo_line.Certificates.Life.{
  update_certificate-Moves, create_certificate-Moves, try_claim-Moves, renew_lease-Moves,
  record_pending_txt-Moves, schedule_retry-Moves, mark_failed-Moves, clear_pending_txt-Moves,
  fail_expired-Moves, activate_first_version-Moves, activate_subsequent_version-Moves,
  activate_previous_version-Moves, mark_version_revoke_pending-Moves,
  clear_version_revoke_pending-Moves, complete_revoke_version-Moves,
}

-- The operation that the manager asks the store to create: pending, with nothing attempted yet.
unfoldable pub new_operation :
    OperationType → String → IssueConfigSnapshot → String → ℕ → CertificateOperation
new_operation kind cert_id snapshot target_version reason = record {
  id = "";
  managed_certificate_id = cert_id;
  kind = kind;
  status = pending;
  attempt_count = 0;
  consecutive_failures = 0;
  config_snapshot = snapshot;
  error_summary = "";
  warning = "";
  lease_owner = "";
  lease_expires_at = none;
  pending_txt_records = absent;
  target_version_id = target_version;
  revoke_reason = reason;
  started_at = none;
  finished_at = none;
  next_attempt_at = none;
  deadline_at = none;
  created_at = 0;
  updated_at = 0;
}

-- One call, with its arguments; the last number is the time of the call.
pub data Command : Type 0 where
  creates : OperationType → String → IssueConfigSnapshot → String → ℕ → String → ℕ → Command
  claim : ClaimParams → Command
  renews_lease : String → String → ℕ → ℕ → Command
  records_txt : String → String → DnsChallengeRecord → ℕ → Command
  schedules : String → String → ℕ → String → ℕ → ℕ → Command
  fails : String → String → String → ℕ → Command
  clears_txt : String → ℕ → Command
  expires : ℕ → Command
  activates_first : String → CertificateVersion → String → String → String → ℕ → Command
  activates_next : String → CertificateVersion → String → String → String → String → ℕ → Command
  activates_previous : String → String → ℕ → Command
  marks_revoke : String → String → ℕ → Command
  unmarks_revoke : String → String → ℕ → Command
  completes_revoke : String → String → String → String → ℕ → ℕ → Command
  creates_certificate : ManagedCertificate → String → ℕ → Command
  edits_certificate : String → ManagedCertificateUpdate → ℕ → Command
  deletes_certificate : String → Command

-- Whether the call deletes the certificate.
abbrev pub is_deletion_of : String → Command → Bool
is_deletion_of id (deletes_certificate cert_id) = cert_id == id
is_deletion_of id _ = false

module _ (db : Database) where
  open db use {operations, operations_indexed}

  -- The state that a call leaves, whatever it returns.
  unfoldable pub step : Command → Store → Store
  step (creates kind cert snapshot target reason fresh now) s =
      (create_operation db now fresh (new_operation kind cert snapshot target reason) s).0
  step (claim p) s = (try_claim db p s).0
  step (renews_lease op owner t now) s = (renew_lease db op owner t now s).0
  step (records_txt op owner r now) s = (record_pending_txt db op owner r now s).0
  step (schedules op owner t e n now) s = (schedule_retry db op owner t e n now s).0
  step (fails op owner e now) s = (mark_failed db op owner e now s).0
  step (clears_txt op now) s = (clear_pending_txt db op now s).0
  step (expires now) s = (fail_expired db now s).0
  step (activates_first c v op owner w now) s = (activate_first_version db c v op owner w now s).0
  step (activates_next c v e op owner w now) s =
      (activate_subsequent_version db c v e op owner w now s).0
  step (activates_previous c v now) s = (activate_previous_version db c v now s).0
  step (marks_revoke c v now) s = (mark_version_revoke_pending db c v now s).0
  step (unmarks_revoke c v now) s = (clear_version_revoke_pending db c v now s).0
  step (completes_revoke c v op owner t now) s = (complete_revoke_version db c v op owner t now s).0
  step (creates_certificate cert fresh now) s = (create_certificate db now fresh cert s).0
  step (edits_certificate id u now) s = (update_certificate db id u now s).0
  step (deletes_certificate id) s = (delete_certificate db id s).0

  unfoldable pub run : List Command → Store → Store
  run [] s = s
  run (c ∷ cs) s = run cs (step c s)

  -- Nothing but the creation of an operation adds one, and nothing but the deletion of a certificate
  -- removes one.
  abbrev pub adds_or_removes : Command → Bool
  adds_or_removes (creates _ _ _ _ _ _ _) = true
  adds_or_removes (deletes_certificate _) = true
  adds_or_removes _ = false

  pub step-advances :
      (c : Command) (s : Store) → adds_or_removes c ≡ false → OperationsAdvance s (step c s)
  unfolding step
  step-advances (creates _ _ _ _ _ _ _) s h = cc
  step-advances (deletes_certificate _) s h = cc
  step-advances (claim p) s h = (try_claim-Moves db p).apply s
  step-advances (renews_lease op owner t now) s h = (renew_lease-Moves db op owner t now).apply s
  step-advances (records_txt op owner r now) s h =
      (record_pending_txt-Moves db op owner r now).apply s
  step-advances (schedules op owner t e n now) s h =
      (schedule_retry-Moves db op owner t e n now).apply s
  step-advances (fails op owner e now) s h = (mark_failed-Moves db op owner e now).apply s
  step-advances (clears_txt op now) s h = (clear_pending_txt-Moves db op now).apply s
  step-advances (expires now) s h = (fail_expired-Moves db now).apply s
  step-advances (activates_first c v op owner w now) s h =
      (activate_first_version-Moves db c v op owner w now).apply s
  step-advances (activates_next c v e op owner w now) s h =
      (activate_subsequent_version-Moves db c v e op owner w now).apply s
  step-advances (activates_previous c v now) s h =
      (activate_previous_version-Moves db c v now).apply s
  step-advances (marks_revoke c v now) s h = (mark_version_revoke_pending-Moves db c v now).apply s
  step-advances (unmarks_revoke c v now) s h =
      (clear_version_revoke_pending-Moves db c v now).apply s
  step-advances (completes_revoke c v op owner t now) s h =
      (complete_revoke_version-Moves db c v op owner t now).apply s
  step-advances (creates_certificate cert fresh now) s h =
      (create_certificate-Moves db now fresh cert).apply s
  step-advances (edits_certificate id u now) s h = (update_certificate-Moves db id u now).apply s
