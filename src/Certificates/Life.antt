-- ===== src/Certificates/Life.antt =====
-- Each method on the operations, and each change of versions, moves every operation along its life.
use neo_line.Prelude.{err, ok, Error, Result, List, ℕ, ◌≡◌, Bool, true, String}
use neo_line.Certificates.Types.{
  CertificateOperation, CertificateVersion, ManagedCertificate, DnsChallengeRecord, Database,
}
use neo_line.Certificates.Operations.{has_id}
use neo_line.Certificates.Lease.{
  ClaimParams, claims, claimed, owned_by, total_timeout_summary, presented, txt_cleared, try_claim,
  update_matched, renew_lease, record_pending_txt, schedule_retry, mark_failed, clear_pending_txt,
  fail_expired,
}
use neo_line.Certificates.Versions.{
  ManagedCertificateUpdate, update_certificate, create_certificate, completed, revocation_completed,
  update_certificate_matched, require_owned, get_certificate, activate_first_version,
  activate_subsequent_version, activate_previous_version, mark_version_revoke_pending,
  clear_version_revoke_pending, complete_revoke_version,
}
use neo_line.Certificates.Advances.{
  Advances, claimed-Advances, renewed-Advances, rescheduled-Advances, ended-Advances,
  completed-Advances, revocation_completed-Advances, expired-Advances, txt_cleared-Advances,
  presented-Advances,
}
use neo_line.Certificates.Store.{Store, execute}
use neo_line.Certificates.Preserve.{
  OperationsAdvance, OperationsAdvance-refl, Moves, moves, on_operations-Moves, update_one-Advances,
  find_one_and_update-Advances, update_many-Advances, try_update_one-Advances,
}

module _ (db : Database) where
  open db use {operations}

  pub try_claim-Moves : (p : ClaimParams) → Moves (try_claim db p)
  unfolding try_claim
  try_claim-Moves p =
      search
        (moves, find_one_and_update-Advances operations (claims p) (claimed p) (claimed-Advances p))

  update_matched-Moves :
      (p : CertificateOperation → Bool) (f : CertificateOperation → CertificateOperation)
      → ((x : CertificateOperation) → p x ≡ true → Advances x (f x))
      → Moves (update_matched db p f)
  unfolding update_matched
  update_matched-Moves p f k = search (moves, update_one-Advances operations p f k)

  pub renew_lease-Moves :
      (op_id owner : String) (t now : ℕ) → Moves (renew_lease db op_id owner t now)
  unfolding renew_lease
  renew_lease-Moves op_id owner t now =
      update_matched-Moves _ _ (renewed-Advances op_id owner now t now)

  pub schedule_retry-Moves :
      (op_id owner : String) (t : ℕ) (e : String) (n now : ℕ)
      → Moves (schedule_retry db op_id owner t e n now)
  unfolding schedule_retry
  schedule_retry-Moves op_id owner t e n now =
      update_matched-Moves _ _ (λ x h. rescheduled-Advances op_id owner x h t n now e)

  pub mark_failed-Moves :
      (op_id owner e : String) (now : ℕ) → Moves (mark_failed db op_id owner e now)
  unfolding mark_failed
  mark_failed-Moves op_id owner e now =
      update_matched-Moves _ _ (λ x h. ended-Advances op_id owner x h e now)

  pub record_pending_txt-Moves :
      (op_id owner : String) (r : DnsChallengeRecord) (now : ℕ)
      → Moves (record_pending_txt db op_id owner r now)
  unfolding record_pending_txt
  record_pending_txt-Moves op_id owner r now = search (
    moves,
    try_update_one-Advances operations (owned_by op_id owner) (presented r now)
        (λ x h. presented-Advances r now x),
  )

  pub clear_pending_txt-Moves : (op_id : String) (now : ℕ) → Moves (clear_pending_txt db op_id now)
  unfolding clear_pending_txt
  clear_pending_txt-Moves op_id now = search (
    moves,
    update_one-Advances operations (has_id op_id) (txt_cleared now)
        (λ x h. txt_cleared-Advances now x),
  )

  pub fail_expired-Moves : (now : ℕ) → Moves (fail_expired db now)
  unfolding fail_expired
  fail_expired-Moves now =
      on_operations-Moves _
        (update_many-Advances operations _ _ (expired-Advances now now total_timeout_summary))

  pub require_owned-Moves : (op_id owner : String) → Moves (require_owned db op_id owner)
  unfolding require_owned
  require_owned-Moves op_id owner = search moves

  pub get_certificate-Moves : (id : String) → Moves (get_certificate db id)
  unfolding get_certificate
  get_certificate-Moves id = search moves

  pub update_certificate_matched-Moves :
      (p : ManagedCertificate → Bool) (f : ManagedCertificate → ManagedCertificate)
      → Moves (update_certificate_matched db p f)
  unfolding update_certificate_matched
  update_certificate_matched-Moves p f = search moves

  completed-Moves :
      (op_id owner w : String) (now : ℕ)
      → Moves (update_matched db (owned_by op_id owner) (completed w now))
  completed-Moves op_id owner w now =
      update_matched-Moves _ _ (λ x h. completed-Advances op_id owner x h w now)

  revocation_completed-Moves :
      (op_id owner : String) (now : ℕ)
      → Moves (update_matched db (owned_by op_id owner) (revocation_completed now))
  revocation_completed-Moves op_id owner now =
      update_matched-Moves _ _ (λ x h. revocation_completed-Advances op_id owner x h now)

  ruleset version_moves = (
    moves, require_owned-Moves, get_certificate-Moves, update_certificate_matched-Moves,
    completed-Moves, revocation_completed-Moves,
  )

  pub activate_first_version-Moves :
      (cert_id : String) (v : CertificateVersion) (op_id owner w : String) (now : ℕ)
      → Moves (activate_first_version db cert_id v op_id owner w now)
  unfolding activate_first_version
  activate_first_version-Moves cert_id v op_id owner w now = search version_moves

  pub activate_subsequent_version-Moves :
      (cert_id : String) (v : CertificateVersion) (expected op_id owner w : String) (now : ℕ)
      → Moves (activate_subsequent_version db cert_id v expected op_id owner w now)
  unfolding activate_subsequent_version
  activate_subsequent_version-Moves cert_id v expected op_id owner w now =
      search version_moves depth 9

  pub activate_previous_version-Moves :
      (cert_id version_id : String) (now : ℕ)
      → Moves (activate_previous_version db cert_id version_id now)
  unfolding activate_previous_version
  activate_previous_version-Moves cert_id version_id now = search version_moves

  pub mark_version_revoke_pending-Moves :
      (cert_id version_id : String) (now : ℕ)
      → Moves (mark_version_revoke_pending db cert_id version_id now)
  unfolding mark_version_revoke_pending
  mark_version_revoke_pending-Moves cert_id version_id now = search version_moves

  pub clear_version_revoke_pending-Moves :
      (cert_id version_id : String) (now : ℕ)
      → Moves (clear_version_revoke_pending db cert_id version_id now)
  unfolding clear_version_revoke_pending
  clear_version_revoke_pending-Moves cert_id version_id now = search version_moves

  pub complete_revoke_version-Moves :
      (cert_id version_id op_id owner : String) (revoked_at now : ℕ)
      → Moves (complete_revoke_version db cert_id version_id op_id owner revoked_at now)
  unfolding complete_revoke_version
  complete_revoke_version-Moves cert_id version_id op_id owner revoked_at now =
      search version_moves depth 9

  -- A write of a certificate whose error is translated.
  translated :
      {A B : Type 0} (f : A → B) (g : Error → Error) (s : Store)
      (r : List ManagedCertificate × Result A)
      → OperationsAdvance s
          (elim r.1 as (λ _. Store × Result B) [
            | ok a ↦ (record s { certificates = r.0 }, ok (f a))
            | err e ↦ (record s { certificates = r.0 }, err (g e))
          ]).0
  translated f g s (cs, ok a) = OperationsAdvance-refl s
  translated f g s (cs, err e) = OperationsAdvance-refl s

  pub create_certificate-Moves :
      (now : ℕ) (fresh : String) (cert : ManagedCertificate)
      → Moves (create_certificate db now fresh cert)
  unfolding create_certificate execute
  create_certificate-Moves now fresh cert = record { apply = λ s. translated _ _ s _ }

  pub update_certificate-Moves :
      (id : String) (u : ManagedCertificateUpdate) (now : ℕ)
      → Moves (update_certificate db id u now)
  unfolding update_certificate execute
  update_certificate-Moves id u now = record { apply = λ s. translated _ _ s _ }
