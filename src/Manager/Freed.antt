-- ===== src/Manager/Freed.antt =====
-- The writes of the store that end a run of an operation, where the updates of one operation take effect.
use neo_line.Manager.Freeing.{
  revocation_completed-unowned, completed-unowned, >>=-Frees, Moves-Unique, >>-Frees, ended-unowned,
  update_first-unowned, attempt-then-Releases, txt_cleared-unowned, IsReleased, rescheduled-unowned,
  Releases, Leaves, Frees,
}
use neo_line.Certificates.Life.{
  get_certificate-Moves, update_certificate_matched-Moves, require_owned-Moves,
}
use neo_line.Prelude.{
  operation_conflict, ℕ, ◌≡◌, refl, ap, subst, ◌∙◌, Bool, false, String, List, any, Result, ok, err,
}
use neo_line.Mongo.Documents.{update_first}
use neo_line.Certificates.Types.{CertificateVersion, CertificateOperation, Database}
use neo_line.Certificates.Store.{
  Store, Method, return, require_matched, on_operations, execute, ◌>>=◌,
}
use neo_line.Certificates.Operations.{has_id}
use neo_line.Certificates.Lease.{
  owned_by, update_matched, mark_failed, schedule_retry, clear_pending_txt, txt_cleared, ended,
  rescheduled,
}
use neo_line.Certificates.Versions.{
  activate_subsequent_version, complete_revoke_version, activate_first_version, completed,
  revocation_completed,
}
use neo_line.Certificates.Preserve.{from-Moves}
use neo_line.Manager.Retry.{retries, ends, Verdict, carry_out}

module _ (db : Database) (id owner : String)
    (applied : (p : CertificateOperation → Bool) (f : CertificateOperation → CertificateOperation)
        (xs : List CertificateOperation)
      → (db.operations.update_one p f xs).0 ≡ update_first p f xs) where
  -- The state after an update of one operation.
  update_matched-operations :
      (p : CertificateOperation → Bool) (f : CertificateOperation → CertificateOperation)
      (s : Store)
      → (update_matched db p f s).0.operations ≡ update_first p f s.operations
  unfolding update_matched execute
  update_matched-operations p f s =
      by_result (db.operations.update_one p f s.operations) (applied p f s.operations)
    where
      matched_or_err : (t : Store) (n : ℕ) → (require_matched n operation_conflict t).0 ≡ t
      matched_or_err t ℕ.zero = refl
      matched_or_err t (ℕ.suc n) = refl

      by_result :
          (r : List CertificateOperation × Result ℕ)
          → r.0 ≡ update_first p f s.operations
          → (◌>>=◌
              (on_operations (λ _. r))
              (λ n. require_matched n operation_conflict)
              s).0.operations
            ≡ update_first p f s.operations
      by_result (xs, ok n) e =
          ap (λ (t : Store). t.operations) (matched_or_err (record s { operations = xs }) n) ∙ e
      by_result (xs, err x) e = e

  pub update_matched-Releases :
      (f : CertificateOperation → CertificateOperation)
      → ((x : CertificateOperation) → owned_by id owner (f x) ≡ false)
      → Releases id owner (update_matched db (owned_by id owner) f)
  update_matched-Releases f k = record {
    at = λ s u.
        ap (any (owned_by id owner)) (update_matched-operations (owned_by id owner) f s)
        ∙ update_first-unowned id owner f s.operations k u;
  }

  pub Releases-Frees : {A : Type 0} (m : Method A) → Releases id owner m → Frees id owner m
  Releases-Frees m h = record {
    at = λ s t a u e. subst (λ w. IsReleased id owner w.0) e (h.at s u);
  }

  pub mark_failed-Releases :
      (e : String) (now : ℕ) → Releases id owner (mark_failed db id owner e now)
  unfolding mark_failed
  mark_failed-Releases e now = update_matched-Releases (ended e now) (ended-unowned id owner e now)

  pub schedule_retry-Releases :
      (t : ℕ) (e : String) (n now : ℕ) → Releases id owner (schedule_retry db id owner t e n now)
  unfolding schedule_retry
  schedule_retry-Releases t e n now =
      update_matched-Releases (rescheduled t e n now) (rescheduled-unowned id owner e t n now)

  pub clear_pending_txt-Leaves : (now : ℕ) → Leaves id owner (clear_pending_txt db id now)
  unfolding clear_pending_txt execute
  clear_pending_txt-Leaves now = record {
    at = λ s r. by_result s (db.operations.update_one (has_id id) (txt_cleared now) s.operations) (
        ap (any (owned_by id owner)) (applied (has_id id) (txt_cleared now) s.operations)
        ∙ txt_cleared-unowned id owner now s.operations r);
  }
    where
      by_result :
          (s : Store) (r : List CertificateOperation × Result ℕ)
          → any (owned_by id owner) r.0 ≡ false
          → any
              (owned_by id owner)
              (◌>>=◌ (on_operations (λ _. r)) (λ _. return (tt {0})) s).0.operations
            ≡ false
      by_result s (xs, ok n) e = e
      by_result s (xs, err x) e = e

  pub carry_out-Releases : (now : ℕ) (v : Verdict) → Releases id owner (carry_out db id owner now v)
  unfolding carry_out
  carry_out-Releases now (ends summary) =
      attempt-then-Releases id owner _ summary (mark_failed-Releases summary now)
  carry_out-Releases now (retries t summary n) =
      attempt-then-Releases id owner _ summary (schedule_retry-Releases t summary n now)

  pub activate_first_version-Frees :
      (c : String) (v : CertificateVersion) (w : String) (now : ℕ)
      → Frees id owner (activate_first_version db c v id owner w now)
  unfolding activate_first_version
  activate_first_version-Frees c v w now =
      >>-Frees id owner _ _ (Moves-Unique id owner _ (require_owned-Moves db id owner)) (
        >>-Frees id owner _ _ (Moves-Unique id owner _ (update_certificate_matched-Moves db _ _)) (
          Releases-Frees _
            (update_matched-Releases (completed w now) (completed-unowned id owner w now))))

  pub activate_subsequent_version-Frees :
      (c : String) (v : CertificateVersion) (e w : String) (now : ℕ)
      → Frees id owner (activate_subsequent_version db c v e id owner w now)
  unfolding activate_subsequent_version
  activate_subsequent_version-Frees c v e w now =
      >>-Frees id owner _ _ (Moves-Unique id owner _ (require_owned-Moves db id owner)) (
        >>=-Frees id owner _ _ (Moves-Unique id owner _ (get_certificate-Moves db c)) λ cert.
          >>=-Frees id owner _ _ (Moves-Unique id owner _ (from-Moves _)) λ old.
            >>-Frees id owner _ _
              (Moves-Unique id owner _ (update_certificate_matched-Moves db _ _))
              (Releases-Frees _
                (update_matched-Releases (completed w now) (completed-unowned id owner w now))))

  pub complete_revoke_version-Frees :
      (c v : String) (t now : ℕ) → Frees id owner (complete_revoke_version db c v id owner t now)
  unfolding complete_revoke_version
  complete_revoke_version-Frees c v t now =
      >>-Frees id owner _ _ (Moves-Unique id owner _ (require_owned-Moves db id owner)) (
        >>=-Frees id owner _ _ (Moves-Unique id owner _ (get_certificate-Moves db c)) λ cert.
          >>=-Frees id owner _ _ (Moves-Unique id owner _ (from-Moves _)) λ slot.
            >>-Frees id owner _ _
              (Moves-Unique id owner _ (update_certificate_matched-Moves db _ _))
              (Releases-Frees _ (
                update_matched-Releases (revocation_completed now)
                  (revocation_completed-unowned id owner now))))
