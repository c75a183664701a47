-- ===== src/Manager/Released.antt =====
-- A run of an operation ends with the operation released: whatever the attempt meets, the replica that
-- claimed it does not keep it running.
use neo_line.Manager.Freed.{
  clear_pending_txt-Leaves, mark_failed-Releases, carry_out-Releases,
  activate_subsequent_version-Frees, complete_revoke_version-Frees, activate_first_version-Frees,
}
use neo_line.Manager.Freeing.{
  then-Releases, attempt-then-Leaves, attempt-then-Releases, >>=-Releases, >>-Frees, >>=-Frees,
  >>-after, return-Leaves, if-Releases, Follows-Unique, Frees, Unique, IsReleased, Releases,
}
use neo_line.Manager.Histories.{
  cleanup_pending_txt-Follows, get_certificate-Follows, obtain-Follows, execute_by_type-Follows,
}
use neo_line.Manager.Execute.{
  revoke_at_issuer, execute_certificate_revocation, execute_operation, revoke_target,
  execute_certificate_issuance, execute_by_type, activate_issued,
}
use neo_line.Manager.Outside.{DnsProvider, Outside}
use neo_line.Prelude.{
  ℕ, ◌≡◌, ◌≢◌, refl, sym, ap, subst, ◌∙◌, Bool, String, Option, none, some, List, [], Result, ok,
  err,
}
use neo_line.Mongo.Documents.{update_first}
use neo_line.Certificates.Types.{
  DnsChallengeRecord, revoke, issue, renew, ManagedCertificate, OperationType, CertificateVersion,
  CertificateOperation, Database,
}
use neo_line.Certificates.Store.{Store, Method, execute}
use neo_line.Certificates.Operations.{has_id}
use neo_line.Certificates.Lease.{try_claim, ClaimParams, claimed}
use neo_line.Certificates.Claims.{try_claim-IsClaim, IsUnique}
use neo_line.Manager.Follows.{try_claim-Follows, require-Follows, from-Follows, Follows}
use neo_line.Manager.Retry.{fail_operation_deadline_exceeded, handle_operation_failure, attempt}
use neo_line.Manager.Runner.{
  timed_out, pending_records, claim_params, not_claimed, run_claimed, cleanup_pending_txt,
  failed_with, after_claim, clean_with, run_operation, succeeded_with, conclude, make_attempt,
  recover,
}

module _ (db : Database) (o : Outside) (owner : String) (op : CertificateOperation)
    (applied : (p : CertificateOperation → Bool) (f : CertificateOperation → CertificateOperation)
        (xs : List CertificateOperation)
      → (db.operations.update_one p f xs).0 ≡ update_first p f xs) where
  follows : {A : Type 0} (m : Method A) → Follows db m → Unique op.id owner m
  follows m h = Follows-Unique db op.id owner m h

  activate_issued-Frees :
      (warning : String) (v : CertificateVersion) (old : Option CertificateVersion)
      → Frees op.id owner (activate_issued db o op owner warning v old)
  unfolding activate_issued
  activate_issued-Frees warning v none =
      activate_first_version-Frees db op.id owner applied _ v warning _
  activate_issued-Frees warning v (some old) =
      activate_subsequent_version-Frees db op.id owner applied _ v old.id warning _

  execute_certificate_issuance-Frees :
      Frees op.id owner (execute_certificate_issuance db o op owner)
  unfolding execute_certificate_issuance
  execute_certificate_issuance-Frees =
      >>=-Frees op.id owner _ _ (follows _ (from-Follows db _)) λ issuer.
        >>-Frees op.id owner _ _ (follows _ (require-Follows db _ _)) (
          >>-Frees op.id owner _ _ (follows _ (require-Follows db _ _)) (
            >>=-Frees op.id owner _ _ (follows _ (from-Follows db _)) λ account.
              >>=-Frees op.id owner _ _ (follows _ (from-Follows db _)) λ provider.
                >>=-Frees op.id owner _ _ (follows _ (obtain-Follows db o op owner issuer provider))
                  λ issued. >>=-Frees op.id owner _ _ (follows _ (from-Follows db _)) λ parsed.
                    >>=-Frees op.id owner _ _ (follows _ (get_certificate-Follows db _)) λ cert.
                      >>-after op.id owner _ _
                        (activate_issued-Frees issued.0 _ cert.active_version)
                        (attempt-then-Leaves op.id owner _ issued.0
                          (clear_pending_txt-Leaves db op.id owner applied o.cleared_at))))

  revoke_target-Frees :
      (cert : ManagedCertificate) (target : CertificateVersion) (at : Option ℕ)
      → Frees op.id owner (revoke_target db o op owner cert target at)
  unfolding revoke_target revoke_at_issuer
  revoke_target-Frees cert target (some at) =
      complete_revoke_version-Frees db op.id owner applied _ _ at _
  revoke_target-Frees cert target none =
      >>=-Frees op.id owner _ _ (follows _ (from-Follows db _)) λ issuer.
        >>-Frees op.id owner _ _ (follows _ (require-Follows db _ _)) (
          >>-Frees op.id owner _ _ (follows _ (require-Follows db _ _)) (
            >>=-Frees op.id owner _ _ (follows _ (from-Follows db _)) λ leaf.
              >>-Frees op.id owner _ _ (follows _ (from-Follows db _))
                (complete_revoke_version-Frees db op.id owner applied _ _ o.revoked_at _)))

  execute_by_type-Frees :
      (kind : OperationType) → Frees op.id owner (execute_by_type db o kind op owner)
  unfolding execute_by_type execute_certificate_revocation
  execute_by_type-Frees revoke =
      >>-after op.id owner _ _
        (>>=-Frees op.id owner _ _ (follows _ (get_certificate-Follows db _)) λ cert.
          >>=-Frees op.id owner _ _ (follows _ (from-Follows db _))
            λ target. revoke_target-Frees cert target target.revoked_at)
        (return-Leaves op.id owner "")
  execute_by_type-Frees issue = execute_certificate_issuance-Frees
  execute_by_type-Frees renew = execute_certificate_issuance-Frees

  conclude-after :
      (s : Store) (r : Store × Result String)
      → IsUnique op.id r.0
      → ((a : String) → r ≡ (r.0, ok a) → IsReleased op.id owner r.0)
      → IsReleased op.id owner (conclude db o owner op r.1 r.0).0
  unfolding conclude handle_operation_failure
  conclude-after s (t, ok a) u h = (return-Leaves op.id owner (succeeded_with a)).at t (h a refl)
  conclude-after s (t, err e) u h =
      (>>=-Releases op.id owner _ _ (carry_out-Releases db op.id owner applied _ _)
          (λ summary. return-Leaves op.id owner (failed_with summary))).at
        t u

  make_attempt-Releases : Releases op.id owner (make_attempt db o owner op)
  unfolding make_attempt recover execute_operation
  make_attempt-Releases = record {
    at = λ s u.
        let r = execute_by_type db o op.kind op owner s in
        conclude-after s r ((follows _ (execute_by_type-Follows db o op.kind op owner)).at s u)
          (λ a e. (execute_by_type-Frees op.kind).at s r.0 a u e);
  }

  clean_with-returns :
      (r : Result DnsProvider) (s : Store)
      → (rs : List DnsChallengeRecord) × ((clean_with db o op r s).1 ≡ ok rs)
  unfolding clean_with execute attempt
  clean_with-returns (err e) s = ([], refl)
  clean_with-returns (ok provider) s = (pending_records op, refl)

  cleanup_pending_txt-returns :
      (s : Store) → (rs : List DnsChallengeRecord) × ((cleanup_pending_txt db o op s).1 ≡ ok rs)
  unfolding cleanup_pending_txt recover
  cleanup_pending_txt-returns s = clean_with-returns _ _

  run_claimed-Releases : Releases op.id owner (run_claimed db o owner op)
  unfolding run_claimed fail_operation_deadline_exceeded
  run_claimed-Releases =
      if-Releases op.id owner _ _ _
        (>>=-Releases op.id owner _ _
          (attempt-then-Releases op.id owner _ _ (mark_failed-Releases db op.id owner applied _ _))
          (λ _. return-Leaves op.id owner timed_out))
        (if-Releases op.id owner _ _ _
          (then-Releases op.id owner _ _ (follows _ (cleanup_pending_txt-Follows db o op))
            cleanup_pending_txt-returns (λ _. make_attempt-Releases))
          make_attempt-Releases)

-- The operation that a claim returns is the one that was asked for.
claimed-same_id :
    (db : Database) (p : ClaimParams) (s t : Store) (op : CertificateOperation)
    → try_claim db p s ≡ (t, ok op)
    → op.id ≡ p.op_id
unfolding claimed has_id
claimed-same_id db p s t op h =
    let c = try_claim-IsClaim db p s t op h in
    ap (λ (x : CertificateOperation). x.id) c.returned ∙ c.named

module _ (db : Database) (o : Outside) (replica op_id : String)
    (applied : (p : CertificateOperation → Bool) (f : CertificateOperation → CertificateOperation)
        (xs : List CertificateOperation)
      → (db.operations.update_one p f xs).0 ≡ update_first p f xs) where
  after_claim-IsReleased :
      (r : Store × Result CertificateOperation)
      → IsUnique op_id r.0
      → ((op : CertificateOperation) → r ≡ (r.0, ok op) → op.id ≡ op_id)
      → (after_claim db o replica r.1 r.0).1 ≢ ok not_claimed
      → IsReleased op_id replica (after_claim db o replica r.1 r.0).0
  unfolding after_claim execute
  after_claim-IsReleased (t, ok op) u same was =
      let e = same op refl in
      subst (λ id. IsReleased id replica (run_claimed db o replica op t).0) e
        ((run_claimed-Releases db o replica op applied).at t
          (subst (λ id. IsUnique id t) (sym e) u))
  after_claim-IsReleased (t, err x) u same was = elim (was refl) [ ]

  -- Where the updates of one operation take effect, with or without a reply, and the ids are unique, a run
  -- of an operation that was claimed ends with the operation no longer running under the lease of the
  -- replica: whether the attempt succeeds, fails at any of its steps or finds the deadline passed.
  pub run_operation-IsReleased :
      (s : Store)
      → IsUnique op_id s
      → (run_operation db o replica op_id s).1 ≢ ok not_claimed
      → IsReleased op_id replica (run_operation db o replica op_id s).0
  unfolding run_operation recover
  run_operation-IsReleased s u was =
      let p = claim_params db o replica op_id in
      let r = try_claim db p s in
      after_claim-IsReleased r ((Follows-Unique db op_id replica _ (try_claim-Follows db p)).at s u)
        (λ op e. claimed-same_id db p s r.0 op e) was
