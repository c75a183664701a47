-- ===== src/Manager/Calls.antt =====
-- The calls of the manager in any order, as one history of the calls of the store.
use neo_line.Certificates.Versions.{clear_version_revoke_pending}
use neo_line.Manager.Histories.{
  run_operation-Follows, poll_claimable_operations-Follows, get_certificate-Follows,
}
use neo_line.Certificates.Commands.{run, new_operation, Command}
use neo_line.Manager.Runner.{run_operation, poll_claimable_operations}
use neo_line.Manager.Follows.{
  create_operation-Follows, clear_version_revoke_pending-Follows, Reached-trans, Reached-refl,
  Reached, if-Follows, >>=-Follows, >>-Follows, given-Follows, return-Follows, call_rules, Follows,
}
use neo_line.Certificates.Operations.{
  create_operation, has_running_operation, find_running_operation,
}
use neo_line.Manager.Submit.{
  renew_document, renew_if_due, renew_each, create_pending_revoke_operation,
  create_pending_renew_operation, or_unmark, create_pending_issue_operation, reconcile_auto_renew,
  submit_revoke_version, submit_renew_operation, check_types, submit_issue_operation,
  ensure_no_conflicting_issuance, join, create_pending,
}
use neo_line.Prelude.{
  is_some, ◌&&◌, subst, no_active_version, arith, ℕ, ◌≡◌, String, Option, none, some, List, [], ◌∷◌,
  Result, ok, err,
}
use neo_line.Certificates.Types.{
  IssueConfigSnapshot, CertificateOperation, CertificateVersion, ManagedCertificate, Database,
  OperationType, issue, renew, revoke,
}
use neo_line.Certificates.Store.{Store, Method}
use neo_line.Manager.Outside.{Outside}

-- The calls that submit an operation or make an attempt at one, with the clock at its readings and the id that is generated for an operation.
pub data ManagerCall : Type 0 where
  submits_issue submits_renew : ℕ → String → String → ManagerCall
  submits_revoke : ℕ → String → String → String → ℕ → ManagerCall
  renews_automatically : ℕ → (String → String) → ManagerCall
  polls : ℕ → ManagerCall
  runs_operation : Outside → String → String → ManagerCall

module _ (db : Database) where
  -- The state that a call leaves.
  unfoldable pub serve : ManagerCall → Store → Store
  serve (submits_issue now fresh cert_id) s = (submit_issue_operation db now fresh cert_id s).0
  serve (submits_renew now fresh cert_id) s = (submit_renew_operation db now fresh cert_id s).0
  serve (submits_revoke now fresh cert_id version_id reason) s =
      (submit_revoke_version db now fresh cert_id version_id reason s).0
  serve (renews_automatically now fresh) s = reconcile_auto_renew db now fresh s
  serve (polls now) s = (poll_claimable_operations db now s).0
  serve (runs_operation o replica op_id) s = (run_operation db o replica op_id s).0

  unfoldable pub serve_all : List ManagerCall → Store → Store
  unfolding serve
  serve_all [] s = s
  serve_all (c ∷ cs) s = serve_all cs (serve c s)

  join-Follows :
      (o : Option CertificateOperation) (m : Method CertificateOperation)
      → Follows db m
      → Follows db (join o m)
  unfolding join
  join-Follows none m h = h
  join-Follows (some found) m h = return-Follows db found

  check_types-Follows :
      (cert_id : String) (self : OperationType) (kinds : List OperationType)
      → Follows db (check_types db cert_id self kinds)
  unfolding check_types find_running_operation
  check_types-Follows cert_id self [] = search call_rules
  check_types-Follows cert_id self (kind ∷ kinds) =
      if-Follows db _ _ _ (check_types-Follows cert_id self kinds) (
        >>=-Follows db _ _ (search call_rules)
          λ found. >>-Follows db _ _ (search call_rules) (check_types-Follows cert_id self kinds))

  ensure_no_conflicting_issuance-Follows :
      (cert_id : String) (self : OperationType)
      → Follows db (ensure_no_conflicting_issuance db cert_id self)
  unfolding ensure_no_conflicting_issuance has_running_operation
  ensure_no_conflicting_issuance-Follows cert_id self = search (call_rules, check_types-Follows)

  create_pending-Follows :
      (now : ℕ) (fresh : String) (kind : OperationType) (cert_id : String)
      (op : Result CertificateOperation)
      → ((doc : CertificateOperation)
          → op ≡ ok doc
          → Follows db (create_operation db now fresh doc))
      → Follows db (create_pending db now fresh kind cert_id op)
  unfolding create_pending find_running_operation has_running_operation
  create_pending-Follows now fresh kind cert_id op h =
      >>=-Follows db _ _ (search call_rules) λ existing. join-Follows existing _ (
        >>=-Follows db _ _ (search call_rules)
          λ busy. >>-Follows db _ _ (search call_rules) (given-Follows db op _ h))

  -- A new document that is passed on as a result.
  new_document-Follows :
      (now : ℕ) (fresh : String) (kind : OperationType) (cert_id : String)
      (snap : IssueConfigSnapshot) (target : String) (reason : ℕ) (doc : CertificateOperation)
      → ok (new_operation kind cert_id snap target reason) ≡ ok doc
      → Follows db (create_operation db now fresh doc)
  new_document-Follows now fresh kind cert_id snap target reason doc e =
      let same : new_operation kind cert_id snap target reason ≡ doc = ground arith in
      subst (λ d. Follows db (create_operation db now fresh d)) same
        (create_operation-Follows db now fresh kind cert_id snap target reason)

  create_pending_issue_operation-Follows :
      (now : ℕ) (fresh : String) (cert : ManagedCertificate)
      → Follows db (create_pending_issue_operation db now fresh cert)
  unfolding create_pending_issue_operation
  create_pending_issue_operation-Follows now fresh cert =
      create_pending-Follows now fresh issue cert.id _
        (new_document-Follows now fresh issue cert.id _ "" 0)

  create_pending_revoke_operation-Follows :
      (now : ℕ) (fresh : String) (cert : ManagedCertificate) (version_id : String) (reason : ℕ)
      (target : CertificateVersion)
      → Follows db (create_pending_revoke_operation db now fresh cert version_id reason target)
  unfolding create_pending_revoke_operation
  create_pending_revoke_operation-Follows now fresh cert version_id reason target =
      create_pending-Follows now fresh revoke cert.id _
        (new_document-Follows now fresh revoke cert.id _ version_id reason)

  create_pending_renew_operation-Follows :
      (now : ℕ) (fresh : String) (cert : ManagedCertificate)
      → Follows db (create_pending_renew_operation db now fresh cert)
  unfolding create_pending_renew_operation renew_document
  create_pending_renew_operation-Follows now fresh cert =
      create_pending-Follows now fresh renew cert.id _ (by_version cert.active_version)
    where
      by_version :
          (active : Option CertificateVersion) (doc : CertificateOperation)
          → (elim active as (λ _. Result CertificateOperation) [
            | none ↦ err no_active_version
            | some v ↦ ok (new_operation renew cert.id v.config_snapshot "" 0)
          ])
            ≡ ok doc
          → Follows db (create_operation db now fresh doc)
      by_version none doc e = cc e
      by_version (some v) doc e =
          new_document-Follows now fresh renew cert.id v.config_snapshot "" 0 doc e

  ruleset submission_rules = (
    call_rules, join-Follows, ensure_no_conflicting_issuance-Follows, get_certificate-Follows,
    create_pending_issue_operation-Follows, create_pending_renew_operation-Follows,
    create_pending_revoke_operation-Follows,
  )

  submit_issue_operation-Follows :
      (now : ℕ) (fresh cert_id : String) → Follows db (submit_issue_operation db now fresh cert_id)
  unfolding submit_issue_operation find_running_operation
  submit_issue_operation-Follows now fresh cert_id = search submission_rules depth 12

  submit_renew_operation-Follows :
      (now : ℕ) (fresh cert_id : String) → Follows db (submit_renew_operation db now fresh cert_id)
  unfolding submit_renew_operation find_running_operation
  submit_renew_operation-Follows now fresh cert_id = search submission_rules depth 12

  or_unmark-Follows :
      (now : ℕ) (cert_id version_id : String) (m : Method CertificateOperation)
      → Follows db m
      → Follows db (or_unmark db now cert_id version_id m)
  unfolding or_unmark
  or_unmark-Follows now cert_id version_id m h = record {
    history = λ s. outcomes s (m s) (h.history s);
  }
    where
      outcomes :
          (s : Store) (r : Store × Result CertificateOperation)
          → Reached db s r.0
          → Reached db s
              (elim r.1 as (λ _. Store × Result CertificateOperation) [
                | ok op ↦ (r.0, ok op)
                | err e ↦ ((clear_version_revoke_pending db cert_id version_id now r.0).0, err e)
              ]).0
      outcomes s (t, ok op) k = k
      outcomes s (t, err e) k =
          Reached-trans db s t _ k
            ((clear_version_revoke_pending-Follows db cert_id version_id now).history t)

  submit_revoke_version-Follows :
      (now : ℕ) (fresh cert_id version_id : String) (reason : ℕ)
      → Follows db (submit_revoke_version db now fresh cert_id version_id reason)
  unfolding submit_revoke_version find_running_operation
  submit_revoke_version-Follows now fresh cert_id version_id reason =
      search (submission_rules, or_unmark-Follows) depth 16

  renew_if_due-Follows :
      (now : ℕ) (fresh : String) (cert : ManagedCertificate)
      → Follows db (renew_if_due db now fresh cert)
  unfolding renew_if_due find_running_operation
  renew_if_due-Follows now fresh cert = search submission_rules depth 12

  renew_each-Reached :
      (now : ℕ) (fresh : String → String) (certs : List ManagedCertificate) (s : Store)
      → Reached db s (renew_each db now fresh certs s)
  unfolding renew_each
  renew_each-Reached now fresh [] s = Reached-refl db s
  renew_each-Reached now fresh (cert ∷ certs) s =
      Reached-trans db s _ _ ((renew_if_due-Follows now (fresh cert.id) cert).history s)
        (renew_each-Reached now fresh certs _)

  reconcile_auto_renew-Reached :
      (now : ℕ) (fresh : String → String) (s : Store)
      → Reached db s (reconcile_auto_renew db now fresh s)
  unfolding reconcile_auto_renew
  reconcile_auto_renew-Reached now fresh s =
      found (
        db.certificates.find (λ c. c.auto_renew_enabled && is_some c.active_version) s.certificates)
    where
      found :
          (r : Result (List ManagedCertificate))
          → Reached db s
              (elim r as (λ _. Store) [ err e ↦ s | ok certs ↦ renew_each db now fresh certs s ])
      found (err e) = Reached-refl db s
      found (ok certs) = renew_each-Reached now fresh certs s

  serve-Reached : (c : ManagerCall) (s : Store) → Reached db s (serve c s)
  unfolding serve
  serve-Reached (submits_issue now fresh cert_id) s =
      (submit_issue_operation-Follows now fresh cert_id).history s
  serve-Reached (submits_renew now fresh cert_id) s =
      (submit_renew_operation-Follows now fresh cert_id).history s
  serve-Reached (submits_revoke now fresh cert_id version_id reason) s =
      (submit_revoke_version-Follows now fresh cert_id version_id reason).history s
  serve-Reached (renews_automatically now fresh) s = reconcile_auto_renew-Reached now fresh s
  serve-Reached (polls now) s = (poll_claimable_operations-Follows db now).history s
  serve-Reached (runs_operation o replica op_id) s =
      (run_operation-Follows db o replica op_id).history s

  -- After any of these calls, in any order, with any answers of the ACME server, the DNS provider and the
  -- database, the state is one that a sequence of the store's calls leaves, so that each theorem about
  -- histories is one about them.
  pub serve_all-history :
      (calls : List ManagerCall) (s : Store)
      → (cs : List Command) × (serve_all calls s ≡ run db cs s)
  unfolding serve_all
  serve_all-history [] s = Reached-refl db s
  serve_all-history (c ∷ calls) s =
      Reached-trans db s (serve c s) _ (serve-Reached c s) (serve_all-history calls (serve c s))
