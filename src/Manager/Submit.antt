-- ===== src/Manager/Submit.antt =====
-- internal/certmanager: submitting an operation (managed_certificate.go, renew.go, revoke.go), and the
-- automatic renewal. The background task that `triggerOperation` launches for the operation that is
-- returned is a sequence of the calls of Certificates/Commands, and is no part of these methods.
use neo_line.Prelude.{
  ℕ, Bool, true, false, not, ◌&&◌, ◌||◌, String, Option, none, some, List, [], ◌∷◌, ltb, is_some,
  if◌then◌else◌, Result, ok, err, no_documents, issuance_in_flight, no_active_version,
  invalid_revocation_reason, version_not_found, version_revoked, version_revoke_pending,
}
use neo_line.Certificates.Types.{
  CertificateOperation, CertificateVersion, ManagedCertificate, IssueConfigSnapshot, OperationType,
  issue, renew, revoke, Database, type_beq,
}
use neo_line.Certificates.Store.{Store, Method, return, from, require, ◌>>=◌, ◌>>◌}
use neo_line.Certificates.Operations.{
  create_operation, find_running_operation, has_running_operation,
}
use neo_line.Certificates.Versions.{
  get_certificate, holds_version, mark_version_revoke_pending, clear_version_revoke_pending,
}
use neo_line.Certificates.Commands.{new_operation}
use neo_line.CertState.{compute_validity, Validity, renewal_due}

-- `store.IsNotFound` is not an error here.
unfoldable pub found_or_none : {A : Type 0} → Result A → Result (Option A)
found_or_none (ok a) = ok (some a)
found_or_none (err no_documents) = ok none
found_or_none (err e) = err e

unfoldable pub optional : {A : Type 0} → Method A → Method (Option A)
unfolding found_or_none
optional m s = let (s', r) = m s in (s', found_or_none r)

unfoldable pub issue_snapshot : ManagedCertificate → IssueConfigSnapshot
issue_snapshot cert = record {
  domains = cert.domains;
  certificate_issuer_id = cert.certificate_issuer_id;
  dns_provider_account_id = cert.dns_provider_account_id;
  key_type = cert.key_type;
}

-- The snapshot of the version, or of the certificate for a version that has none.
unfoldable pub revoke_snapshot : ManagedCertificate → CertificateVersion → IssueConfigSnapshot
unfolding issue_snapshot
revoke_snapshot cert target = elim target.config_snapshot.domains [
  | [] ↦ issue_snapshot cert
  | _ ∷ _ ↦ target.config_snapshot
]

unfoldable pub version_by_id : ManagedCertificate → String → Result CertificateVersion
version_by_id cert version_id =
    let other : Result CertificateVersion = elim cert.previous_version [
      | none ↦ err version_not_found
      | some v ↦ if holds_version version_id (some v) then ok v else err version_not_found
    ] in
    elim cert.active_version [
      | none ↦ other
      | some v ↦ if holds_version version_id (some v) then ok v else other
    ]

abbrev pub max_revoke_reason : ℕ
max_revoke_reason = 10

unfoldable pub checked_target : CertificateVersion → Result (Unit {0})
checked_target v =
    if is_some v.revoked_at
    then err version_revoked
    else if v.revoke_pending
    then err version_revoke_pending
    else ok tt

abbrev operation_types : List OperationType
operation_types = issue ∷ renew ∷ revoke ∷ []

-- The early return of an operation that is found, or the rest of the method.
unfoldable pub join :
    Option CertificateOperation → Method CertificateOperation → Method CertificateOperation
join (some found) rest = return found
join none rest = rest

module _ (db : Database) where
  -- The loop over the types of operation, which skips the caller's own.
  unfoldable pub check_types : String → OperationType → List OperationType → Method (Unit {0})
  check_types cert_id self [] = return tt
  check_types cert_id self (kind ∷ kinds) =
      let rest = check_types cert_id self kinds in
      if type_beq kind self then rest else (do
        found ← optional (find_running_operation db cert_id kind)
        require (not (is_some found)) issuance_in_flight
        rest)

  unfoldable pub ensure_no_conflicting_issuance : String → OperationType → Method (Unit {0})
  unfolding check_types
  ensure_no_conflicting_issuance cert_id self = do
    busy ← has_running_operation db cert_id
    if busy then check_types cert_id self operation_types else return tt

  -- The common part of `createPendingIssueOperation` and its two siblings.
  unfoldable pub create_pending :
      ℕ
      → String
      → OperationType
      → String
      → Result CertificateOperation
      → Method CertificateOperation
  create_pending now fresh kind cert_id op = do
    existing ← optional (find_running_operation db cert_id kind)
    join existing do
      busy ← has_running_operation db cert_id
      require (not busy) issuance_in_flight
      doc ← from op
      create_operation db now fresh doc

  unfoldable pub create_pending_issue_operation :
      ℕ → String → ManagedCertificate → Method CertificateOperation
  unfolding create_pending issue_snapshot
  create_pending_issue_operation now fresh cert =
      create_pending now fresh issue cert.id
        (ok (new_operation issue cert.id (issue_snapshot cert) "" 0))

  unfoldable pub renew_document : ManagedCertificate → Result CertificateOperation
  renew_document cert = elim cert.active_version [
    | none ↦ err no_active_version
    | some v ↦ ok (new_operation renew cert.id v.config_snapshot "" 0)
  ]

  unfoldable pub create_pending_renew_operation :
      ℕ → String → ManagedCertificate → Method CertificateOperation
  unfolding create_pending renew_document
  create_pending_renew_operation now fresh cert =
      create_pending now fresh renew cert.id (renew_document cert)

  unfoldable pub create_pending_revoke_operation :
      ℕ
      → String
      → ManagedCertificate
      → String
      → ℕ
      → CertificateVersion
      → Method CertificateOperation
  unfolding create_pending revoke_snapshot
  create_pending_revoke_operation now fresh cert version_id reason target =
      create_pending now fresh revoke cert.id
        (ok (new_operation revoke cert.id (revoke_snapshot cert target) version_id reason))

  unfoldable pub submit_issue_operation : ℕ → String → String → Method CertificateOperation
  unfolding optional ensure_no_conflicting_issuance create_pending_issue_operation
  submit_issue_operation now fresh cert_id = do
    existing ← optional (find_running_operation db cert_id issue)
    join existing do
      ensure_no_conflicting_issuance cert_id issue
      cert ← get_certificate db cert_id
      create_pending_issue_operation now fresh cert

  unfoldable pub submit_renew_operation : ℕ → String → String → Method CertificateOperation
  unfolding optional ensure_no_conflicting_issuance create_pending_renew_operation
  submit_renew_operation now fresh cert_id = do
    existing ← optional (find_running_operation db cert_id renew)
    join existing do
      ensure_no_conflicting_issuance cert_id renew
      cert ← get_certificate db cert_id
      require (is_some cert.active_version) no_active_version
      create_pending_renew_operation now fresh cert

  -- If the operation cannot be created, the mark on the version is taken back, as far as that works.
  unfoldable pub or_unmark :
      ℕ → String → String → Method CertificateOperation → Method CertificateOperation
  or_unmark now cert_id version_id m s =
      let (t, r) = m s in
      elim r [
        | ok op ↦ (t, ok op)
        | err e ↦ ((clear_version_revoke_pending db cert_id version_id now t).0, err e)
      ]

  unfoldable pub submit_revoke_version :
      ℕ → String → String → String → ℕ → Method CertificateOperation
  unfolding optional ensure_no_conflicting_issuance create_pending_revoke_operation version_by_id
      checked_target or_unmark
  submit_revoke_version now fresh cert_id version_id reason = do
    require (not (ltb max_revoke_reason reason)) invalid_revocation_reason
    existing ← optional (find_running_operation db cert_id revoke)
    join existing do
      ensure_no_conflicting_issuance cert_id revoke
      cert ← get_certificate db cert_id
      target ← from (version_by_id cert version_id)
      from (checked_target target)
      mark_version_revoke_pending db cert_id version_id now
      or_unmark now cert_id version_id
          (create_pending_revoke_operation now fresh cert version_id reason target)

abbrev is_renewal_due : Validity → Bool
is_renewal_due renewal_due = true
is_renewal_due _ = false

module _ (db : Database) where
  open db use {certificates}

  -- The body of the loop of `reconcileAutoRenew`: what fails is logged, and the loop goes on. The
  -- result is the operation to trigger.
  unfoldable pub renew_if_due :
      ℕ → String → ManagedCertificate → Method (Option CertificateOperation)
  unfolding optional ensure_no_conflicting_issuance create_pending_renew_operation
  renew_if_due now fresh cert =
      if not (is_some cert.active_version)
        || not cert.auto_renew_enabled
        || not (is_renewal_due (compute_validity cert now).0)
      then return none
      else (do
        existing ← optional (find_running_operation db cert.id renew)
        if is_some existing then return none else (do
          ensure_no_conflicting_issuance db cert.id renew
          op ← create_pending_renew_operation db now fresh cert
          return (some op)))

  unfoldable pub renew_each : ℕ → (String → String) → List ManagedCertificate → Store → Store
  unfolding renew_if_due
  renew_each now fresh [] s = s
  renew_each now fresh (cert ∷ certs) s =
      renew_each now fresh certs (renew_if_due now (fresh cert.id) cert s).0

  -- The certificates are visited in the order of the query.
  unfoldable pub reconcile_auto_renew : ℕ → (String → String) → Store → Store
  unfolding renew_each
  reconcile_auto_renew now fresh s =
      elim (certificates.find (λ c. c.auto_renew_enabled && is_some c.active_version)
        s.certificates) [ err e ↦ s | ok certs ↦ renew_each now fresh certs s ]
