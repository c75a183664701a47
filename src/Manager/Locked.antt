-- ===== src/Manager/Locked.antt =====
-- While an operation of a certificate is in flight, an update does not change what is issued.
use neo_line.Manager.Saved.{
  issue_fields_changed-Same, first-none-any, performed-Same, Same-trans, found_or_none-none,
  any-type, returned, busy, SameIssueFields, answered-missing,
}
use neo_line.Prelude.{
  ℕ, ◌≡◌, ap, sym, subst, ◌∙◌, Bool, true, false, not, ◌&&◌, ◌||◌, String, Option, none, some, List,
  is_some, Result, ok, first, any, arith,
}
use neo_line.Certificates.Types.{
  CertificateOperation, ManagedCertificate, OperationType, issue, renew, revoke, Database,
}
use neo_line.Certificates.Store.{Store, execute}
use neo_line.Certificates.Operations.{find_running_operation}
use neo_line.Certificates.Versions.{has_certificate_id, get_certificate, update_certificate, edited}
use neo_line.Certificates.Inversion.{
  >>=-ok, >>-ok, require-ok, from-ok, answer-ok, or_none-ok, first-any,
}
use neo_line.Manager.Submit.{optional, found_or_none}
use neo_line.Manager.Joined.{waits_for, joined, found_running}
use neo_line.Manager.Outside.{Outside}
use neo_line.Manager.Domains.{Idna}
use neo_line.Manager.Desired.{
  ManagedCertificateInput, issue_fields_changed, update_of, update_managed_certificate,
}

-- The condition of the lock, where one of the three searches found an operation.
unlocked :
    (a b c changed x y z : Bool)
    → a ≡ x
    → b ≡ y
    → c ≡ z
    → (a || b || c) ≡ true
    → not ((x || y || z) && changed) ≡ true
    → changed ≡ false
unlocked a b c changed x y z h k l e f = ground arith

module _ (db : Database) where
  open db use {operations, certificates}

  searched :
      (cert_id : String) (kind : OperationType) (s t : Store) (o : Option CertificateOperation)
      → optional (find_running_operation db cert_id kind) s ≡ (t, ok o)
      → (t ≡ s) × (found_or_none (operations.find_one (waits_for cert_id kind) s.operations) ≡ ok o)
  unfolding optional find_running_operation execute
  searched cert_id kind s t o h = (
    sym (ap (λ (r : Store × Result (Option CertificateOperation)). r.0) h),
    ap (λ (r : Store × Result (Option CertificateOperation)). r.1) h,
  )

  -- What the search for an operation of a type tells.
  found-any :
      (cert_id : String) (kind : OperationType) (s t : Store) (o : Option CertificateOperation)
      → optional (find_running_operation db cert_id kind) s ≡ (t, ok o)
      → (any (waits_for cert_id kind) s.operations ≡ is_some o) × (t ≡ s)
  found-any cert_id kind s t none h =
      let (same, missing) = searched cert_id kind s t none h in
      let (e, l) = operations.find_one_lem (waits_for cert_id kind) s.operations in
      let gone = answered-missing e _ (sym l ∙ found_or_none-none _ missing) in
      (first-none-any (waits_for cert_id kind) s.operations gone, same)
  found-any cert_id kind s t (some r) h =
      let there = joined db cert_id kind s t r h in
      (
        first-any (waits_for cert_id kind) s.operations r there,
        found_running db cert_id kind s t (some r) h,
      )

  got :
      (id : String) (s t : Store) (c : ManagedCertificate)
      → get_certificate db id s ≡ (t, ok c)
      → (first (has_certificate_id id) s.certificates ≡ some c) × (t ≡ s)
  unfolding get_certificate execute
  got id s t c h =
      let (o, l) = certificates.find_one_lem (has_certificate_id id) s.certificates in
      let value = ap (λ (r : Store × Result ManagedCertificate). r.1) h in
      (
        or_none-ok _ c (answer-ok o _ c (sym l ∙ value)),
        sym (ap (λ (r : Store × Result ManagedCertificate). r.0) h),
      )

  -- The document that an update returns has the fields of the update.
  saved-Same :
      (id : String) (now : ℕ) (updated c : ManagedCertificate) (s t : Store)
      → update_certificate db id (update_of updated) now s ≡ (t, ok c)
      → SameIssueFields updated c
  unfolding update_certificate execute
  saved-Same id now updated c s t h =
      let (o, l) =
        certificates.find_one_and_update_lem (has_certificate_id id)
          (edited (update_of updated) now) s.certificates in
      let result = returned _ _ t c h in
      performed-Same updated now o s.certificates _ _ c
        (sym (ap (λ (w : List ManagedCertificate × Result ManagedCertificate). w.1) l) ∙ result)

  -- While an operation of the certificate is pending or running, an update that succeeds keeps the issuer,
  -- the DNS account, the key type and the domains, so that what is issued is what was asked for.
  pub update_managed_certificate-locked :
      (o : Outside) (idna : Idna)
      (validate_notify_group_ids validate_server_ids : List String → Result (Unit {0})) (now : ℕ)
      (id : String) (input : ManagedCertificateInput) (s t : Store) (saved : ManagedCertificate)
      → busy id s ≡ true
      → update_managed_certificate db o idna validate_notify_group_ids validate_server_ids now id
          input s
        ≡ (t, ok saved)
      → (existing : ManagedCertificate) × (first (has_certificate_id id) s.certificates
          ≡ some existing)
        × SameIssueFields existing saved
  unfolding update_managed_certificate
  update_managed_certificate-locked o idna vn vs now id input s t saved in_flight h =
      let (existing, s₁, h₁, k₁) = >>=-ok _ _ s t saved h in
      let (updated, s₂, h₂, k₂) = >>=-ok _ _ s₁ t saved k₁ in
      let (s₃, h₃, k₃) = >>-ok _ _ s₂ t saved k₂ in
      let (issuing, s₄, h₄, k₄) = >>=-ok _ _ s₃ t saved k₃ in
      let (renewing, s₅, h₅, k₅) = >>=-ok _ _ s₄ t saved k₄ in
      let (revoking, s₆, h₆, k₆) = >>=-ok _ _ s₅ t saved k₅ in
      let (s₇, h₇, k₇) = >>-ok _ _ s₆ t saved k₆ in
      let (there, e₁) = got id s s₁ existing h₁ in
      let (_, e₂) = from-ok _ updated s₁ s₂ h₂ in
      let (_, e₃) = from-ok _ tt s₂ s₃ h₃ in
      let (i, e₄) = found-any id issue s₃ s₄ issuing h₄ in
      let (n, e₅) = found-any id renew s₄ s₅ renewing h₅ in
      let (v, e₆) = found-any id revoke s₅ s₆ revoking h₆ in
      let (free, e₇) = require-ok _ _ s₆ s₇ h₇ in
      let same₃ : s₃ ≡ s = e₃ ∙ e₂ ∙ e₁ in
      let types = any-type id s.operations in_flight in
      let i' = subst (λ z. any (waits_for id issue) z.operations ≡ is_some issuing) same₃ i in
      let n' =
        subst (λ z. any (waits_for id renew) z.operations ≡ is_some renewing) (e₄ ∙ same₃) n in
      let v' =
        subst (λ z. any (waits_for id revoke) z.operations ≡ is_some revoking) (e₅ ∙ e₄ ∙ same₃)
          v in
      let unchanged =
        unlocked _ _ _ (issue_fields_changed existing updated) _ _ _ i' n' v' types free in
      (
        existing,
        there,
        Same-trans existing updated saved (issue_fields_changed-Same existing updated unchanged)
            (saved-Same id now updated saved s₇ t k₇),
      )
