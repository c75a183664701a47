-- ===== src/Manager/Saved.antt =====
-- What an update of a managed certificate returns, and what the searches for its operations tell.
use neo_line.Prelude.{
  ℕ, ◌≡◌, refl, ap, subst, ◌∙◌, Bool, true, false, ◌&&◌, ◌||◌, String, eq_iff, Option, none, some,
  List, [], ◌∷◌, Result, ok, err, no_documents, DriverError, or_none, first, any, arith,
}
use neo_line.Mongo.Documents.{Outcome, done, rejected, unacknowledged, perform, answer}
use mathlib.Core.Option
use neo_line.Certificates.Types.{
  CertificateOperation, ManagedCertificate, OperationType, issue, renew, revoke, type_beq,
}
use neo_line.Certificates.Store.{Store}
use neo_line.Certificates.Operations.{in_flight_for}
use neo_line.Certificates.Versions.{name_error, edited}
use neo_line.CertState.Timeline.{same_domains_iff}
use neo_line.Manager.Submit.{found_or_none}
use neo_line.Manager.Joined.{waits_for}
use neo_line.Manager.Desired.{issue_fields_changed, update_of}

-- The fields that a version is issued from.
abbrev pub SameIssueFields : ManagedCertificate → ManagedCertificate → Type 0
SameIssueFields a b =
    (a.certificate_issuer_id ≡ b.certificate_issuer_id)
    × (a.dns_provider_account_id ≡ b.dns_provider_account_id)
    × (a.key_type ≡ b.key_type)
    × (a.domains ≡ b.domains)

-- Whether an operation of the certificate is pending or running.
abbrev pub busy : String → Store → Bool
busy cert_id s = any (in_flight_for cert_id) s.operations

pub issue_fields_changed-Same :
    (a b : ManagedCertificate) → issue_fields_changed a b ≡ false → SameIssueFields a b
unfolding issue_fields_changed
issue_fields_changed-Same a b h = ground (
  arith,
  eq_iff a.certificate_issuer_id b.certificate_issuer_id,
  eq_iff a.dns_provider_account_id b.dns_provider_account_id,
  eq_iff a.key_type b.key_type,
  same_domains_iff a.domains b.domains,
)

pub Same-trans :
    (a b c : ManagedCertificate) → SameIssueFields a b → SameIssueFields b c → SameIssueFields a c
Same-trans a b c (h₁, h₂, h₃, h₄) (k₁, k₂, k₃, k₄) = (h₁ ∙ k₁, h₂ ∙ k₂, h₃ ∙ k₃, h₄ ∙ k₄)

-- An operation in flight is of one of the three types.
pub any-type :
    (cert_id : String) (ops : List CertificateOperation)
    → any (in_flight_for cert_id) ops ≡ true
    → (any (waits_for cert_id issue) ops
        || any (waits_for cert_id renew) ops
        || any (waits_for cert_id revoke) ops)
      ≡ true
any-type cert_id [] h = h
any-type cert_id (op ∷ ops) h = by_kind op.kind (any-type cert_id ops)
  where
    by_kind :
        (kind : OperationType)
        → (any (in_flight_for cert_id) ops ≡ true
            → (any (waits_for cert_id issue) ops
                || any (waits_for cert_id renew) ops
                || any (waits_for cert_id revoke) ops)
              ≡ true)
        → (((in_flight_for cert_id op && type_beq kind issue) || any (waits_for cert_id issue) ops)
            || ((in_flight_for cert_id op && type_beq kind renew)
                || any (waits_for cert_id renew) ops)
            || ((in_flight_for cert_id op && type_beq kind revoke)
                || any (waits_for cert_id revoke) ops))
          ≡ true
    by_kind issue k = ground arith
    by_kind renew k = ground arith
    by_kind revoke k = ground arith

pub first-none-any :
    {A : Type 0} (p : A → Bool) (xs : List A) → first p xs ≡ none → any p xs ≡ false
first-none-any p [] h = refl
first-none-any p (x ∷ xs) h = ground (arith, first-none-any p xs)

pub found_or_none-none :
    {A : Type 0} (r : Result A) → found_or_none r ≡ ok none → r ≡ err no_documents
unfolding found_or_none
found_or_none-none (ok a) h = cc h
found_or_none-none (err no_documents) h = refl
found_or_none-none (err _) h = cc

pub answered-missing :
    {A : Type 0} (o : Option DriverError) (x : Option A)
    → answer o (or_none x) ≡ err no_documents
    → x ≡ none
answered-missing none none h = refl
answered-missing none (some a) h = cc
answered-missing (some e) x h = cc

-- A duplicate key is the only error that is given another name.
pub returned :
    (r : Result ManagedCertificate) (s t : Store) (c : ManagedCertificate)
    → (elim r as (λ _. Store × Result ManagedCertificate) [
      | ok c ↦ (s, ok c)
      | err e ↦ (s, err (name_error e))
    ])
      ≡ (t, ok c)
    → r ≡ ok c
returned (ok d) s t c h = ap (λ (w : Store × Result ManagedCertificate). w.1) h
returned (err e) s t c h = cc (ap (λ (w : Store × Result ManagedCertificate). w.1) h)

pub edited-Same :
    (updated x : ManagedCertificate) (now : ℕ)
    → SameIssueFields updated (edited (update_of updated) now x)
unfolding edited update_of
edited-Same updated x now = (refl, refl, refl, refl)

pub mapped-Same :
    (updated : ManagedCertificate) (now : ℕ) (found : Option ManagedCertificate)
    (c : ManagedCertificate)
    → or_none (Option.map (edited (update_of updated) now) found) ≡ ok c
    → SameIssueFields updated c
mapped-Same updated now none c h = cc h
mapped-Same updated now (some x) c h =
    let same : edited (update_of updated) now x ≡ c = ground arith in
    subst (SameIssueFields updated) same (edited-Same updated x now)

pub performed-Same :
    (updated : ManagedCertificate) (now : ℕ) (o : Outcome) (before after : List ManagedCertificate)
    (found : Option ManagedCertificate) (c : ManagedCertificate)
    → (perform o before after (or_none (Option.map (edited (update_of updated) now) found))).1
      ≡ ok c
    → SameIssueFields updated c
performed-Same updated now done before after found c h = mapped-Same updated now found c h
performed-Same updated now (rejected e) before after found c h = cc h
performed-Same updated now (unacknowledged e) before after found c h = cc h
