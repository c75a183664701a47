-- ===== src/Notices/Marks.antt =====
-- The markers of the failures of one certificate: what each update of them keeps.
use neo_line.Prelude.{
  subst, ℕ, ◌+◌, ◌≤◌, ◌≡◌, refl, sym, ◌∙◌, Bool, true, inl, inr, String, Option, none, some, List,
  [], ◌∷◌, arith, any, All, count_if, and-left, and-right, Bool-cases,
}
use neo_line.Mongo.Documents.{update_first}
use neo_line.Mongo.Laws.{All-update_first, count_if-update_first-le}
use neo_line.Certificates.Types.{CertificateNotificationState, ManagedCertificate}
use neo_line.Certificates.Versions.{has_certificate_id}
use neo_line.Certificates.Inversion.{update_first-IsUpdated, IsUpdated}
use neo_line.Notices.Records.{
  cert_notification_fail_reminder_interval, elapsed, state_of, failing, not_failing, remindable,
  marked, failure_notified, failure_reminded, recovered,
}

-- A bound on the times that the marker may have: the last notice of a failure, if there was one.
abbrev pub NotBefore : Option ℕ → Option ℕ → Type 0
NotBefore none o = Unit
NotBefore (some u) none = ⊥
NotBefore (some u) (some t) = u ≤ t

abbrev pub Far : Option ℕ → ℕ → Type 0
Far none t = Unit
Far (some u) t = u + cert_notification_fail_reminder_interval ≤ t

abbrev pub Past : Option ℕ → ℕ → Type 0
Past none now = Unit
Past (some u) now = u ≤ now

-- While the certificate is failing, its marker is no earlier than the last notice.
abbrev pub Good : String → Option ℕ → ManagedCertificate → Type 0
Good cert_id u c = failing cert_id c ≡ true → NotBefore u (state_of c).last_fail_notified_at

-- Of the collection, whose unique index lets at most one certificate have the id.
abbrev pub Marks : String → Option ℕ → List ManagedCertificate → Type 0
Marks cert_id u certs =
    (count_if (has_certificate_id cert_id) certs ≤ 1) × All (Good cert_id u) certs

module _ (cert_id : String) (u : Option ℕ) (now : ℕ) (c : ManagedCertificate) where
  pub notified-Good : Past u now → Good cert_id u (marked (failure_notified now) now c)
  unfolding marked failure_notified
  notified-Good h =
      elim u as (λ u. Past u now → Good cert_id u (marked (failure_notified now) now c)) [
        | none ↦ λ h e. tt
        | some t ↦ λ h e. h
      ]
        h

  pub reminded-Good : Past u now → Good cert_id u (marked (failure_reminded now) now c)
  unfolding marked failure_reminded
  reminded-Good h =
      elim u as (λ u. Past u now → Good cert_id u (marked (failure_reminded now) now c)) [
        | none ↦ λ h e. tt
        | some t ↦ λ h e. h
      ]
        h

  pub recovered-Good : Good cert_id u (marked recovered now c)
  unfolding marked recovered failing
  recovered-Good e = ground arith

marked-has_id :
    (cert_id : String) (f : CertificateNotificationState → CertificateNotificationState) (now : ℕ)
    (c : ManagedCertificate)
    → has_certificate_id cert_id (marked f now c) ≡ has_certificate_id cert_id c
unfolding marked has_certificate_id
marked-has_id cert_id f now c = refl

pub failing-has_id :
    (cert_id : String) (c : ManagedCertificate)
    → failing cert_id c ≡ true
    → has_certificate_id cert_id c ≡ true
unfolding failing
failing-has_id cert_id c e = and-left _ _ e

pub not_failing-has_id :
    (cert_id : String) (c : ManagedCertificate)
    → not_failing cert_id c ≡ true
    → has_certificate_id cert_id c ≡ true
unfolding not_failing
not_failing-has_id cert_id c e = and-left _ _ e

pub remindable-failing :
    (cert_id : String) (now : ℕ) (c : ManagedCertificate)
    → remindable cert_id now c ≡ true
    → failing cert_id c ≡ true
unfolding remindable
remindable-failing cert_id now c e = and-left _ _ e

remindable-elapsed :
    (cert_id : String) (now : ℕ) (c : ManagedCertificate)
    → remindable cert_id now c ≡ true
    → elapsed now (state_of c).last_fail_notified_at ≡ true
unfolding remindable
remindable-elapsed cert_id now c e = and-right (failing cert_id c) _ e

module _ (cert_id : String) (u : Option ℕ) (now : ℕ) where
  pub update_first-Marks :
      (p : ManagedCertificate → Bool)
      (f : CertificateNotificationState → CertificateNotificationState)
      (certs : List ManagedCertificate)
      → ((x : ManagedCertificate) → p x ≡ true → Good cert_id u x → Good cert_id u (marked f now x))
      → Marks cert_id u certs
      → Marks cert_id u (update_first p (marked f now) certs)
  update_first-Marks p f certs k (one, good) =
      let fewer =
        count_if-update_first-le (has_certificate_id cert_id) p (marked f now) certs
          (λ x _ h. sym (marked-has_id cert_id f now x) ∙ h) in
      (omega arith, All-update_first (Good cert_id u) p (marked f now) certs k good)

  -- After a claim whose marker has the time of the call, that time is a bound.
  pub claimed-Marks :
      (p : ManagedCertificate → Bool)
      (f : CertificateNotificationState → CertificateNotificationState)
      (certs : List ManagedCertificate)
      → ((x : ManagedCertificate) → p x ≡ true → has_certificate_id cert_id x ≡ true)
      → ((x : ManagedCertificate) → Good cert_id (some now) (marked f now x))
      → any p certs ≡ true
      → Marks cert_id u certs
      → Marks cert_id (some now) (update_first p (marked f now) certs)
  claimed-Marks p f certs own at_now found (one, good) =
      let fewer =
        count_if-update_first-le (has_certificate_id cert_id) p (marked f now) certs
          (λ x _ h. sym (marked-has_id cert_id f now x) ∙ h) in
      (
        omega arith,
        bounded (update_first p (marked f now) certs) (
            update_first-IsUpdated (has_certificate_id cert_id) p (marked f now) certs own one
              found),
      )
    where
      bounded :
          (cs : List ManagedCertificate)
          → All (IsUpdated (has_certificate_id cert_id) p (marked f now)) cs
          → All (Good cert_id (some now)) cs
      bounded [] h = tt
      bounded (c ∷ cs) (h, hs) = (
        λ e.
            let (x, _, q) = h (failing-has_id cert_id c e) in
            subst (Good cert_id (some now)) (sym q) (at_now x) e,
        bounded cs hs,
      )

  -- A reminder finds a marker that is a day old.
  pub remindable-Far :
      (certs : List ManagedCertificate)
      → All (Good cert_id u) certs
      → any (remindable cert_id now) certs ≡ true
      → Far u now
  remindable-Far [] good h = cc h
  remindable-Far (c ∷ cs) good h = elim (Bool-cases (remindable cert_id now c)) [
    | inl e ↦ one c good.0 e
    | inr e ↦ remindable-Far cs good.1 (ground arith)
  ]
    where
      old : (u last : Option ℕ) → NotBefore u last → elapsed now last ≡ true → Far u now
      old none last k e = tt
      old (some t) none k e = elim k [ ]
      old (some t) (some v) k e = ground arith

      one :
          (c : ManagedCertificate) → Good cert_id u c → remindable cert_id now c ≡ true → Far u now
      one c k e =
          old u (state_of c).last_fail_notified_at (k (remindable-failing cert_id now c e))
            (remindable-elapsed cert_id now c e)
