-- ===== src/Notices/Spacing.antt =====
-- What a call that claims a marker leaves, however the database answers it.
use neo_line.Notices.Marks.{update_first-Marks, Marks, Good}
use neo_line.Prelude.{
  subst, ℕ, ◌≡◌, refl, ap, sym, ◌∙◌, Bool, true, String, Option, List, ltb, Result, ok, err, arith,
  any,
}
use neo_line.Mongo.Documents.{
  Outcome, done, rejected, unacknowledged, perform, update_first, matched,
}
use neo_line.Certificates.Types.{CertificateNotificationState, ManagedCertificate, Database}
use neo_line.Certificates.Store.{Store, execute}
use neo_line.Notices.Records.{marked, try_record}

module _ (db : Database) where
  open db use {certificates}

  -- What a claim of a marker leaves, and what its success shows.
  pub record Tried (p : ManagedCertificate → Bool)
      (f : CertificateNotificationState → CertificateNotificationState) (now : ℕ) (s : Store)
      (r : Store × Result Bool) : Type 0 where
    pub outcome : Outcome
    pub left :
        r.0.certificates
        ≡ (perform outcome s.certificates
            (update_first p (marked f now) s.certificates)
            (ok (matched p s.certificates))).0
    pub claims :
        r.1 ≡ ok true
        → (any p s.certificates ≡ true)
          × (r.0.certificates ≡ update_first p (marked f now) s.certificates)

  settled : Store → List ManagedCertificate × Result ℕ → Store × Result Bool
  settled s w = elim w.1 as (λ _. Store × Result Bool) [
    | ok n ↦ (record s { certificates = w.0 }, ok (ltb 0 n))
    | err x ↦ (record s { certificates = w.0 }, err x)
  ]

  settled-Tried :
      (p : ManagedCertificate → Bool)
      (f : CertificateNotificationState → CertificateNotificationState) (now : ℕ) (s : Store)
      (o : Outcome)
      → Tried p f now s (
          settled s (
            perform o s.certificates
              (update_first p (marked f now) s.certificates)
              (ok (matched p s.certificates))))
  unfolding settled
  settled-Tried p f now s done = record {
    outcome = done;
    left = refl;
    claims = λ h. (ground arith, refl);
  }
  settled-Tried p f now s (rejected x) = record {
    outcome = rejected x;
    left = refl;
    claims = λ h. cc h;
  }
  settled-Tried p f now s (unacknowledged x) = record {
    outcome = unacknowledged x;
    left = refl;
    claims = λ h. cc h;
  }

  try_record-settled :
      (p : ManagedCertificate → Bool)
      (f : CertificateNotificationState → CertificateNotificationState) (now : ℕ) (s : Store)
      → try_record db p f now s
        ≡ settled s (certificates.update_one p (marked f now) s.certificates)
  unfolding try_record execute settled
  try_record-settled p f now s = refl

  pub try_record-Tried :
      (p : ManagedCertificate → Bool)
      (f : CertificateNotificationState → CertificateNotificationState) (now : ℕ) (s : Store)
      → Tried p f now s (try_record db p f now s)
  try_record-Tried p f now s =
      let (o, e) = certificates.update_one_lem p (marked f now) s.certificates in
      subst (Tried p f now s) (sym (try_record-settled p f now s ∙ ap (settled s) e))
        (settled-Tried p f now s o)

  pub try_record-Marks :
      (cert_id : String) (u : Option ℕ) (now : ℕ) (p : ManagedCertificate → Bool)
      (f : CertificateNotificationState → CertificateNotificationState) (s : Store)
      (r : Store × Result Bool)
      → ((x : ManagedCertificate) → p x ≡ true → Good cert_id u x → Good cert_id u (marked f now x))
      → Tried p f now s r
      → Marks cert_id u s.certificates
      → Marks cert_id u r.0.certificates
  try_record-Marks cert_id u now p f s r k h m =
      subst (Marks cert_id u) (sym h.left) (performed h.outcome (ok (matched p s.certificates)))
    where
      performed :
          (o : Outcome) (q : Result ℕ)
          → Marks cert_id u
              (perform o s.certificates (update_first p (marked f now) s.certificates) q).0
      performed done q = update_first-Marks cert_id u now p f s.certificates k m
      performed (rejected x) q = m
      performed (unacknowledged x) q = update_first-Marks cert_id u now p f s.certificates k m
