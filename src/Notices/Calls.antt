-- ===== src/Notices/Calls.antt =====
-- The notices of failure of one certificate over a sequence of the dispatcher's calls, by any replicas, on
-- a database whose calls may fail.
use neo_line.Prelude.{
  ℕ, ◌≡◌, refl, sym, subst, Bool, true, false, ◌&&◌, ◌⊎◌, inl, inr, String, ◌==◌, Option, some,
  List, [], ◌∷◌, if◌then◌else◌, Result, ok, err, arith, any, eq_iff, Bool-cases,
}
use neo_line.Certificates.Types.{CertificateOperation, ManagedCertificate, Database}
use neo_line.Certificates.Store.{Store, execute}
use neo_line.Manager.Runner.{recover}
use neo_line.Notices.Records.{
  failing, not_failing, remindable, failure_notified, failure_reminded, recovered,
  try_record_operation_failure_notification, try_record_operation_failure_reminder,
  try_record_operation_recovery,
}
use neo_line.Notices.Dispatch.{
  EventType, operation_failed, operation_failed_reminder, operation_recovered, Payload,
  on_operation_failure, on_operation_success, claimed_notice, operation_payload, remind_failure,
}
use neo_line.Notices.Marks.{
  Marks, Past, Far, claimed-Marks, remindable-Far, notified-Good, reminded-Good, recovered-Good,
  failing-has_id, not_failing-has_id, remindable-failing,
}
use neo_line.Notices.Spacing.{Tried, try_record-Marks, try_record-Tried}

abbrev is_failure : EventType → Bool
is_failure operation_failed = true
is_failure operation_failed_reminder = true
is_failure _ = false

abbrev is_reminder : EventType → Bool
is_reminder operation_failed_reminder = true
is_reminder _ = false

-- The notices of failure of one certificate: whether each is a reminder, and its time.
unfoldable pub noted : String → List Payload → List (Bool × ℕ)
noted cert_id [] = []
noted cert_id (p ∷ ps) =
    let rest = noted cert_id ps in
    if p.managed_certificate_id == cert_id && is_failure p.event_type
    then (is_reminder p.event_type, p.occurred_at) ∷ rest
    else rest

abbrev pub sent : Store × Result (List Payload) → List Payload
sent r = elim r.1 [ ok ps ↦ ps | err e ↦ [] ]

-- What one call sends of the certificate, and the markers that it leaves.
abbrev pub Step : String → Option ℕ → ℕ → Store × Result (List Payload) → Type 0
Step cert_id u now r =
    ((noted cert_id (sent r) ≡ []) × Marks cert_id u r.0.certificates)
    ⊎ ((b : Bool) × (noted cert_id (sent r) ≡ (b, now) ∷ [])
        × (b ≡ true → Far u now)
        × Marks cert_id (some now) r.0.certificates)

module _ (db : Database) (cert_id : String) (u : Option ℕ) (now : ℕ) (past : Past u now) where
  module _ (cert : ManagedCertificate) (op : CertificateOperation) (summary : String) where
    other-noted :
        (event : EventType)
        → (cert.id == cert_id) ≡ false
        → noted cert_id (operation_payload event cert op summary now ∷ []) ≡ []
    unfolding noted operation_payload
    other-noted event e = rw e refl

    own-noted :
        (event : EventType)
        → is_failure event ≡ true
        → (cert.id == cert_id) ≡ true
        → noted cert_id (operation_payload event cert op summary now ∷ [])
          ≡ (is_reminder event, now) ∷ []
    unfolding noted operation_payload
    own-noted event f e = rw e (rw f refl)

    same_id : (cert.id == cert_id) ≡ true → cert.id ≡ cert_id
    same_id e = ground (arith, eq_iff cert.id cert_id)

    reminded-Marks :
        (s : Store) (r : Store × Result Bool)
        → Tried db (remindable cert.id now) (failure_reminded now) now s r
        → Marks cert_id u s.certificates
        → Marks cert_id u r.0.certificates
    reminded-Marks s r h m =
        try_record-Marks db cert_id u now _ _ s r (λ x _ _. reminded-Good cert_id u now x past) h m

    reminded-Step :
        (s : Store) (r : Store × Result Bool)
        → Tried db (remindable cert.id now) (failure_reminded now) now s r
        → Marks cert_id u s.certificates
        → Step cert_id u now (
            claimed_notice
              (operation_payload operation_failed_reminder cert op summary now)
              r.1
              r.0)
    unfolding claimed_notice execute noted
    reminded-Step s (t, ok true) h m = elim (Bool-cases (cert.id == cert_id)) [
      | inl e ↦
          let same = same_id e in
          let (found, left) = h.claims refl in
          inr (
            true,
            own-noted operation_failed_reminder refl e,
            (λ _.
                remindable-Far cert_id u now s.certificates m.1
                  (subst (λ i. any (remindable i now) s.certificates ≡ true) same found)),
            subst (Marks cert_id (some now)) (sym left) (
                claimed-Marks cert_id u now (remindable cert.id now) (failure_reminded now)
                  s.certificates
                  (λ x k.
                    failing-has_id cert_id x (remindable-failing cert_id now x (rw same at k)))
                  (λ x. reminded-Good cert_id (some now) now x (omega arith)) found m),
          )
      | inr e ↦ inl (other-noted operation_failed_reminder e, reminded-Marks s (t, ok true) h m)
    ]
    reminded-Step s (t, ok false) h m = inl (refl, reminded-Marks s (t, ok false) h m)
    reminded-Step s (t, err e) h m = inl (refl, reminded-Marks s (t, err e) h m)

    notified-Marks :
        (s : Store) (r : Store × Result Bool)
        → Tried db (not_failing cert.id) (failure_notified now) now s r
        → Marks cert_id u s.certificates
        → Marks cert_id u r.0.certificates
    notified-Marks s r h m =
        try_record-Marks db cert_id u now _ _ s r (λ x _ _. notified-Good cert_id u now x past) h m

    failed-Step :
        (s : Store) (r : Store × Result Bool)
        → Tried db (not_failing cert.id) (failure_notified now) now s r
        → Marks cert_id u s.certificates
        → Step cert_id u now (remind_failure db cert op summary now r.1 r.0)
    unfolding remind_failure claimed_notice execute recover noted
        try_record_operation_failure_reminder
    failed-Step s (t, ok true) h m = elim (Bool-cases (cert.id == cert_id)) [
      | inl e ↦
          let same = same_id e in
          let (found, left) = h.claims refl in
          inr (
            false,
            own-noted operation_failed refl e,
            (λ k. cc k),
            subst (Marks cert_id (some now)) (sym left) (
                claimed-Marks cert_id u now (not_failing cert.id) (failure_notified now)
                  s.certificates (λ x k. not_failing-has_id cert_id x (rw same at k))
                  (λ x. notified-Good cert_id (some now) now x (omega arith)) found m),
          )
      | inr e ↦ inl (other-noted operation_failed e, notified-Marks s (t, ok true) h m)
    ]
    failed-Step s (t, ok false) h m =
        reminded-Step t _
          (try_record-Tried db (remindable cert.id now) (failure_reminded now) now t)
          (notified-Marks s (t, ok false) h m)
    failed-Step s (t, err e) h m = inl (refl, notified-Marks s (t, err e) h m)

    pub on_operation_failure-Step :
        (s : Store)
        → Marks cert_id u s.certificates
        → Step cert_id u now (on_operation_failure db cert op summary now s)
    unfolding on_operation_failure execute recover noted try_record_operation_failure_notification
    on_operation_failure-Step s m = by_groups cert.notify_group_ids
      where
        by_groups :
            (groups : List String)
            → Step cert_id u now (
                (if elim groups as (λ _. Bool) [ [] ↦ true | _ ∷ _ ↦ false ]
                    then (λ s. (s, ok []))
                    else recover
                        (try_record_operation_failure_notification db cert.id now)
                        (remind_failure db cert op summary now))
                  s)
        by_groups [] = inl (refl, m)
        by_groups (g ∷ gs) =
            failed-Step s _ (try_record-Tried db (not_failing cert.id) (failure_notified now) now s)
              m

    recovered-Step :
        (s : Store) (r : Store × Result Bool)
        → Tried db (failing cert.id) recovered now s r
        → Marks cert_id u s.certificates
        → Step cert_id u now
            (claimed_notice (operation_payload operation_recovered cert op "" now) r.1 r.0)
    unfolding claimed_notice execute noted operation_payload
    recovered-Step s (t, b) h m = by_result b (
        try_record-Marks db cert_id u now _ _ s (t, b) (λ x _ _. recovered-Good cert_id u now x) h
          m)
      where
        by_result :
            (b : Result Bool)
            → Marks cert_id u t.certificates
            → Step cert_id u now
                (claimed_notice (operation_payload operation_recovered cert op "" now) b t)
        by_result (ok true) k = inl (ground arith, k)
        by_result (ok false) k = inl (refl, k)
        by_result (err e) k = inl (refl, k)

    pub on_operation_success-Step :
        (s : Store)
        → Marks cert_id u s.certificates
        → Step cert_id u now (on_operation_success db cert op now s)
    unfolding on_operation_success execute recover noted try_record_operation_recovery
    on_operation_success-Step s m = by_groups cert.notify_group_ids
      where
        by_groups :
            (groups : List String)
            → Step cert_id u now (
                (if elim groups as (λ _. Bool) [ [] ↦ true | _ ∷ _ ↦ false ]
                    then (λ s. (s, ok []))
                    else recover
                        (try_record_operation_recovery db cert.id now)
                        (claimed_notice (operation_payload operation_recovered cert op "" now)))
                  s)
        by_groups [] = inl (refl, m)
        by_groups (g ∷ gs) =
            recovered-Step s _ (try_record-Tried db (failing cert.id) recovered now s) m
