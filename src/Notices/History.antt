-- ===== src/Notices/History.antt =====
-- Any sequence of the dispatcher's calls, and the notices of failure of one certificate in it.
use neo_line.Prelude.{
  ℕ, ◌≤◌, ◌≡◌, refl, Bool, true, inl, inr, String, Option, none, some, List, [], ◌∷◌, ◌++◌, Result,
  ok, arith, count_if, All,
}
use neo_line.Certificates.Types.{CertificateOperation, ManagedCertificate, Database}
use neo_line.Certificates.Store.{Store}
use neo_line.Certificates.Versions.{has_certificate_id}
use neo_line.Notices.Records.{
  failing, marked, try_record_seven_day_reminder, try_record_expired_notification,
}
use neo_line.Notices.Dispatch.{Payload, on_operation_failure, on_operation_success}
use neo_line.Notices.Marks.{Marks, Good, Past, Far}
use neo_line.Notices.Spacing.{try_record-Marks, try_record-Tried}
use neo_line.Notices.Calls.{noted, sent, Step, on_operation_failure-Step, on_operation_success-Step}

-- The outcome of an operation is told to the dispatcher, or a scan claims one of its two markers.
pub data NoticeCall : Type 0 where
  fails : ManagedCertificate → CertificateOperation → String → ℕ → NoticeCall
  succeeds : ManagedCertificate → CertificateOperation → ℕ → NoticeCall
  marks_seven_day marks_expired : String → String → ℕ → NoticeCall

abbrev call_time : NoticeCall → ℕ
call_time (fails cert op summary now) = now
call_time (succeeds cert op now) = now
call_time (marks_seven_day cert_id version_id now) = now
call_time (marks_expired cert_id version_id now) = now

-- Calls in the order of their times, none before `prev`.
abbrev pub Clocked : ℕ → List NoticeCall → Type 0
Clocked prev [] = Unit
Clocked prev (c ∷ cs) = (prev ≤ call_time c) × Clocked (call_time c) cs

-- Each reminder is a day after the notice before it, if there was one.
abbrev pub DailyReminders : Option ℕ → List (Bool × ℕ) → Type 0
DailyReminders u [] = Unit
DailyReminders u (n ∷ ns) = (n.0 ≡ true → Far u n.1) × DailyReminders (some n.1) ns

module _ (db : Database) where
  unfoldable pub serve_notice : NoticeCall → Store → Store × Result (List Payload)
  serve_notice (fails cert op summary now) s = on_operation_failure db cert op summary now s
  serve_notice (succeeds cert op now) s = on_operation_success db cert op now s
  serve_notice (marks_seven_day cert_id version_id now) s =
      ((try_record_seven_day_reminder db cert_id version_id now s).0, ok [])
  serve_notice (marks_expired cert_id version_id now) s =
      ((try_record_expired_notification db cert_id version_id now s).0, ok [])

  unfoldable pub failure_notices : String → List NoticeCall → Store → List (Bool × ℕ)
  unfolding noted serve_notice
  failure_notices cert_id [] s = []
  failure_notices cert_id (c ∷ cs) s =
      let r = serve_notice c s in noted cert_id (sent r) ++ failure_notices cert_id cs r.0

  -- A marker of a version leaves those of a failure.
  version_marked-Good :
      (cert_id : String) (u : Option ℕ) (now : ℕ) (version_id : String) (c : ManagedCertificate)
      → Good cert_id u c
      → Good cert_id u
          (marked (λ st. record st { seven_day_reminder_version_id = version_id }) now c)
        × Good cert_id u
            (marked (λ st. record st { expired_notified_version_id = version_id }) now c)
  unfolding marked failing has_certificate_id
  version_marked-Good cert_id u now version_id c k = ((λ e. k e), (λ e. k e))

  serve_notice-Step :
      (cert_id : String) (u : Option ℕ) (c : NoticeCall) (s : Store)
      → Past u (call_time c)
      → Marks cert_id u s.certificates
      → Step cert_id u (call_time c) (serve_notice c s)
  unfolding serve_notice noted try_record_seven_day_reminder try_record_expired_notification
  serve_notice-Step cert_id u (fails cert op summary now) s past m =
      on_operation_failure-Step db cert_id u now past cert op summary s m
  serve_notice-Step cert_id u (succeeds cert op now) s past m =
      on_operation_success-Step db cert_id u now past cert op "" s m
  serve_notice-Step cert_id u (marks_seven_day id version_id now) s past m = inl (
    refl,
    try_record-Marks db cert_id u now _ _ s _
        (λ x _ k. (version_marked-Good cert_id u now version_id x k).0)
        (try_record-Tried db _ _ now s) m,
  )
  serve_notice-Step cert_id u (marks_expired id version_id now) s past m = inl (
    refl,
    try_record-Marks db cert_id u now _ _ s _
        (λ x _ k. (version_marked-Good cert_id u now version_id x k).1)
        (try_record-Tried db _ _ now s) m,
  )

  still-Past : (u : Option ℕ) (prev now : ℕ) → prev ≤ now → Past u prev → Past u now
  still-Past none prev now h p = tt
  still-Past (some t) prev now h p = omega arith

  DailyReminders-after :
      (cert_id : String) (u : Option ℕ) (prev : ℕ) (calls : List NoticeCall) (s : Store)
      → Past u prev
      → Clocked prev calls
      → Marks cert_id u s.certificates
      → DailyReminders u (failure_notices cert_id calls s)
  unfolding failure_notices
  DailyReminders-after cert_id u prev [] s past clock m = tt
  DailyReminders-after cert_id u prev (c ∷ cs) s past (later, clock) m =
      let now_past = still-Past u prev (call_time c) later past in
      elim (serve_notice-Step cert_id u c s now_past m) [
        | inl h ↦ rw h.0 (DailyReminders-after cert_id u (call_time c) cs _ now_past clock h.1)
        | inr (b, e, far, k) ↦ rw e (
          far,
          DailyReminders-after cert_id (some (call_time c)) (call_time c) cs _ (omega arith) clock
              k,
        )
      ]

  -- Where no two certificates share the id and the clock does not go back, every reminder of a failure is
  -- sent at least 24 hours after the notice of failure, or the reminder, that was sent before it for that
  -- certificate, also where the database fails or loses a reply. A call of the dispatcher, with its two
  -- conditional updates, is one step here.
  pub failure_notices-DailyReminders :
      (cert_id : String) (calls : List NoticeCall) (s : Store)
      → count_if (has_certificate_id cert_id) s.certificates ≤ 1
      → Clocked 0 calls
      → DailyReminders none (failure_notices cert_id calls s)
  failure_notices-DailyReminders cert_id calls s one clock =
      DailyReminders-after cert_id none 0 calls s tt clock (one, unbounded s.certificates)
    where
      unbounded : (certs : List ManagedCertificate) → All (Good cert_id none) certs
      unbounded [] = tt
      unbounded (c ∷ certs) = ((λ e. tt), unbounded certs)
