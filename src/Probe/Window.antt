-- ===== src/Probe/Window.antt =====
-- What a certificate's window leads to.
use neo_line.Prelude.{
  ap, ◌∙◌, ℕ, ◌-◌, ◌/◌, ◌^◌, ◌≤◌, ◌<◌, ◌≡◌, refl, Bool, true, false, ◌||◌, ltb, leb, nat_beq,
  if◌then◌else◌, arith,
}
use neo_line.Monitoring.Types.{Monitor}
use neo_line.Monitoring.Status.{Status, healthy, warning, critical, down, text, normalize_status}
use neo_line.Monitoring.Health.{severity, normalize_status-text}
use neo_line.Probe.Types.{PeerCertificate}
use neo_line.Probe.Kinds.{
  days_until, int32_leb, certificate_info, certificate_status, nanoseconds_per_day,
}

abbrev threshold : ℕ → ℕ → ℕ
threshold given default = if nat_beq given 0 then default else given

-- The status by the whole days left.
abbrev pub by_days_left : Monitor → ℕ → Status
by_days_left m days =
    if leb days (threshold m.critical_days 7)
    then critical
    else if leb days (threshold m.warning_days 21)
    then warning
    else healthy

days_until-small : (now t : ℕ) → now ≤ t → days_until now t < 2 ^ 31
unfolding days_until
days_until-small now t l = ground arith

days_until-lem :
    (now t : ℕ) → now ≤ t → t < 2 ^ 63 → days_until now t ≡ (t - now) / nanoseconds_per_day
unfolding days_until
days_until-lem now t l b = ground arith

int32_leb-small : (a b : ℕ) → a < 2 ^ 31 → b < 2 ^ 31 → int32_leb a b ≡ leb a b
unfolding int32_leb
int32_leb-small a b k l = ground arith

status_choice :
    (outside : Bool) (c w c' w' : Bool)
    → (outside ≡ false → (c ≡ c') × (w ≡ w'))
    → (if outside then "Down" else if c then "Critical" else if w then "Warning" else "Healthy") ≡ (
        if outside then "Down" else text (if c' then critical else if w' then warning else healthy))
status_choice true c w c' w' h = refl
status_choice false true w true w' h = refl
status_choice false false true false true h = refl
status_choice false false false false false h = refl
status_choice false true w false w' h = cc (h refl).0
status_choice false false w true w' h = cc (h refl).0
status_choice false false true false false h = cc (h refl).1
status_choice false false false false true h = cc (h refl).1

-- The test of a threshold without the casts.
threshold-leb :
    (now t given default : ℕ)
    → now ≤ t
    → t < 2 ^ 63
    → given < 2 ^ 31
    → default < 2 ^ 31
    → int32_leb (days_until now t) (threshold given default)
      ≡ leb ((t - now) / nanoseconds_per_day) (threshold given default)
threshold-leb now t given default l b g d =
    let bound : threshold given default < 2 ^ 31 = ground arith in
    int32_leb-small (days_until now t) (threshold given default) (days_until-small now t l) bound
    ∙ ap (λ n. leb n (threshold given default)) (days_until-lem now t l b)

-- Read at one instant, with thresholds that an int32 holds and a time that nanoseconds hold, the 32-bit
-- arithmetic does not show: a certificate is Down outside its window, and within it the status is that
-- of the whole days left under the thresholds, of which 0 stands for 21 and 7 days.
pub certificate_status-by_days :
    (now : ℕ) (cert : PeerCertificate) (m : Monitor)
    → m.warning_days < 2 ^ 31
    → m.critical_days < 2 ^ 31
    → cert.not_after < 2 ^ 63
    → certificate_status now cert m (certificate_info now cert) ≡ (
        if ltb now cert.not_before || ltb cert.not_after now
        then "Down"
        else text (by_days_left m ((cert.not_after - now) / nanoseconds_per_day)))
unfolding certificate_status certificate_info
certificate_status-by_days now cert m w c a =
    status_choice (ltb now cert.not_before || ltb cert.not_after now) _ _ _ _ λ o.
      let inside : now ≤ cert.not_after = ground arith in
      (
        threshold-leb now cert.not_after m.critical_days 7 inside a c (omega arith),
        threshold-leb now cert.not_after m.warning_days 21 inside a w (omega arith),
      )

severity_choice :
    (outside : Bool) (s : Status)
    → severity (normalize_status (if outside then "Down" else text s))
      ≡ (if outside then 4 else severity s)
severity_choice true s = ap severity (normalize_status-text down)
severity_choice false s = ap severity (normalize_status-text s)

-- From the start of its window on, a certificate's status never gets better as time passes.
pub certificate_status_mono :
    (now later : ℕ) (cert : PeerCertificate) (m : Monitor)
    → m.warning_days < 2 ^ 31
    → m.critical_days < 2 ^ 31
    → cert.not_after < 2 ^ 63
    → cert.not_before ≤ now
    → now ≤ later
    → severity (normalize_status (certificate_status now cert m (certificate_info now cert)))
      ≤ severity (normalize_status (certificate_status later cert m (certificate_info later cert)))
certificate_status_mono now later cert m w c a b l =
    rw (certificate_status-by_days now cert m w c a, certificate_status-by_days later cert m w c a)
      (rw
        (
          severity_choice (ltb now cert.not_before || ltb cert.not_after now) _,
          severity_choice (ltb later cert.not_before || ltb cert.not_after later) _,
        )
        (ground arith))
