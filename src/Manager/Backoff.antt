-- ===== src/Manager/Backoff.antt =====
-- The delays between attempts, and the end of the attempts.
use neo_line.Prelude.{
  ℕ, zero, suc, ◌+◌, ◌-◌, ◌*◌, ◌%◌, ◌^◌, ◌≤◌, ◌<◌, ◌≡◌, ap, ◌∙◌, min, false, String, ltb, leb,
  nat_beq, if◌then◌else◌, Error, arith, inl, inr, Bool-cases,
}
use neo_line.Certificates.Types.{CertificateOperation}
use native.Mathlib.Nat.{pow-suc}
use neo_line.Manager.Retry.{
  operation_retry_initial, operation_retry_max, double_delay, compute_retry_delay, retries,
  failure_verdict, operation_deadline_exceeded, is_permanent_operation_error,
}

pow_pos : (n : ℕ) → 1 ≤ 2 ^ n
pow_pos zero = omega arith
pow_pos (suc n) = rw pow-suc (omega (arith, pow_pos n))

-- The loop stops doubling once it has reached the maximum.
double_delay-min :
    (n d : ℕ) → min (double_delay n d) operation_retry_max ≡ min (d * 2 ^ n) operation_retry_max
unfolding double_delay
double_delay-min zero d = omega arith
double_delay-min (suc n) d = elim (Bool-cases (leb operation_retry_max d)) [
  | inl e ↦
      let reached : operation_retry_max ≤ d = ground arith in
      let grown : d ≤ d * 2 ^ suc n = grind (arith, pow_pos (suc n)) in rw e (omega arith)
  | inr e ↦
      let regrouped : d * 2 ^ suc n ≡ d * 2 * 2 ^ n = rw pow-suc (grind arith) in
      rw (e, regrouped) (double_delay-min n (d * 2))
]

-- The delay before a retry is 15 minutes, doubled with every failure after the first and never more
-- than 12 hours, with the jitter for that delay added.
pub compute_retry_delay_lem :
    (failures : ℕ) (jitter : ℕ → ℕ)
    → let delay = min (operation_retry_initial * 2 ^ (failures - 1)) operation_retry_max in
      compute_retry_delay failures jitter ≡ delay + jitter delay
unfolding compute_retry_delay
compute_retry_delay_lem failures jitter =
    let rounds : (if nat_beq failures 0 then 1 else failures) - 1 ≡ failures - 1 = ground arith in
    let doubled = double_delay-min (failures - 1) operation_retry_initial in
    ap (λ d. d + jitter d)
      (ap
          (λ n.
            let d = double_delay n operation_retry_initial in
            if ltb operation_retry_max d then operation_retry_max else d)
          rounds
        ∙ capped (double_delay (failures - 1) operation_retry_initial)
            (operation_retry_initial * 2 ^ (failures - 1)) doubled)
  where
    capped :
        (a b : ℕ)
        → min a operation_retry_max ≡ min b operation_retry_max
        → (if ltb operation_retry_max a then operation_retry_max else a) ≡ min b operation_retry_max
    capped a b h = ground arith

-- A retry is scheduled only after an error that is not permanent, before the deadline and for a time
-- before it, and never sooner than a quarter of an hour; the failure is counted.
pub failure_verdict-retries :
    (jitter : ℕ → ℕ) (sanitize : Error → String) (op : CertificateOperation) (e : Error)
    (now later t n : ℕ) (summary : String)
    → op.consecutive_failures + 1 < 2 ^ 32
    → failure_verdict jitter sanitize op e now later ≡ retries t summary n
    → (is_permanent_operation_error e ≡ false)
      × (operation_deadline_exceeded op now ≡ false)
      × (operation_deadline_exceeded op t ≡ false)
      × (later + operation_retry_initial ≤ t)
      × (n ≡ op.consecutive_failures + 1)
unfolding failure_verdict
failure_verdict-retries jitter sanitize op e now later t n summary fits h = ground (
  arith,
  compute_retry_delay_lem ((op.consecutive_failures + 1) % 2 ^ 32) jitter,
  pow_pos (((op.consecutive_failures + 1) % 2 ^ 32) - 1),
)
