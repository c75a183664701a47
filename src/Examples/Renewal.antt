-- ===== src/Examples/Renewal.antt =====
-- The delays of the retries and the life of a version, at concrete inputs.
use neo_line.Prelude.{
  ℕ, ◌+◌, ◌*◌, ◌≤◌, ◌<◌, ◌≡◌, ◌↔◌, refl, min, ◌^◌, false, String, some, List, [], ◌∷◌, arith, Error,
  external, issuer_not_ready,
}
use neo_line.Certificates.Operations.{second, prepared}
use neo_line.Certificates.Commands.{new_operation}
use neo_line.Manager.Retry.{
  operation_retry_initial, operation_retry_max, double_delay, compute_retry_delay, ends, retries,
  failure_verdict, operation_deadline_exceeded, is_permanent_operation_error,
}
use neo_line.Manager.Backoff.{compute_retry_delay_lem, failure_verdict-retries}
use neo_line.CertState.{
  renewal_due, expired, day, pos, negsuc, int64, less_than, before, version_distributable,
  effective_renewal_window, compute_version_validity, next_renewal_at,
}
use neo_line.CertState.Timeline.{
  phase, effective_renewal_window_bounds, phase_mono, next_renewal_at-due,
}
use neo_line.Examples.Data.{waiting, version}

abbrev no_jitter : ℕ → ℕ
no_jitter _ = 0

abbrev sanitized : Error → String
sanitized _ = "failed"

-- Four failures: two hours.
fourth_delay : compute_retry_delay 4 no_jitter ≡ 2 * 3600 * second
unfolding compute_retry_delay double_delay
fourth_delay = refl

compute_retry_delay_lem_example :
    compute_retry_delay 4 no_jitter ≡ min (operation_retry_initial * 2 ^ 3) operation_retry_max + 0
compute_retry_delay_lem_example = compute_retry_delay_lem 4 no_jitter

abbrev retry_at : ℕ
retry_at = 500 + 900 * second

retried :
    failure_verdict no_jitter sanitized waiting (external 1) 400 500 ≡ retries retry_at "failed" 1
unfolding failure_verdict compute_retry_delay double_delay operation_deadline_exceeded
    is_permanent_operation_error prepared new_operation
retried = refl

few_failures : waiting.consecutive_failures + 1 < 2 ^ 32
unfolding prepared new_operation
few_failures = omega arith

failure_verdict-retries_example :
    (is_permanent_operation_error (external 1) ≡ false)
    × (operation_deadline_exceeded waiting 400 ≡ false)
    × (operation_deadline_exceeded waiting retry_at ≡ false)
    × (500 + operation_retry_initial ≤ retry_at)
    × (1 ≡ waiting.consecutive_failures + 1)
failure_verdict-retries_example =
    failure_verdict-retries no_jitter sanitized waiting (external 1) 400 500 retry_at 1 "failed"
      few_failures retried

ended_at_once : failure_verdict no_jitter sanitized waiting issuer_not_ready 400 500 ≡ ends "failed"
unfolding failure_verdict compute_retry_delay double_delay operation_deadline_exceeded
    is_permanent_operation_error prepared new_operation
ended_at_once = refl

-- Thirty days are configured for a certificate of ninety, and for one of six days two are left.
effective_renewal_window_bounds_example :
    (w : ℕ) × (effective_renewal_window 0 (6 * day) 30 ≡ pos w) × (w ≤ 30 * day) × (3 * w ≤ 6 * day)
effective_renewal_window_bounds_example =
    effective_renewal_window_bounds 0 (6 * day) 30 (omega arith) (omega arith)

-- Of so many days the product is negative.
wrapped : effective_renewal_window 0 (90 * day) 200000 ≡ negsuc 1166744073709551615
unfolding effective_renewal_window int64 less_than
wrapped = refl

phase_mono_example :
    phase (compute_version_validity (some version) 30 (10 * day)).0
    ≤ phase (compute_version_validity (some version) 30 (70 * day)).0
phase_mono_example = phase_mono version 30 (10 * day) (70 * day) (omega arith)

next_renewal : next_renewal_at (some version) 30 ≡ some (60 * day)
unfolding next_renewal_at version_distributable effective_renewal_window before int64 less_than
next_renewal = refl

next_renewal_at-due_example :
    let validity = (compute_version_validity (some version) 30 (61 * day)).0 in
    ((validity ≡ renewal_due) ↔ ((60 * day ≤ 61 * day) × (61 * day ≤ 90 * day)))
    × ((validity ≡ expired) ↔ (90 * day < 61 * day))
next_renewal_at-due_example =
    next_renewal_at-due version 30 (61 * day) (60 * day) (omega arith) next_renewal

abbrev wanted : List String
wanted = "a.example" ∷ []

abbrev active : List String
active = "b.example" ∷ []
