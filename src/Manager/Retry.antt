-- ===== src/Manager/Retry.antt =====
-- internal/certmanager/operation_lease.go: the delay before a retry, and what is done with an attempt
-- that failed. Durations are nanoseconds; each reading of a clock is an argument.
use neo_line.Prelude.{
  ℕ, zero, suc, ◌+◌, ◌-◌, ◌*◌, ◌%◌, ◌^◌, Bool, true, false, ◌||◌, String, none, some, ltb, leb,
  nat_beq, if◌then◌else◌, ok, Error, issuer_not_ready, account_uri_required,
}
use neo_line.Certificates.Types.{CertificateOperation, Database}
use neo_line.Certificates.Store.{Method, return, ◌>>◌}
use neo_line.Certificates.Operations.{second}
use neo_line.Certificates.Lease.{mark_failed, schedule_retry, total_timeout_summary}

abbrev pub operation_retry_initial : ℕ
operation_retry_initial = 15 * 60 * second

abbrev pub operation_retry_max : ℕ
operation_retry_max = 12 * 3600 * second

-- The rounds of the loop, with its early exit.
unfoldable pub double_delay : ℕ → ℕ → ℕ
double_delay zero delay = delay
double_delay (suc n) delay =
    let rest = double_delay n (delay * 2) in
    if leb operation_retry_max delay then operation_retry_max else rest

unfoldable pub compute_retry_delay : ℕ → (ℕ → ℕ) → ℕ
compute_retry_delay consecutive_failures jitter =
    let failures = (if nat_beq consecutive_failures 0 then 1 else consecutive_failures) in
    let doubled = double_delay (failures - 1) operation_retry_initial in
    let delay = (if ltb operation_retry_max doubled then operation_retry_max else doubled) in
    delay + jitter delay

unfoldable pub is_permanent_operation_error : Error → Bool
is_permanent_operation_error issuer_not_ready = true
is_permanent_operation_error account_uri_required = true
is_permanent_operation_error _ = false

unfoldable pub operation_deadline_exceeded : CertificateOperation → ℕ → Bool
operation_deadline_exceeded op now = elim op.deadline_at [
  | none ↦ false
  | some deadline ↦ leb deadline now
]

-- What `handleOperationFailure` does with the operation: end it, or schedule the next attempt.
pub data Verdict : Type 0 where
  ends : String → Verdict
  retries : ℕ → String → ℕ → Verdict

-- `now` is read for the deadline, and `later` for the next attempt; the failures are a uint32.
unfoldable pub failure_verdict :
    (ℕ → ℕ) → (Error → String) → CertificateOperation → Error → ℕ → ℕ → Verdict
unfolding is_permanent_operation_error operation_deadline_exceeded
failure_verdict jitter sanitize op run_err now later =
    let exceeded = operation_deadline_exceeded op now in
    let failures = (op.consecutive_failures + 1) % 2 ^ 32 in
    let next_at = later + compute_retry_delay failures jitter in
    if is_permanent_operation_error run_err || exceeded
    then ends (if exceeded then total_timeout_summary else sanitize run_err)
    else if operation_deadline_exceeded op next_at
    then ends total_timeout_summary
    else retries next_at (sanitize run_err) failures

-- A call whose error is only logged.
unfoldable pub attempt : {A : Type 0} → Method A → Method (Unit {0})
attempt m s = ((m s).0, ok tt)

module _ (db : Database) where
  unfoldable pub carry_out : String → String → ℕ → Verdict → Method String
  carry_out op_id replica now (ends summary) = do
    attempt (mark_failed db op_id replica summary now)
    return summary
  carry_out op_id replica now (retries next_at summary failures) = do
    attempt (schedule_retry db op_id replica next_at summary failures now)
    return summary

  -- The result is the summary with which the failure is notified.
  unfoldable pub handle_operation_failure :
      String → (ℕ → ℕ) → (Error → String) → CertificateOperation → Error → ℕ → ℕ → ℕ → Method String
  unfolding carry_out
  handle_operation_failure replica jitter sanitize op run_err now later stored =
      carry_out op.id replica stored (failure_verdict jitter sanitize op run_err now later)

  unfoldable pub fail_operation_deadline_exceeded :
      String → CertificateOperation → ℕ → Method String
  fail_operation_deadline_exceeded replica op now = do
    attempt (mark_failed db op.id replica total_timeout_summary now)
    return total_timeout_summary
