-- ===== src/Probe/Run.antt =====
-- The attempts of a probe: `Run` and `runOnce` in internal/probe/probe.go. Each attempt has a network of
-- its own, with its timeout in it.
use neo_line.Prelude.{
  subst, ◌⊎◌, ℕ, zero, suc, ◌+◌, ◌-◌, ◌/◌, ◌≤◌, ◌<◌, ◌≡◌, refl, Bool, true, false, not, ◌||◌, ◌==◌,
  if◌then◌else◌, arith, Bool-cases, inl, inr,
}
use neo_line.Monitoring.Types.{Monitor, CheckResult}
use neo_line.Probe.Types.{Outcome, Network, no_outcome}
use neo_line.Probe.Kinds.{probe_url, probe_tls_port, probe_tcp}

unfoldable pub run_once : Network → Monitor → Outcome
run_once net m =
    if m.kind == "url" || m.kind == "http" || m.kind == "https"
    then probe_url net m
    else if m.kind == "tls" || m.kind == "tls_port" || m.kind == "tls_certificate"
    then probe_tls_port net m
    else probe_tcp net m

-- The rest of the loop from attempt `i`: the attempts left, whether the context is over after each, and
-- the last outcome.
unfoldable pub attempt_loop : (ℕ → Outcome) → (ℕ → Bool) → ℕ → ℕ → Outcome → Outcome
attempt_loop once cancelled i zero last = last
attempt_loop once cancelled i (suc left) last =
    let rest = attempt_loop once cancelled (i + 1) left (once i) in
    if not ((once i).status == "Down") then once i else if cancelled i then once i else rest

-- `int(m.Retries) + 1`, which no uint32 takes below 1.
unfoldable pub run_attempts : (ℕ → Network) → (ℕ → Bool) → Monitor → Outcome
unfolding run_once attempt_loop
run_attempts net cancelled m =
    attempt_loop (λ i. run_once (net i) m) cancelled 0 (m.retries + 1) no_outcome

unfoldable pub run : (ℕ → Network) → (ℕ → Bool) → ℕ → ℕ → Monitor → CheckResult
unfolding run_attempts
run net cancelled started ended m =
    let last = run_attempts net cancelled m in
    record {
      id = "";
      server_id = m.server_id;
      monitor_id = m.id;
      status = last.status;
      started_at = started;
      ended_at = ended;
      duration_ms = (ended - started) / 1000000;
      error_stage = last.stage;
      error_message = last.err_msg;
      remote_address = last.remote_address;
      port = last.port;
      http_status_code = last.http_code;
      certificate = last.certificate;
    }

-- The attempt that a loop from attempt `i` ends with.
pub record IsLast (once : ℕ → Outcome) (cancelled : ℕ → Bool) (i bound : ℕ) (o : Outcome)
    : Type 0 where
  attempt : ℕ
  from : i ≤ attempt
  before : attempt < bound
  outcome : o ≡ once attempt
  retried : (j : ℕ) → i ≤ j → j < attempt → ((once j).status == "Down") ≡ true
  going_on : (j : ℕ) → i ≤ j → j < attempt → cancelled j ≡ false
  ended :
      ((once attempt).status == "Down") ≡ true → (cancelled attempt ≡ true) ⊎ (attempt + 1 ≡ bound)

module _ (once : ℕ → Outcome) (cancelled : ℕ → Bool) where
  ends-here :
      (i bound : ℕ) (o : Outcome)
      → i < bound
      → o ≡ once i
      → (((once i).status == "Down") ≡ true → (cancelled i ≡ true) ⊎ (i + 1 ≡ bound))
      → IsLast once cancelled i bound o
  ends-here i bound o b e c = record {
    attempt = i;
    from = omega arith;
    before = b;
    outcome = e;
    retried = λ j l h. ground arith;
    going_on = λ j l h. ground arith;
    ended = c;
  }

  same-or-later : (i j : ℕ) → i ≤ j → (i ≡ j) ⊎ (i + 1 ≤ j)
  same-or-later i j l = ground arith

  goes-on :
      (i bound : ℕ) (o : Outcome)
      → ((once i).status == "Down") ≡ true
      → cancelled i ≡ false
      → IsLast once cancelled (i + 1) bound o
      → IsLast once cancelled i bound o
  goes-on i bound o d c r = record {
    attempt = r.attempt;
    from = omega (arith, r.from);
    before = r.before;
    outcome = r.outcome;
    retried = λ j l h. elim (same-or-later i j l) [
      | inl e ↦ subst (λ k. ((once k).status == "Down") ≡ true) e d
      | inr k ↦ r.retried j k h
    ];
    going_on = λ j l h. elim (same-or-later i j l) [
      | inl e ↦ subst (λ k. cancelled k ≡ false) e c
      | inr k ↦ r.going_on j k h
    ];
    ended = r.ended;
  }

  attempted :
      (i bound : ℕ) (rest : Outcome)
      → i < bound
      → (((once i).status == "Down") ≡ true
          → cancelled i ≡ false
          → IsLast once cancelled i bound rest)
      → IsLast once cancelled i bound
          (if not ((once i).status == "Down") then once i else if cancelled i then once i else rest)
  attempted i bound rest l k = elim (Bool-cases ((once i).status == "Down")) [
    | inl d ↦ elim (Bool-cases (cancelled i)) [
      | inl c ↦ rw (d, c) (ends-here i bound (once i) l refl λ _. inl c)
      | inr c ↦ rw (d, c) (k d c)
    ]
    | inr d ↦ rw d (ends-here i bound (once i) l refl λ e. cc (d, e))
  ]

  attempt_loop-IsLast :
      (i left : ℕ) (last : Outcome)
      → IsLast once cancelled i (i + suc left) (attempt_loop once cancelled i (suc left) last)
  unfolding attempt_loop
  attempt_loop-IsLast i zero last =
      attempted i (i + 1) (once i) (omega arith)
        λ d c. ends-here i (i + 1) (once i) (omega arith) refl λ _. inr refl
  attempt_loop-IsLast i (suc n) last =
      let rest = attempt_loop once cancelled (i + 1) (suc n) (once i) in
      let bounds : i + 1 + suc n ≡ i + suc (suc n) = omega arith in
      let later =
        subst (λ b. IsLast once cancelled (i + 1) b rest) bounds
          (attempt_loop-IsLast (i + 1) n (once i)) in
      attempted i (i + suc (suc n)) rest (omega arith)
        λ d c. goes-on i (i + suc (suc n)) rest d c later

-- A check makes one attempt more than the monitor's retries at most and reports the outcome of the last
-- it makes: all before it are Down with the context still good, and where the last is Down too, the
-- context is over or no attempt is left.
pub run_attempts-IsLast :
    (net : ℕ → Network) (cancelled : ℕ → Bool) (m : Monitor)
    → IsLast (λ i. run_once (net i) m) cancelled 0 (m.retries + 1) (run_attempts net cancelled m)
unfolding run_attempts
run_attempts-IsLast net cancelled m =
    let once = λ (i : ℕ). run_once (net i) m in
    let n = suc m.retries in
    let ends =
      λ (b k : ℕ). IsLast once cancelled 0 b (attempt_loop once cancelled 0 k no_outcome) in
    let from_zero : 0 + n ≡ n = omega arith in
    let budget : n ≡ m.retries + 1 = omega arith in
    subst (λ k. ends k k) budget
      (subst (λ b. ends b n) from_zero (attempt_loop-IsLast once cancelled 0 m.retries no_outcome))
