-- ===== src/Manager/Runner.antt =====
-- The runner of operations in internal/certmanager/operation_lease.go: the poll, one run of an operation
-- by a replica, and the cleanup at a takeover. The heartbeat that runs beside an attempt is a sequence of
-- calls of `renew_lease`, and what notifications do with the outcome is not part of these methods.
use neo_line.Prelude.{
  ℕ, ◌+◌, Bool, true, false, not, ◌&&◌, String, List, [], ◌∷◌, ltb, leb, if◌then◌else◌, Result, ok,
  err, take, map, select,
}
use neo_line.Certificates.Types.{CertificateOperation, DnsChallengeRecord, records, Database}
use neo_line.Certificates.Store.{from, Method, return, read_operations, ◌>>=◌, ◌>>◌}
use neo_line.Certificates.Operations.{claimable, default_operation_lease_duration}
use neo_line.Certificates.Lease.{ClaimParams, try_claim, fail_expired, clear_pending_txt}
use neo_line.Manager.Retry.{
  attempt, operation_deadline_exceeded, handle_operation_failure, fail_operation_deadline_exceeded,
}
use neo_line.Manager.Outside.{DnsProvider, Outside, get_dns_provider_account, new_provider}
use neo_line.Manager.Execute.{execute_operation}

-- A call whose error is handled: what follows it has the result.
unfoldable pub recover : {A B : Type 0} → Method A → (Result A → Method B) → Method B
recover m k s = let (t, r) = m s in k r t

-- The end of a run: the claim failed, the deadline had passed, or the attempt's warning or summary.
pub data Attempted : Type 0 where
  not_claimed timed_out : Attempted
  succeeded_with failed_with : String → Attempted

abbrev pub pending_records : CertificateOperation → List DnsChallengeRecord
pending_records op = elim op.pending_txt_records [ records rs ↦ rs | _ ↦ [] ]

abbrev has_records : List DnsChallengeRecord → Bool
has_records [] = false
has_records (r ∷ rs) = true

unfoldable pub insert_oldest :
    CertificateOperation → List CertificateOperation → List CertificateOperation
insert_oldest x [] = x ∷ []
insert_oldest x (y ∷ ys) =
    let rest = insert_oldest x ys in if leb x.created_at y.created_at then x ∷ y ∷ ys else y ∷ rest

-- The sort of the query, by `created_at`.
unfoldable pub oldest_first : List CertificateOperation → List CertificateOperation
unfolding insert_oldest
oldest_first [] = []
oldest_first (x ∷ xs) = insert_oldest x (oldest_first xs)

-- Those that a poll triggers, of the operations that it found.
unfoldable pub triggered : ℕ → List CertificateOperation → List String
unfolding operation_deadline_exceeded
triggered now ops = map (λ op. op.id) (select (λ op. not (operation_deadline_exceeded op now)) ops)

module _ (db : Database) where
  open db use {operations}

  unfoldable pub find_claimable : ℕ → ℕ → Method (List CertificateOperation)
  unfolding oldest_first
  find_claimable now limit = do
    found ← read_operations (operations.find (claimable now))
    return (take limit (oldest_first found))

  unfoldable pub trigger_found : ℕ → Result (List CertificateOperation) → Method (List String)
  unfolding triggered
  trigger_found now (ok ops) = return (triggered now ops)
  trigger_found now (err e) = return []

  -- The result is the operations to trigger.
  unfoldable pub poll_claimable_operations : ℕ → Method (List String)
  unfolding find_claimable trigger_found
  poll_claimable_operations now = do
    attempt (fail_expired db now)
    recover (find_claimable now 20) (trigger_found now)

  unfoldable pub clean_with :
      Outside → CertificateOperation → Result DnsProvider → Method (List DnsChallengeRecord)
  clean_with o op (err e) = return []
  clean_with o op (ok provider) =
      attempt (clear_pending_txt db op.id o.cleared_at) >> return (pending_records op)

  -- The result is the records that the provider is asked to remove, whatever it answers.
  unfoldable pub cleanup_pending_txt :
      Outside → CertificateOperation → Method (List DnsChallengeRecord)
  unfolding clean_with
  cleanup_pending_txt o op =
      recover
        (do
          account ← from (get_dns_provider_account o op.config_snapshot.dns_provider_account_id)
          from (new_provider o account))
        (clean_with o op)

  unfoldable pub conclude :
      Outside → String → CertificateOperation → Result String → Method Attempted
  conclude o replica op (ok warning) = return (succeeded_with warning)
  conclude o replica op (err e) = do
    summary ←
        handle_operation_failure db replica o.jitter o.sanitize op e o.failed_at o.retried_at
          o.ended_at
    return (failed_with summary)

  -- The attempt itself.
  unfoldable pub make_attempt : Outside → String → CertificateOperation → Method Attempted
  unfolding conclude
  make_attempt o replica op = recover (execute_operation db o op replica) (conclude o replica op)

  unfoldable pub run_claimed : Outside → String → CertificateOperation → Method Attempted
  unfolding make_attempt cleanup_pending_txt operation_deadline_exceeded
  run_claimed o replica op =
      if operation_deadline_exceeded op o.claimed_at
      then (fail_operation_deadline_exceeded db replica op o.ended_at >>= λ _. return timed_out)
      else if ltb 1 op.attempt_count && has_records (pending_records op)
      then (cleanup_pending_txt o op >>= λ _. make_attempt o replica op)
      else make_attempt o replica op

  unfoldable pub claim_params : Outside → String → String → ClaimParams
  claim_params o replica op_id = record {
    op_id = op_id;
    owner = replica;
    now = o.claimed_at;
    lease_expires = o.claimed_at + default_operation_lease_duration;
  }

  unfoldable pub after_claim : Outside → String → Result CertificateOperation → Method Attempted
  unfolding run_claimed
  after_claim o replica (ok op) = run_claimed o replica op
  after_claim o replica (err e) = return not_claimed

  unfoldable pub run_operation : Outside → String → String → Method Attempted
  unfolding after_claim claim_params
  run_operation o replica op_id =
      recover (try_claim db (claim_params o replica op_id)) (after_claim o replica)
