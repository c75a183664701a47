-- ===== src/Certificates/Advances.antt =====
-- What a change of one operation keeps: the life of an operation, as the lease functions and the
-- changes of versions move it.
use neo_line.Prelude.{ℕ, ◌≤◌, ◌≡◌, true, false, String, none, arith, is_some, get_or}
use neo_line.Certificates.Types.{
  CertificateOperation, DnsChallengeRecord, null, in_flight, is_running,
}
use neo_line.Certificates.Operations.{claimable}
use neo_line.Certificates.Lease.{
  ClaimParams, claimed, claims, owned_by, renewable, renewed, presented, rescheduled, ended,
  txt_cleared, expired, add_to_set,
}
use neo_line.Certificates.Versions.{completed, revocation_completed}

-- A document as the program writes it: only a running operation has a lease, it has been started
-- and has not finished, and a terminal one has its time of finishing.
pub record IsFormed (x : CertificateOperation) : Type 0 where
  pub released : is_running x.status ≡ false → (x.lease_owner ≡ "") × (x.lease_expires_at ≡ none)
  pub leased :
      is_running x.status ≡ true
      → (is_some x.lease_expires_at ≡ true)
        × (is_some x.started_at ≡ true)
        × (1 ≤ x.attempt_count)
        × (x.finished_at ≡ none)
  pub finished : in_flight x.status ≡ false → is_some x.finished_at ≡ true

pub record Advances (x y : CertificateOperation) : Type 0 where
  pub same_id : y.id ≡ x.id
  pub same_certificate : y.managed_certificate_id ≡ x.managed_certificate_id
  pub same_kind : y.kind ≡ x.kind
  pub same_deadline : y.deadline_at ≡ x.deadline_at
  pub same_created : y.created_at ≡ x.created_at
  pub attempts_grow : x.attempt_count ≤ y.attempt_count
  pub started_once : is_some x.started_at ≡ true → y.started_at ≡ x.started_at
  pub in_flight_before : in_flight y.status ≡ true → in_flight x.status ≡ true
  pub terminal_kept :
      in_flight x.status ≡ false
      → (y.status ≡ x.status)
        × (y.finished_at ≡ x.finished_at)
        × (y.error_summary ≡ x.error_summary)
        × (y.attempt_count ≡ x.attempt_count)
  pub null_kept : x.pending_txt_records ≡ null → y.pending_txt_records ≡ null
  pub stays_formed : IsFormed x → IsFormed y

pub Advances-refl : (x : CertificateOperation) → Advances x x
Advances-refl x = ground arith

pub claimed-Advances :
    (p : ClaimParams) (x : CertificateOperation) → claims p x ≡ true → Advances x (claimed p x)
unfolding claimed claims claimable
claimed-Advances p x h = ground arith

pub renewed-Advances :
    (op_id owner : String) (now t n : ℕ) (x : CertificateOperation)
    → renewable op_id owner now x ≡ true
    → Advances x (renewed t n x)
unfolding renewable owned_by renewed
renewed-Advances op_id owner now t n x h = ground arith

module _ (op_id owner : String) (x : CertificateOperation)
    (owned : owned_by op_id owner x ≡ true) where
  pub rescheduled-Advances : (t n now : ℕ) (e : String) → Advances x (rescheduled t e n now x)
  unfolding owned_by rescheduled
  rescheduled-Advances t n now e = ground (arith, owned)

  pub ended-Advances : (e : String) (now : ℕ) → Advances x (ended e now x)
  unfolding owned_by ended
  ended-Advances e now = ground (arith, owned)

  pub completed-Advances : (w : String) (now : ℕ) → Advances x (completed w now x)
  unfolding owned_by completed
  completed-Advances w now = ground (arith, owned)

  pub revocation_completed-Advances : (now : ℕ) → Advances x (revocation_completed now x)
  unfolding owned_by revocation_completed
  revocation_completed-Advances now = ground (arith, owned)

pub expired-Advances :
    (now t : ℕ) (e : String) (x : CertificateOperation)
    → expired now x ≡ true
    → Advances x (ended e t x)
unfolding expired ended
expired-Advances now t e x h = ground arith

pub txt_cleared-Advances : (now : ℕ) (x : CertificateOperation) → Advances x (txt_cleared now x)
unfolding txt_cleared
txt_cleared-Advances now x = ground arith

pub presented-Advances :
    (r : DnsChallengeRecord) (now : ℕ) (x : CertificateOperation)
    → Advances x (get_or (presented r now x) x)
unfolding presented add_to_set
presented-Advances r now x = ground arith

pub Advances-trans : (x y z : CertificateOperation) → Advances x y → Advances y z → Advances x z
Advances-trans x y z a b = ground arith
