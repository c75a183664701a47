-- ===== src/Manager/Follows.antt =====
-- The methods of the manager write only by the calls of Certificates/Commands, so that what holds after
-- every history of calls holds after them, also where those of several replicas are interleaved.
use neo_line.Certificates.Versions.{
  update_certificate, create_certificate, ManagedCertificateUpdate, activate_first_version,
  clear_version_revoke_pending, complete_revoke_version, activate_subsequent_version,
  mark_version_revoke_pending,
}
use neo_line.Certificates.Lease.{
  try_claim, mark_failed, renew_lease, schedule_retry, ClaimParams, clear_pending_txt, fail_expired,
}
use neo_line.Prelude.{
  if◌then◌else◌, sym, ℕ, ◌≡◌, refl, ap, ◌∙◌, Bool, true, false, String, List, [], ◌∷◌, ◌++◌, Result,
  ok, err, Error,
}
use neo_line.Certificates.Types.{
  CertificateOperation, CertificateVersion, ManagedCertificate, Database, OperationType,
  IssueConfigSnapshot,
}
use neo_line.Certificates.Store.{
  Store, Method, return, from, require, read_operations, read_certificates, execute, ◌>>=◌, ◌>>◌,
}
use neo_line.Certificates.Commands.{
  edits_certificate, claim, expires, completes_revoke, activates_next, clears_txt, fails,
  unmarks_revoke, activates_first, marks_revoke, schedules, creates, renews_lease, new_operation,
  creates_certificate, Command, run, step,
}
use neo_line.Certificates.Operations.{create_operation}
use neo_line.Manager.Retry.{attempt}
use neo_line.Manager.Submit.{optional}
use neo_line.Manager.Runner.{recover}

module _ (db : Database) where
  run-append : (cs ds : List Command) (s : Store) → run db (cs ++ ds) s ≡ run db ds (run db cs s)
  unfolding run
  run-append [] ds s = refl
  run-append (c ∷ cs) ds s = run-append cs ds (step db c s)

  -- From every state a method leaves the state that some sequence of calls leaves.
  pub record Follows {A : Type 0} (m : Method A) : Type 0 where
    pub history : (s : Store) → (cs : List Command) × ((m s).0 ≡ run db cs s)

  abbrev pub Reached : Store → Store → Type 0
  Reached s t = (cs : List Command) × (t ≡ run db cs s)

  pub Reached-refl : (s : Store) → Reached s s
  unfolding run
  Reached-refl s = ([], refl)

  pub Reached-trans : (s t u : Store) → Reached s t → Reached t u → Reached s u
  Reached-trans s t u (cs, h) (ds, k) = (cs ++ ds, k ∙ ap (run db ds) h ∙ sym (run-append cs ds s))

  then-Reached :
      {A B : Type 0} (f : A → Method B)
      → ((a : A) → Follows (f a))
      → (s : Store) (r : Store × Result A) → Reached s r.0
      → Reached s (◌>>=◌ (λ _. r) f s).0
  unfolding execute
  then-Reached f k s (t, ok a) h = Reached-trans s t (f a t).0 h ((k a).history t)
  then-Reached f k s (t, err e) h = h

  pub >>=-Follows :
      {A B : Type 0} (m : Method A) (f : A → Method B)
      → Follows m
      → ((a : A) → Follows (f a))
      → Follows (m >>= f)
  unfolding execute
  >>=-Follows m f h k = record { history = λ s. then-Reached f k s (m s) (h.history s) }

  pub >>-Follows :
      {B : Type 0} (m : Method (Unit {0})) (k : Method B) → Follows m → Follows k → Follows (m >> k)
  unfolding execute
  >>-Follows m k h j = >>=-Follows m (λ _. k) h (λ _. j)

  pub recover-Follows :
      {A B : Type 0} (m : Method A) (k : Result A → Method B)
      → Follows m
      → ((r : Result A) → Follows (k r))
      → Follows (recover m k)
  unfolding recover
  recover-Follows m k h j = record {
    history = λ s. let (t, r) = m s in Reached-trans s t (k r t).0 (h.history s) ((j r).history t);
  }

  pub optional-Follows : {A : Type 0} (m : Method A) → Follows m → Follows (optional m)
  unfolding optional
  optional-Follows m h = record { history = h.history }

  pub attempt-Follows : {A : Type 0} (m : Method A) → Follows m → Follows (attempt m)
  unfolding attempt
  attempt-Follows m h = record { history = h.history }

  pub return-Follows : {A : Type 0} (a : A) → Follows (return a)
  unfolding execute
  return-Follows a = record { history = Reached-refl }

  pub from-Follows : {A : Type 0} (r : Result A) → Follows (from r)
  unfolding execute
  from-Follows r = record { history = Reached-refl }

  pub require-Follows : (b : Bool) (e : Error) → Follows (require b e)
  unfolding execute
  require-Follows true e = record { history = Reached-refl }
  require-Follows false e = record { history = Reached-refl }

  pub read_operations-Follows :
      {A : Type 0} (q : List CertificateOperation → Result A) → Follows (read_operations q)
  unfolding execute
  read_operations-Follows q = record { history = Reached-refl }

  pub read_certificates-Follows :
      {A : Type 0} (q : List ManagedCertificate → Result A) → Follows (read_certificates q)
  unfolding execute
  read_certificates-Follows q = record { history = Reached-refl }

  pub if-Follows :
      {A : Type 0} (b : Bool) (m k : Method A)
      → Follows m
      → Follows k
      → Follows (if b then m else k)
  if-Follows true m k h j = h
  if-Follows false m k h j = j

  -- What a result that is passed on is known to be.
  pub given-Follows :
      {A B : Type 0} (r : Result A) (f : A → Method B)
      → ((a : A) → r ≡ ok a → Follows (f a))
      → Follows (from r >>= f)
  unfolding execute
  given-Follows (ok a) f k = record { history = (k a refl).history }
  given-Follows (err e) f k = record { history = Reached-refl }

  pub command-Follows :
      {A : Type 0} (c : Command) (m : Method A) → ((s : Store) → (m s).0 ≡ step db c s) → Follows m
  unfolding run
  command-Follows c m h = record { history = λ s. (c ∷ [], h s) }

pub ruleset method_rules = (
  >>=-Follows, >>-Follows, recover-Follows, optional-Follows, attempt-Follows, return-Follows,
  from-Follows, require-Follows, if-Follows, read_operations-Follows, read_certificates-Follows,
)

module _ (db : Database) where
  pub try_claim-Follows : (p : ClaimParams) → Follows db (try_claim db p)
  unfolding step
  try_claim-Follows p = command-Follows db (claim p) _ λ s. refl

  pub renew_lease-Follows :
      (op_id owner : String) (t now : ℕ) → Follows db (renew_lease db op_id owner t now)
  unfolding step
  renew_lease-Follows op_id owner t now =
      command-Follows db (renews_lease op_id owner t now) _ λ s. refl

  pub schedule_retry-Follows :
      (op_id owner : String) (t : ℕ) (e : String) (n now : ℕ)
      → Follows db (schedule_retry db op_id owner t e n now)
  unfolding step
  schedule_retry-Follows op_id owner t e n now =
      command-Follows db (schedules op_id owner t e n now) _ λ s. refl

  pub mark_failed-Follows :
      (op_id owner e : String) (now : ℕ) → Follows db (mark_failed db op_id owner e now)
  unfolding step
  mark_failed-Follows op_id owner e now = command-Follows db (fails op_id owner e now) _ λ s. refl

  pub clear_pending_txt-Follows :
      (op_id : String) (now : ℕ) → Follows db (clear_pending_txt db op_id now)
  unfolding step
  clear_pending_txt-Follows op_id now = command-Follows db (clears_txt op_id now) _ λ s. refl

  pub fail_expired-Follows : (now : ℕ) → Follows db (fail_expired db now)
  unfolding step
  fail_expired-Follows now = command-Follows db (expires now) _ λ s. refl

  pub activate_first_version-Follows :
      (c : String) (v : CertificateVersion) (op owner w : String) (now : ℕ)
      → Follows db (activate_first_version db c v op owner w now)
  unfolding step
  activate_first_version-Follows c v op owner w now =
      command-Follows db (activates_first c v op owner w now) _ λ s. refl

  pub activate_subsequent_version-Follows :
      (c : String) (v : CertificateVersion) (e op owner w : String) (now : ℕ)
      → Follows db (activate_subsequent_version db c v e op owner w now)
  unfolding step
  activate_subsequent_version-Follows c v e op owner w now =
      command-Follows db (activates_next c v e op owner w now) _ λ s. refl

  pub mark_version_revoke_pending-Follows :
      (c v : String) (now : ℕ) → Follows db (mark_version_revoke_pending db c v now)
  unfolding step
  mark_version_revoke_pending-Follows c v now =
      command-Follows db (marks_revoke c v now) _ λ s. refl

  pub clear_version_revoke_pending-Follows :
      (c v : String) (now : ℕ) → Follows db (clear_version_revoke_pending db c v now)
  unfolding step
  clear_version_revoke_pending-Follows c v now =
      command-Follows db (unmarks_revoke c v now) _ λ s. refl

  pub complete_revoke_version-Follows :
      (c v op owner : String) (t now : ℕ)
      → Follows db (complete_revoke_version db c v op owner t now)
  unfolding step
  complete_revoke_version-Follows c v op owner t now =
      command-Follows db (completes_revoke c v op owner t now) _ λ s. refl

  pub create_certificate-Follows :
      (now : ℕ) (fresh : String) (cert : ManagedCertificate)
      → Follows db (create_certificate db now fresh cert)
  unfolding step
  create_certificate-Follows now fresh cert =
      command-Follows db (creates_certificate cert fresh now) _ λ s. refl

  pub update_certificate-Follows :
      (id : String) (u : ManagedCertificateUpdate) (now : ℕ)
      → Follows db (update_certificate db id u now)
  unfolding step
  update_certificate-Follows id u now = command-Follows db (edits_certificate id u now) _ λ s. refl

  pub create_operation-Follows :
      (now : ℕ) (fresh : String) (kind : OperationType) (cert : String) (snap : IssueConfigSnapshot)
      (target : String) (reason : ℕ)
      → Follows db (create_operation db now fresh (new_operation kind cert snap target reason))
  unfolding step
  create_operation-Follows now fresh kind cert snap target reason =
      command-Follows db (creates kind cert snap target reason fresh now) _ λ s. refl

pub ruleset call_rules = (
  method_rules, try_claim-Follows, renew_lease-Follows, schedule_retry-Follows, mark_failed-Follows,
  clear_pending_txt-Follows, fail_expired-Follows, activate_first_version-Follows,
  activate_subsequent_version-Follows, mark_version_revoke_pending-Follows,
  clear_version_revoke_pending-Follows, complete_revoke_version-Follows, create_certificate-Follows,
  update_certificate-Follows, create_operation-Follows,
)
