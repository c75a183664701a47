-- ===== src/Certificates/Claims.antt =====
-- Leases: what a claim finds and leaves.
use neo_line.Prelude.{
  ◌+◌, ◌≢◌, ◌⊎◌, inl, inr, Bool-cases, All, subst, eq_iff, [], ◌∷◌, ℕ, ◌≤◌, ◌≡◌, refl, Bool, true,
  false, String, Option, none, some, List, arith, Result, ok, err, first, count_if, sym, ap, ◌∙◌,
  get_or, and-left, and-right, if◌then◌else◌, DriverError, driver,
}
use mathlib.Core.Option
use neo_line.Mongo.{Collection, refuses}
use neo_line.Mongo.Documents.{Outcome, perform, update_first, matched}
use neo_line.Certificates.Types.{pending, running, CertificateOperation, Database}
use neo_line.Certificates.Store.{Store, read_operations, on_operations}
use neo_line.Certificates.Operations.{has_id, claimable, lease_held}
use neo_line.Certificates.Lease.{ClaimParams, claims, claimed, conflicting, try_claim}
use neo_line.Certificates.Inversion.{
  >>=-ok, >>-ok, require-ok, answer-ok, or_none-ok, perform-ok, on_operations-ok,
  read_operations-ok, count_if-zero,
}

-- A time that is not set has come.
abbrev pub HasCome : ℕ → Option ℕ → Type 0
HasCome now t = (t ≡ none) ⊎ ((u : ℕ) × (t ≡ some u) × (u ≤ now))

-- Waiting and due, or running under a lease that has run out.
abbrev pub IsFree : ℕ → CertificateOperation → Type 0
IsFree now op =
    ((op.status ≡ pending) × HasCome now op.next_attempt_at)
    ⊎ ((op.status ≡ running) × HasCome now op.lease_expires_at)

-- An operation of the certificate other than this one runs under no lease that is still to expire.
abbrev pub IsNoRival : ℕ → String → String → CertificateOperation → Type 0
IsNoRival now cert_id op_id op =
    op.managed_certificate_id ≡ cert_id
    → op.id ≢ op_id
    → op.status ≡ running
    → (u : ℕ) → op.lease_expires_at ≡ some u
    → u ≤ now

-- What a successful claim has found and has done.
pub record IsClaim (p : ClaimParams) (s t : Store) (op : CertificateOperation) : Type 0 where
  pub target : CertificateOperation
  pub target_found : first (has_id p.op_id) s.operations ≡ some target
  pub unopposed : All (IsNoRival p.now target.managed_certificate_id p.op_id) s.operations
  pub before : CertificateOperation
  pub found : first (claims p) s.operations ≡ some before
  pub named : before.id ≡ p.op_id
  pub free : IsFree p.now before
  pub returned : op ≡ claimed p before
  -- The next attempt, and nothing else changed.
  pub started : op ≡ record before {
    status = running;
    lease_owner = p.owner;
    lease_expires_at = some p.lease_expires;
    updated_at = p.now;
    finished_at = none;
    started_at = some (get_or before.started_at p.now);
    attempt_count = before.attempt_count + 1;
  }
  pub written : t.operations ≡ update_first (claims p) (claimed p) s.operations
  pub certificates_kept : t.certificates ≡ s.certificates

map-some :
    {A : Type 0} (f : A → A) (o : Option A) (y : A)
    → Option.map f o ≡ some y
    → (x : A) × (o ≡ some x) × (y ≡ f x)
map-some f none y h = cc
map-some f (some x) y h = (x, refl, ground arith)

module _ (c : Collection CertificateOperation) where
  open c use {
    find_one, find_one_lem, count_documents, count_documents_lem, find_one_and_update,
    find_one_and_update_lem, update_one, update_one_lem, try_update_one, try_update_one_lem,
  }

  pub found_one :
      (p : CertificateOperation → Bool) (s u : Store) (x : CertificateOperation)
      → read_operations (find_one p) s ≡ (u, ok x)
      → (first p s.operations ≡ some x) × (u ≡ s)
  found_one p s u x h =
      let (e, same) = read_operations-ok (find_one p) s u x h in
      let (o, l) = find_one_lem p s.operations in
      (or_none-ok _ x (answer-ok o _ x (sym l ∙ e)), same)

  pub counted :
      (p : CertificateOperation → Bool) (s u : Store) (n : ℕ)
      → read_operations (count_documents p) s ≡ (u, ok n)
      → (n ≡ count_if p s.operations) × (u ≡ s)
  counted p s u n h =
      let (e, same) = read_operations-ok (count_documents p) s u n h in
      let (o, l) = count_documents_lem p s.operations in
      let e' = answer-ok o (ok (count_if p s.operations)) n (sym l ∙ e) in (ground arith, same)

  modified :
      (p : CertificateOperation → Bool) (f : CertificateOperation → CertificateOperation)
      (s t : Store) (y : CertificateOperation)
      → on_operations (find_one_and_update p f) s ≡ (t, ok y)
      → (x : CertificateOperation) × (first p s.operations ≡ some x)
        × (y ≡ f x)
        × (t.operations ≡ update_first p f s.operations)
        × (t.certificates ≡ s.certificates)
  modified p f s t y h =
      let (e, same) = on_operations-ok (find_one_and_update p f) s t y h in
      let (o, l) = find_one_and_update_lem p f s.operations in
      let (w, r) = perform-ok o s.operations _ t.operations _ y (sym l ∙ e) in
      let (x, m, q) = map-some f _ y (or_none-ok _ y r) in (x, m, q, w, same)

  pub updated :
      (p : CertificateOperation → Bool) (f : CertificateOperation → CertificateOperation)
      (s t : Store) (n : ℕ)
      → on_operations (update_one p f) s ≡ (t, ok n)
      → (t.operations ≡ update_first p f s.operations) × (n ≡ matched p s.operations)
  updated p f s t n h =
      let (e, same) = on_operations-ok (update_one p f) s t n h in
      let (o, l) = update_one_lem p f s.operations in
      let (w, r) =
        perform-ok o s.operations _ t.operations (ok (matched p s.operations)) n (sym l ∙ e) in
      (w, ground arith)

  pub accepted :
      (p : CertificateOperation → Bool) (f : CertificateOperation → Option CertificateOperation)
      (s t : Store) (n : ℕ)
      → on_operations (try_update_one p f) s ≡ (t, ok n)
      → (refuses p f s.operations ≡ false) × (n ≡ matched p s.operations)
  accepted p f s t n h =
      let (e, same) = on_operations-ok (try_update_one p f) s t n h in
      let (o, d, l) = try_update_one_lem p f s.operations in
      branches o d (refuses p f s.operations) refl (sym l ∙ e)
    where
      branches :
          (o : Outcome) (d : DriverError) (b : Bool)
          → refuses p f s.operations ≡ b
          → (if b
              then (s.operations, err (driver d))
              else perform o s.operations
                  (update_first p (λ a. get_or (f a) a) s.operations)
                  (ok (matched p s.operations)))
            ≡ (t.operations, ok n)
          → (refuses p f s.operations ≡ false) × (n ≡ matched p s.operations)
      branches o d true k e = cc (ap (λ (w : List CertificateOperation × Result ℕ). w.1) e)
      branches o d false k e =
          let (w, r) = perform-ok o s.operations _ t.operations (ok (matched p s.operations)) n e in
          (k, ground arith)

-- At most one operation has the id.
abbrev pub IsUnique : String → Store → Type 0
IsUnique id s = count_if (has_id id) s.operations ≤ 1

pub claims-has_id :
    (p : ClaimParams) (x : CertificateOperation) → claims p x ≡ true → has_id p.op_id x ≡ true
unfolding claims
claims-has_id p x h = and-left _ _ h

All-imp :
    {A : Type 0} {P Q : A → Type 0} → ((x : A) → P x → Q x) → (xs : List A) → All P xs → All Q xs
All-imp f [] h = tt
All-imp f (x ∷ xs) h = (f x h.0, All-imp f xs h.1)

first-passes : {A : Type 0} (p : A → Bool) (xs : List A) (x : A) → first p xs ≡ some x → p x ≡ true
first-passes p [] x h = cc
first-passes p (y ∷ ys) x h = elim (Bool-cases (p y)) [
  | inl e ↦ let same : y ≡ x = ground (arith, e) in subst (λ z. p z ≡ true) same e
  | inr e ↦ first-passes p ys x (ground (arith, e))
]

claimable-IsFree : (now : ℕ) (x : CertificateOperation) → claimable now x ≡ true → IsFree now x
unfolding claimable
claimable-IsFree now x h = ground arith

conflicting-IsNoRival :
    (p : ClaimParams) (cert_id : String) (x : CertificateOperation)
    → conflicting cert_id p x ≡ false
    → IsNoRival p.now cert_id p.op_id x
unfolding conflicting lease_held
conflicting-IsNoRival p cert_id x h c d r u e =
    ground (arith, eq_iff x.managed_certificate_id cert_id, eq_iff x.id p.op_id)

unopposed-All :
    (p : ClaimParams) (cert_id : String) (xs : List CertificateOperation)
    → count_if (conflicting cert_id p) xs ≡ 0
    → All (IsNoRival p.now cert_id p.op_id) xs
unopposed-All p cert_id xs h =
    All-imp (conflicting-IsNoRival p cert_id) xs (count_if-zero (conflicting cert_id p) xs h)

named-id : (id : String) (x : CertificateOperation) → has_id id x ≡ true → x.id ≡ id
unfolding has_id
named-id id x h = ground (arith, eq_iff x.id id)

started-claimed :
    (p : ClaimParams) (before : CertificateOperation)
    → claimed p before ≡ record before {
      status = running;
      lease_owner = p.owner;
      lease_expires_at = some p.lease_expires;
      updated_at = p.now;
      finished_at = none;
      started_at = some (get_or before.started_at p.now);
      attempt_count = before.attempt_count + 1;
    }
unfolding claimed
started-claimed p before = refl

pub claims-claimable :
    (p : ClaimParams) (x : CertificateOperation) → claims p x ≡ true → claimable p.now x ≡ true
unfolding claims
claims-claimable p x h = and-right (has_id p.op_id x) _ h

module _ (db : Database) where
  open db use {operations}

  -- A claim that succeeds has found the operation waiting and due, or running under a lease that has
  -- run out, and no other operation of its certificate under a lease; it starts and counts
  -- the next attempt under the claimant's lease, and keeps the other fields of the operation, the other
  -- operations and the certificates.
  pub try_claim-IsClaim :
      (p : ClaimParams) (s t : Store) (op : CertificateOperation)
      → try_claim db p s ≡ (t, ok op)
      → IsClaim p s t op
  unfolding try_claim
  try_claim-IsClaim p s t op h =
      let (target, s₁, h₁, k₁) = >>=-ok _ _ s t op h in
      let (n, s₂, h₂, k₂) = >>=-ok _ _ s₁ t op k₁ in
      let (s₃, h₃, k₃) = >>-ok _ _ s₂ t op k₂ in
      let (f₁, e₁) = found_one operations (has_id p.op_id) s s₁ target h₁ in
      let (f₂, e₂) = counted operations _ s₁ s₂ n h₂ in
      let (f₃, e₃) = require-ok _ _ s₂ s₃ h₃ in
      let (x, m, q, w, c) = modified operations (claims p) (claimed p) s₃ t op k₃ in
      let same : s₃ ≡ s = cc in
      let none_held : n ≡ 0 = ground arith in
      let passes = first-passes (claims p) s₃.operations x m in
      record {
        target = target;
        target_found = f₁;
        unopposed =
            unopposed-All p target.managed_certificate_id s.operations
              (rw (← e₁) (sym f₂ ∙ none_held));
        before = x;
        found = rw same at m;
        named = named-id p.op_id x (claims-has_id p x passes);
        free = claimable-IsFree p.now x (claims-claimable p x passes);
        returned = q;
        started = q ∙ started-claimed p x;
        written = rw same at w;
        certificates_kept = rw same at c;
      }
