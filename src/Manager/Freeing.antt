-- ===== src/Manager/Freeing.antt =====
-- Methods that leave an operation no longer owned: predicates and a rule for each way to build a method.
use neo_line.Prelude.{
  ℕ, ◌≤◌, ◌≡◌, refl, sym, subst, Bool, true, false, String, List, [], ◌∷◌, arith, any, count_if,
  Result, ok, err, Bool-cases, inl, inr, if◌then◌else◌,
}
use neo_line.Mongo.Documents.{update_first}
use neo_line.Certificates.Types.{CertificateOperation, Database}
use neo_line.Certificates.Store.{Store, Method, return, execute, ◌>>=◌, ◌>>◌}
use neo_line.Certificates.Operations.{has_id}
use neo_line.Certificates.Lease.{owned_by, txt_cleared, ended, rescheduled}
use neo_line.Certificates.Versions.{completed, revocation_completed}
use neo_line.Certificates.Preserve.{Moves}
use neo_line.Certificates.Claims.{IsUnique}
use neo_line.Certificates.Unique.{advance-has_id, run-IsUnique}
use neo_line.Certificates.Inversion.{>>=-ok}
use neo_line.Manager.Follows.{Follows}
use neo_line.Manager.Retry.{attempt}

unowned :
    (id owner : String) (x : CertificateOperation)
    → has_id id x ≡ false
    → owned_by id owner x ≡ false
unfolding owned_by
unowned id owner x h = ground (arith, h)

none-unowned :
    (id owner : String) (xs : List CertificateOperation)
    → count_if (has_id id) xs ≤ 0
    → any (owned_by id owner) xs ≡ false
none-unowned id owner [] h = refl
none-unowned id owner (x ∷ xs) h = ground (arith, unowned id owner x, none-unowned id owner xs)

-- The update of the operation that is owned, to one that is not.
pub update_first-unowned :
    (id owner : String) (f : CertificateOperation → CertificateOperation)
    (xs : List CertificateOperation)
    → ((x : CertificateOperation) → owned_by id owner (f x) ≡ false)
    → count_if (has_id id) xs ≤ 1
    → any (owned_by id owner) (update_first (owned_by id owner) f xs) ≡ false
unfolding update_first
update_first-unowned id owner f [] k h = refl
update_first-unowned id owner f (x ∷ xs) k h = elim (Bool-cases (owned_by id owner x)) [
  | inl e ↦ ground (arith, e, k x, unowned id owner x, none-unowned id owner xs)
  | inr e ↦ ground (arith, e, update_first-unowned id owner f xs k)
]

pub completed-unowned :
    (id owner warning : String) (now : ℕ) (x : CertificateOperation)
    → owned_by id owner (completed warning now x) ≡ false
unfolding owned_by completed
completed-unowned id owner warning now x = ground arith

pub revocation_completed-unowned :
    (id owner : String) (now : ℕ) (x : CertificateOperation)
    → owned_by id owner (revocation_completed now x) ≡ false
unfolding owned_by revocation_completed
revocation_completed-unowned id owner now x = ground arith

pub ended-unowned :
    (id owner e : String) (now : ℕ) (x : CertificateOperation)
    → owned_by id owner (ended e now x) ≡ false
unfolding owned_by ended
ended-unowned id owner e now x = ground arith

pub rescheduled-unowned :
    (id owner e : String) (t n now : ℕ) (x : CertificateOperation)
    → owned_by id owner (rescheduled t e n now x) ≡ false
unfolding owned_by rescheduled
rescheduled-unowned id owner e t n now x = ground arith

pub txt_cleared-unowned :
    (id owner : String) (now : ℕ) (xs : List CertificateOperation)
    → any (owned_by id owner) xs ≡ false
    → any (owned_by id owner) (update_first (has_id id) (txt_cleared now) xs) ≡ false
unfolding update_first owned_by txt_cleared has_id
txt_cleared-unowned id owner now [] h = refl
txt_cleared-unowned id owner now (x ∷ xs) h = ground (arith, txt_cleared-unowned id owner now xs)

-- The operation is not running under the lease of the owner.
abbrev pub IsReleased : String → String → Store → Type 0
IsReleased id owner s = any (owned_by id owner) s.operations ≡ false

module _ (id owner : String) where
  -- A method leaves the id unique.
  pub record Unique {A : Type 0} (m : Method A) : Type 0 where
    pub at : (s : Store) → IsUnique id s → IsUnique id (m s).0

  -- Where a method returns a value, it has released the operation.
  pub record Frees {A : Type 0} (m : Method A) : Type 0 where
    pub at : (s t : Store) (a : A) → IsUnique id s → m s ≡ (t, ok a) → IsReleased id owner t

  -- However a method ends, it has released the operation.
  pub record Releases {A : Type 0} (m : Method A) : Type 0 where
    pub at : (s : Store) → IsUnique id s → IsReleased id owner (m s).0

  -- A method leaves a released operation released.
  pub record Leaves {A : Type 0} (m : Method A) : Type 0 where
    pub at : (s : Store) → IsReleased id owner s → IsReleased id owner (m s).0

pub Moves-Unique : {A : Type 0} (id owner : String) (m : Method A) → Moves m → Unique id owner m
Moves-Unique id owner m h = record {
  at = λ s u.
      let same = advance-has_id id s.operations (m s).0.operations (h.apply s) in omega arith;
}

pub Follows-Unique :
    {A : Type 0} (db : Database) (id owner : String) (m : Method A)
    → Follows db m
    → Unique id owner m
Follows-Unique db id owner m h = record {
  at = λ s u. let (cs, e) = h.history s in subst (IsUnique id) (sym e) (run-IsUnique db id cs s u);
}

pub >>=-Frees :
    {A B : Type 0} (id owner : String) (m : Method A) (f : A → Method B)
    → Unique id owner m
    → ((a : A) → Frees id owner (f a))
    → Frees id owner (m >>= f)
>>=-Frees id owner m f h k = record {
  at = λ s t b u e.
      let (a, v, p, q) = >>=-ok m f s t b e in
      (k a).at v t b (subst (λ w. IsUnique id w.0) p (h.at s u)) q;
}

-- What follows a method that has released the operation.
pub >>=-after :
    {A B : Type 0} (id owner : String) (m : Method A) (f : A → Method B)
    → Frees id owner m
    → ((a : A) → Leaves id owner (f a))
    → Frees id owner (m >>= f)
>>=-after id owner m f h k = record {
  at = λ s t b u e.
      let (a, v, p, q) = >>=-ok m f s t b e in
      subst (λ w. IsReleased id owner w.0) q ((k a).at v (h.at s v a u p));
}

pub >>-Frees :
    {B : Type 0} (id owner : String) (m : Method (Unit {0})) (k : Method B)
    → Unique id owner m
    → Frees id owner k
    → Frees id owner (m >> k)
unfolding ◌>>◌
>>-Frees id owner m k h j = >>=-Frees id owner m (λ _. k) h (λ _. j)

pub >>-after :
    {B : Type 0} (id owner : String) (m : Method (Unit {0})) (k : Method B)
    → Frees id owner m
    → Leaves id owner k
    → Frees id owner (m >> k)
unfolding ◌>>◌
>>-after id owner m k h j = >>=-after id owner m (λ _. k) h (λ _. j)

-- What follows a method that has released the operation, and one that leaves the ids unique.
pub >>=-Releases :
    {A B : Type 0} (id owner : String) (m : Method A) (f : A → Method B)
    → Releases id owner m
    → ((a : A) → Leaves id owner (f a))
    → Releases id owner (m >>= f)
unfolding execute
>>=-Releases {A} {B} id owner m f h k = record { at = λ s u. by_result (m s) (h.at s u) s }
  where
    by_result :
        (r : Store × Result A)
        → IsReleased id owner r.0
        → (s : Store) → IsReleased id owner (◌>>=◌ (λ _. r) f s).0
    by_result (t, ok a) e s = (k a).at t e
    by_result (t, err x) e s = e

pub then-Releases :
    {A B : Type 0} (id owner : String) (m : Method A) (f : A → Method B)
    → Unique id owner m
    → ((s : Store) → (a : A) × ((m s).1 ≡ ok a))
    → ((a : A) → Releases id owner (f a))
    → Releases id owner (m >>= f)
unfolding execute
then-Releases {A} {B} id owner m f h returns k = record {
  at = λ s u. by_result (m s) (h.at s u) (returns s) s;
}
  where
    by_result :
        (r : Store × Result A)
        → IsUnique id r.0
        → (a : A) × (r.1 ≡ ok a)
        → (s : Store) → IsReleased id owner (◌>>=◌ (λ _. r) f s).0
    by_result (t, ok a) u w s = (k a).at t u
    by_result (t, err x) u (a, e) s = cc (e)

pub if-Releases :
    {A : Type 0} (id owner : String) (b : Bool) (m k : Method A)
    → Releases id owner m
    → Releases id owner k
    → Releases id owner (if b then m else k)
if-Releases id owner true m k h j = h
if-Releases id owner false m k h j = j

pub return-Leaves : {A : Type 0} (id owner : String) (a : A) → Leaves id owner (return a)
unfolding execute
return-Leaves id owner a = record { at = λ s r. r }

pub attempt-then-Leaves :
    {A B : Type 0} (id owner : String) (m : Method A) (b : B)
    → Leaves id owner m
    → Leaves id owner (attempt m >> return b)
unfolding attempt execute
attempt-then-Leaves id owner m b h = record { at = λ s r. h.at s r }

pub attempt-then-Releases :
    {A B : Type 0} (id owner : String) (m : Method A) (b : B)
    → Releases id owner m
    → Releases id owner (attempt m >> return b)
unfolding attempt execute
attempt-then-Releases id owner m b h = record { at = λ s u. h.at s u }
