-- ===== src/Certificates/Inversion.antt =====
-- A method that returned a value went through each of its parts.
use neo_line.Prelude.{
  ℕ, ◌≤◌, ◌≡◌, refl, Bool, true, false, Option, none, some, List, [], ◌∷◌, arith, Result, ok, err,
  Error, first, any, count_if, All, Bool-cases, inl, inr, or_none, DriverError, sym, ap, ◌<◌,
}
use neo_line.Mongo.Documents.{
  Outcome, done, rejected, unacknowledged, perform, answer, update_first,
}
use neo_line.Certificates.Types.{CertificateOperation}
use neo_line.Certificates.Store.{
  return, Store, Method, execute, ◌>>=◌, ◌>>◌, require, require_matched, read_operations,
  on_operations, from,
}

module _ {A B : Type 0} where
  bound :
      (f : A → Method B) (r : Store × Result A) (s t : Store) (b : B)
      → ◌>>=◌ (λ _. r) f s ≡ (t, ok b)
      → (a : A) × (u : Store) × (r ≡ (u, ok a)) × (f a u ≡ (t, ok b))
  unfolding execute
  bound f (u, ok a) s t b h = (a, u, refl, h)
  bound f (u, err e) s t b h = cc (ap (λ (r : Store × Result B). r.1) h)

  pub >>=-ok :
      (m : Method A) (f : A → Method B) (s t : Store) (b : B)
      → (m >>= f) s ≡ (t, ok b)
      → (a : A) × (u : Store) × (m s ≡ (u, ok a)) × (f a u ≡ (t, ok b))
  unfolding execute
  >>=-ok m f s t b h = bound f (m s) s t b h

module _ {B : Type 0} where
  pub >>-ok :
      (m : Method (Unit {0})) (k : Method B) (s t : Store) (b : B)
      → (m >> k) s ≡ (t, ok b)
      → (u : Store) × (m s ≡ (u, ok tt)) × (k u ≡ (t, ok b))
  unfolding execute
  >>-ok m k s t b h = let (a, u, p, q) = >>=-ok m (λ _. k) s t b h in (u, p, q)

pub return-ok : {A : Type 0} (a b : A) (s t : Store) → return a s ≡ (t, ok b) → s ≡ t
unfolding execute
return-ok {A} a b s t h = ap (λ (r : Store × Result A). r.0) h

pub return-value : {A : Type 0} (a b : A) (s t : Store) → return a s ≡ (t, ok b) → a ≡ b
unfolding execute
return-value {A} a b s t h = ground arith

pub from-ok :
    {A : Type 0} (r : Result A) (a : A) (s t : Store) → from r s ≡ (t, ok a) → (r ≡ ok a) × (t ≡ s)
unfolding execute
from-ok {A} r a s t h =
    (ap (λ (w : Store × Result A). w.1) h, sym (ap (λ (w : Store × Result A). w.0) h))

pub require-ok :
    (b : Bool) (e : Error) (s t : Store) → require b e s ≡ (t, ok tt) → (b ≡ true) × (t ≡ s)
unfolding execute
require-ok true e s t h = (refl, sym (ap (λ (r : Store × Result (Unit {0})). r.0) h))
require-ok false e s t h = cc (ap (λ (r : Store × Result (Unit {0})). r.1) h)

pub require_matched-ok :
    (n : ℕ) (e : Error) (s t : Store) → require_matched n e s ≡ (t, ok tt) → (0 < n) × (t ≡ s)
unfolding execute
require_matched-ok ℕ.zero e s t h = cc (ap (λ (r : Store × Result (Unit {0})). r.1) h)
require_matched-ok (ℕ.suc n) e s t h =
    (omega arith, sym (ap (λ (r : Store × Result (Unit {0})). r.0) h))

pub answer-ok :
    {R : Type 0} (o : Option DriverError) (r : Result R) (x : R) → answer o r ≡ ok x → r ≡ ok x
answer-ok none r x h = h
answer-ok (some e) r x h = cc

pub or_none-ok : {R : Type 0} (o : Option R) (x : R) → or_none o ≡ ok x → o ≡ some x
or_none-ok none x h = cc
or_none-ok (some y) x h = ground arith

pub perform-ok :
    {S R : Type 0} (o : Outcome) (s s' t : S) (r : Result R) (x : R)
    → perform o s s' r ≡ (t, ok x)
    → (t ≡ s') × (r ≡ ok x)
perform-ok {S} {R} done s s' t r x h =
    (sym (ap (λ (w : S × Result R). w.0) h), ap (λ (w : S × Result R). w.1) h)
perform-ok {S} {R} (rejected e) s s' t r x h = cc (ap (λ (w : S × Result R). w.1) h)
perform-ok {S} {R} (unacknowledged e) s s' t r x h = cc (ap (λ (w : S × Result R). w.1) h)

module _ {A : Type 0} where
  pub on_operations-ok :
      (m : List CertificateOperation → List CertificateOperation × Result A) (s t : Store) (x : A)
      → on_operations m s ≡ (t, ok x)
      → (m s.operations ≡ (t.operations, ok x)) × (t.certificates ≡ s.certificates)
  unfolding execute
  on_operations-ok m s t x h = (
    λ i. ((h i).0.operations, (h i).1),
    λ i. sym (ap (λ (w : Store × Result A). w.0.certificates) h) i,
  )

  pub read_operations-ok :
      (q : List CertificateOperation → Result A) (s t : Store) (x : A)
      → read_operations q s ≡ (t, ok x)
      → (q s.operations ≡ ok x) × (t ≡ s)
  unfolding execute
  read_operations-ok q s t x h =
      (ap (λ (w : Store × Result A). w.1) h, sym (ap (λ (w : Store × Result A). w.0) h))

module _ {A : Type 0} (q : A → Bool) where
  -- Where no element passes, none does.
  pub count_if-zero : (xs : List A) → count_if q xs ≡ 0 → All (λ x. q x ≡ false) xs
  count_if-zero [] h = tt
  count_if-zero (x ∷ xs) h = elim (Bool-cases (q x)) [
    | inl e ↦ absurd (ground arith)
    | inr e ↦ (e, count_if-zero xs (ground arith))
  ]

  count_if-any :
      (p : A → Bool) (xs : List A)
      → ((x : A) → p x ≡ true → q x ≡ true)
      → any p xs ≡ true
      → 1 ≤ count_if q xs
  count_if-any p [] k h = cc
  count_if-any p (x ∷ xs) k h = ground (arith, k x, count_if-any p xs k)

  abbrev pub IsUpdated : (A → Bool) → (A → A) → A → Type 0
  IsUpdated p f y = q y ≡ true → (x : A) × (p x ≡ true) × (y ≡ f x)

  unpassed-IsUpdated :
      (p : A → Bool) (f : A → A) (xs : List A) → All (λ x. q x ≡ false) xs → All (IsUpdated p f) xs
  unpassed-IsUpdated p f [] h = tt
  unpassed-IsUpdated p f (x ∷ xs) h = ((λ e. cc (h.0)), unpassed-IsUpdated p f xs h.1)

  -- Where at most one element passes `q`, an update of one that does leaves no other.
  pub update_first-IsUpdated :
      (p : A → Bool) (f : A → A) (xs : List A)
      → ((x : A) → p x ≡ true → q x ≡ true)
      → count_if q xs ≤ 1
      → any p xs ≡ true
      → All (IsUpdated p f) (update_first p f xs)
  unfolding update_first
  update_first-IsUpdated p f [] k u h = cc
  update_first-IsUpdated p f (x ∷ xs) k u h = elim (Bool-cases (p x)) [
    | inl e ↦
        rw e (
          (λ _. (x, e, refl)),
          unpassed-IsUpdated p f xs (count_if-zero xs (ground (arith, k x e))),
        )
    | inr e ↦
        let rest : any p xs ≡ true = ground arith in
        let passed = count_if-any p xs k rest in
        let skipped : q x ≡ false = ground arith in
        rw e ((λ t. cc skipped), update_first-IsUpdated p f xs k (ground arith) rest)
  ]

pub first-any :
    {A : Type 0} (p : A → Bool) (xs : List A) (x : A) → first p xs ≡ some x → any p xs ≡ true
first-any p [] x h = cc
first-any p (y ∷ ys) x h = ground (arith, first-any p ys x)
