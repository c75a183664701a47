-- ===== src/Mongo/Laws.antt =====
-- What the writes keep: a predicate on every document, a relation of each document to its past, and
-- the number of documents that pass a test.
use neo_line.Prelude.{
  inr, subst, inl, ◌≤◌, ◌≡◌, refl, Bool, true, none, some, List, [], ◌∷◌, ◌++◌, arith, Result,
  count_if, first, All, Bool-cases,
}
use neo_line.Mongo.Documents.{
  Outcome, done, rejected, unacknowledged, perform, update_first, update_all, delete_all, Evolves,
}

module _ {A : Type 0} (P : A → Type 0) where
  pub All-perform :
      {R : Type 0} (o : Outcome) (xs ys : List A) (r : Result R)
      → All P xs
      → All P ys
      → All P (perform o xs ys r).0
  All-perform done xs ys r hx hy = hy
  All-perform (rejected e) xs ys r hx hy = hx
  All-perform (unacknowledged e) xs ys r hx hy = hy

  pub All-update_first :
      (p : A → Bool) (f : A → A) (xs : List A)
      → ((x : A) → p x ≡ true → P x → P (f x))
      → All P xs
      → All P (update_first p f xs)
  unfolding update_first
  All-update_first p f [] k h = tt
  All-update_first p f (x ∷ xs) k h = elim (Bool-cases (p x)) [
    | inl e ↦ rw e (k x e h.0, h.1)
    | inr e ↦ rw e (h.0, All-update_first p f xs k h.1)
  ]

  pub All-update_all :
      (p : A → Bool) (f : A → A) (xs : List A)
      → ((x : A) → p x ≡ true → P x → P (f x))
      → All P xs
      → All P (update_all p f xs)
  unfolding update_all
  All-update_all p f [] k h = tt
  All-update_all p f (x ∷ xs) k h = elim (Bool-cases (p x)) [
    | inl e ↦ rw e (k x e h.0, All-update_all p f xs k h.1)
    | inr e ↦ rw e (h.0, All-update_all p f xs k h.1)
  ]

  pub All-delete_all : (p : A → Bool) (xs : List A) → All P xs → All P (delete_all p xs)
  unfolding delete_all
  All-delete_all p [] h = tt
  All-delete_all p (x ∷ xs) h = elim (Bool-cases (p x)) [
    | inl e ↦ rw e (All-delete_all p xs h.1)
    | inr e ↦ rw e (h.0, All-delete_all p xs h.1)
  ]

  -- The document that a query returns is one of the collection and passes its test.
  pub first-All :
      (p : A → Bool) (xs : List A) {x : A} → All P xs → first p xs ≡ some x → P x × (p x ≡ true)
  first-All p [] h e = cc
  first-All p (y ∷ ys) h e = elim (Bool-cases (p y)) [
    | inl t ↦ let same : y ≡ _ = ground arith in subst (λ z. P z × (p z ≡ true)) same (h.0, t)
    | inr t ↦ first-All p ys h.1 (ground arith)
  ]

module _ {A : Type 0} (R : A → A → Type 0) (N : A → Type 0) (R_refl : (x : A) → R x x) where
  pub Evolves-refl : (xs : List A) → Evolves R N xs xs
  Evolves-refl [] = tt
  Evolves-refl (x ∷ xs) = (R_refl x, Evolves-refl xs)

  pub Evolves-update_first :
      (p : A → Bool) (f : A → A) (xs : List A)
      → ((x : A) → p x ≡ true → R x (f x))
      → Evolves R N xs (update_first p f xs)
  unfolding update_first
  Evolves-update_first p f [] k = tt
  Evolves-update_first p f (x ∷ xs) k = elim (Bool-cases (p x)) [
    | inl e ↦ rw e (k x e, Evolves-refl xs)
    | inr e ↦ rw e (R_refl x, Evolves-update_first p f xs k)
  ]

  pub Evolves-update_all :
      (p : A → Bool) (f : A → A) (xs : List A)
      → ((x : A) → p x ≡ true → R x (f x))
      → Evolves R N xs (update_all p f xs)
  unfolding update_all
  Evolves-update_all p f [] k = tt
  Evolves-update_all p f (x ∷ xs) k = elim (Bool-cases (p x)) [
    | inl e ↦ rw e (k x e, Evolves-update_all p f xs k)
    | inr e ↦ rw e (R_refl x, Evolves-update_all p f xs k)
  ]

  pub Evolves-insert : (a : A) (xs : List A) → N a → Evolves R N xs (xs ++ a ∷ [])
  Evolves-insert a [] n = (n, tt)
  Evolves-insert a (x ∷ xs) n = (R_refl x, Evolves-insert a xs n)

  pub Evolves-perform :
      {T : Type 0} (o : Outcome) (xs ys : List A) (r : Result T)
      → Evolves R N xs ys
      → Evolves R N xs (perform o xs ys r).0
  Evolves-perform done xs ys r h = h
  Evolves-perform (rejected e) xs ys r h = Evolves-refl xs
  Evolves-perform (unacknowledged e) xs ys r h = h

module _ {A : Type 0} (R : A → A → Type 0) (N : A → Type 0)
    (R_trans : (x y z : A) → R x y → R y z → R x z) (N_R : (x y : A) → N x → R x y → N y) where
  pub Evolves-new : (ys zs : List A) → All N ys → Evolves R N ys zs → All N zs
  Evolves-new [] zs h k = k
  Evolves-new (y ∷ ys) [] h k = elim k [ ]
  Evolves-new (y ∷ ys) (z ∷ zs) h k = (N_R y z h.0 k.0, Evolves-new ys zs h.1 k.1)

  pub Evolves-trans :
      (xs ys zs : List A) → Evolves R N xs ys → Evolves R N ys zs → Evolves R N xs zs
  Evolves-trans [] ys zs h k = Evolves-new ys zs h k
  Evolves-trans (x ∷ xs) [] zs h k = elim h [ ]
  Evolves-trans (x ∷ xs) (y ∷ ys) [] h k = elim k [ ]
  Evolves-trans (x ∷ xs) (y ∷ ys) (z ∷ zs) h k =
      (R_trans x y z h.0 k.0, Evolves-trans xs ys zs h.1 k.1)

module _ {A : Type 0} (q p : A → Bool) (f : A → A) where
  -- An update that makes no document pass `q` which did not pass it before.
  pub count_if-update_first-le :
      (xs : List A)
      → ((x : A) → p x ≡ true → q (f x) ≡ true → q x ≡ true)
      → count_if q (update_first p f xs) ≤ count_if q xs
  unfolding update_first
  count_if-update_first-le [] k = omega arith
  count_if-update_first-le (x ∷ xs) k = elim (Bool-cases (p x)) [
    | inl e ↦ ground (arith, k x e)
    | inr e ↦ ground (arith, count_if-update_first-le xs k)
  ]

  pub count_if-update_all-le :
      (xs : List A)
      → ((x : A) → p x ≡ true → q (f x) ≡ true → q x ≡ true)
      → count_if q (update_all p f xs) ≤ count_if q xs
  unfolding update_all
  count_if-update_all-le [] k = omega arith
  count_if-update_all-le (x ∷ xs) k = elim (Bool-cases (p x)) [
    | inl e ↦ ground (arith, k x e, count_if-update_all-le xs k)
    | inr e ↦ ground (arith, count_if-update_all-le xs k)
  ]

pub count_if-delete_all-le :
    {A : Type 0} (q p : A → Bool) (xs : List A) → count_if q (delete_all p xs) ≤ count_if q xs
unfolding delete_all
count_if-delete_all-le q p [] = omega arith
count_if-delete_all-le q p (x ∷ xs) = ground (arith, count_if-delete_all-le q p xs)

-- A collection where nothing passes the test is left as it is.
pub update_first-none :
    {A : Type 0} (p : A → Bool) (f : A → A) (xs : List A)
    → first p xs ≡ none
    → update_first p f xs ≡ xs
unfolding update_first
update_first-none p f [] e = refl
update_first-none p f (x ∷ xs) e = ground (arith, update_first-none p f xs)
