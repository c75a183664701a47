-- ===== src/Mongo/Documents.antt =====
-- The documented effect of the driver's calls on the documents of one collection, in natural order.
use neo_line.Prelude.{
  ℕ, Bool, Option, none, some, List, [], ◌∷◌, if◌then◌else◌, Result, err, DriverError, driver, any,
  All,
}

-- How one write ends: it takes effect and says so, it is refused with nothing changed, or it takes
-- effect and the reply is lost.
pub data Outcome : Type 0 where
  done : Outcome
  rejected : DriverError → Outcome
  unacknowledged : DriverError → Outcome

abbrev pub perform {ℓ κ} : {S : Type ℓ} {R : Type κ} → Outcome → S → S → Result R → S × Result R
perform done s s' r = (s', r)
perform (rejected e) s s' r = (s, err (driver e))
perform (unacknowledged e) s s' r = (s', err (driver e))

-- How one read ends.
abbrev pub answer {ℓ} : {R : Type ℓ} → Option DriverError → Result R → Result R
answer none r = r
answer (some e) r = err (driver e)

module _ {ℓ} {A : Type ℓ} where
  unfoldable pub update_first : (A → Bool) → (A → A) → List A → List A
  update_first p f [] = []
  update_first p f (x ∷ xs) = let rest = update_first p f xs in if p x then f x ∷ xs else x ∷ rest

  unfoldable pub update_all : (A → Bool) → (A → A) → List A → List A
  update_all p f [] = []
  update_all p f (x ∷ xs) = let rest = update_all p f xs in (if p x then f x else x) ∷ rest

  unfoldable pub delete_first : (A → Bool) → List A → List A
  delete_first p [] = []
  delete_first p (x ∷ xs) = let rest = delete_first p xs in if p x then xs else x ∷ rest

  unfoldable pub delete_all : (A → Bool) → List A → List A
  delete_all p [] = []
  delete_all p (x ∷ xs) = let rest = delete_all p xs in if p x then rest else x ∷ rest

  -- `MatchedCount` of an update of one document.
  abbrev pub matched : (A → Bool) → List A → ℕ
  matched p xs = if any p xs then 1 else 0

-- Every old document stands where it stood, related to what it was; new ones stand behind.
abbrev pub Evolves : {A : Type 0} → (A → A → Type 0) → (A → Type 0) → List A → List A → Type 0
Evolves R N [] ys = All N ys
Evolves R N (x ∷ xs) [] = ⊥
Evolves R N (x ∷ xs) (y ∷ ys) = R x y × Evolves R N xs ys
