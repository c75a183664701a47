-- ===== src/Mongo.antt =====
-- The MongoDB driver (go.mongodb.org/mongo-driver/v2), which internal/store calls. It is not part of
-- the repository, so a collection is a parameter: its calls, and what the server documents of them.
-- A write to one document is atomic: it takes effect wholly or not at all, also where its reply is
-- lost. A write to many documents that fails has been applied to some of them.
pub mod Documents
pub mod Laws
use neo_line.Mongo.Documents.{done}
use neo_line.Prelude.{
  refl, not, is_some, ℕ, zero, suc, ◌≡◌, Bool, true, false, ◌&&◌, Option, none, some, List, [], ◌∷◌,
  ◌++◌, if◌then◌else◌, Result, ok, err, or_none, Error, no_documents, DriverError, duplicate_key,
  failed, driver, count_if, first, any, select,
}
use mathlib.Core.Option
use Documents.{
  Outcome, done, perform, answer, update_first, update_all, delete_first, delete_all, matched,
}

-- A write to many documents: it reports the number of documents, or has changed those of `q`.
abbrev pub perform_many :
    {A : Type 0}
    → Option DriverError
    → (A → Bool)
    → ((A → Bool) → List A)
    → ((A → Bool) → ℕ)
    → (A → Bool)
    → List A × Result ℕ
perform_many none q write tally p = (write p, ok (tally p))
perform_many (some e) q write tally p = (write (λ a. p a && q a), err (driver e))

-- Whether the server refuses the update `f` of the document that it would change.
abbrev pub refuses : {A : Type 0} → (A → Bool) → (A → Option A) → List A → Bool
refuses p f c = elim (first p c) [ none ↦ false | some a ↦ not (is_some (f a)) ]

pub record Collection (A : Type 0) : Type 0 where
  -- Whether the unique indexes refuse the two documents side by side.
  pub clash : A → A → Bool
  pub find_one : (A → Bool) → List A → Result A
  pub find_one_lem :
      (p : A → Bool) (c : List A)
      → (o : Option DriverError) × (find_one p c ≡ answer o (or_none (first p c)))
  pub find : (A → Bool) → List A → Result (List A)
  pub find_lem :
      (p : A → Bool) (c : List A)
      → (o : Option DriverError) × (find p c ≡ answer o (ok (select p c)))
  pub count_documents : (A → Bool) → List A → Result ℕ
  pub count_documents_lem :
      (p : A → Bool) (c : List A)
      → (o : Option DriverError) × (count_documents p c ≡ answer o (ok (count_if p c)))
  pub insert_one : A → List A → List A × Result (Unit {0})
  pub insert_one_lem :
      (a : A) (c : List A)
      → (o : Outcome) × (insert_one a c ≡ (
          if any (clash a) c
          then (c, err (driver duplicate_key))
          else perform o c (c ++ a ∷ []) (ok tt)))
  pub update_one : (A → Bool) → (A → A) → List A → List A × Result ℕ
  pub update_one_lem :
      (p : A → Bool) (f : A → A) (c : List A)
      → (o : Outcome) × (update_one p f c ≡ perform o c (update_first p f c) (ok (matched p c)))
  -- An update that is refused at some documents, such as `$addToSet` at a field that is no array.
  pub try_update_one : (A → Bool) → (A → Option A) → List A → List A × Result ℕ
  pub try_update_one_lem :
      (p : A → Bool) (f : A → Option A) (c : List A)
      → (o : Outcome) × (e : DriverError) × (try_update_one p f c ≡ (
          if refuses p f c
          then (c, err (driver e))
          else perform o c (update_first p (λ a. Option.get_or (f a) a) c) (ok (matched p c))))
  -- With the option that returns the document after the update.
  pub find_one_and_update : (A → Bool) → (A → A) → List A → List A × Result A
  pub find_one_and_update_lem :
      (p : A → Bool) (f : A → A) (c : List A)
      → (o : Outcome) × (find_one_and_update p f c
          ≡ perform o c (update_first p f c) (or_none (Option.map f (first p c))))
  pub update_many : (A → Bool) → (A → A) → List A → List A × Result ℕ
  pub update_many_lem :
      (p : A → Bool) (f : A → A) (c : List A)
      → (o : Option DriverError) × (q : A → Bool) × (update_many p f c
          ≡ perform_many o q (λ r. update_all r f c) (λ r. count_if r c) p)
  pub delete_one : (A → Bool) → List A → List A × Result ℕ
  pub delete_one_lem :
      (p : A → Bool) (c : List A)
      → (o : Outcome) × (delete_one p c ≡ perform o c (delete_first p c) (ok (matched p c)))
  pub delete_many : (A → Bool) → List A → List A × Result ℕ
  pub delete_many_lem :
      (p : A → Bool) (c : List A)
      → (o : Option DriverError) × (q : A → Bool) × (delete_many p c
          ≡ perform_many o q (λ r. delete_all r c) (λ r. count_if r c) p)

-- A collection in memory, whose calls never fail: the documented behaviour can be met.
unfoldable pub memory : {A : Type 0} → (A → A → Bool) → Collection A
memory clash = record {
  clash = clash;
  find_one = λ p c. or_none (first p c);
  find_one_lem = λ p c. (none, refl);
  find = λ p c. ok (select p c);
  find_lem = λ p c. (none, refl);
  count_documents = λ p c. ok (count_if p c);
  count_documents_lem = λ p c. (none, refl);
  insert_one =
      λ a c. if any (clash a) c then (c, err (driver duplicate_key)) else (c ++ a ∷ [], ok tt);
  insert_one_lem = λ a c. (done, refl);
  update_one = λ p f c. (update_first p f c, ok (matched p c));
  update_one_lem = λ p f c. (done, refl);
  try_update_one = λ p f c.
      if refuses p f c
      then (c, err (driver (failed 0)))
      else (update_first p (λ a. Option.get_or (f a) a) c, ok (matched p c));
  try_update_one_lem = λ p f c. (done, failed 0, refl);
  find_one_and_update = λ p f c. (update_first p f c, or_none (Option.map f (first p c)));
  find_one_and_update_lem = λ p f c. (done, refl);
  update_many = λ p f c. (update_all p f c, ok (count_if p c));
  update_many_lem = λ p f c. (none, (λ _. true), refl);
  delete_one = λ p c. (delete_first p c, ok (matched p c));
  delete_one_lem = λ p c. (done, refl);
  delete_many = λ p c. (delete_all p c, ok (count_if p c));
  delete_many_lem = λ p c. (none, (λ _. true), refl);
}
