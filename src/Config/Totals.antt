-- ===== src/Config/Totals.antt =====
-- Methods of an importer that return, by the entries that they count.
use neo_line.Config.Keeps.{Keeps}
use neo_line.Config.Tally.{Adds, counted}
use neo_line.Prelude.{sym, subst, ℕ, ◌+◌, ◌^◌, ◌<◌, ◌≡◌, arith}
use neo_line.Config.Backend.{Ending, returned, raised, invalid_input, unfinished}
use neo_line.Config.Report.{
  ResourceType, Importer, Importing, resume, return, reading, acting, update, ◌>>=◌,
}

-- What holds where a run returned; it does not hold where it ended otherwise.
abbrev pub Returned : {A : Type 0} → Type 0 → Ending A → Type 0
Returned P (returned a) = P
Returned P (raised e) = ⊥
Returned P invalid_input = ⊥
Returned P unfinished = ⊥

-- A method returns, counts `n` entries and keeps `P` of the store, where `P` holds before it.
pub record Totals {S A : Type 0} (P : S → Type 0) (q : ResourceType) (n : ℕ) (m : Importing S A)
    : Type 0 where
  pub at :
      (im : Importer S)
      → P im.state
      → counted q im + n < 2 ^ 32
      → Returned (P (m im).0.state × (counted q (m im).0 ≡ counted q im + n)) (m im).1

module _ {S : Type 0} (P : S → Type 0) (q : ResourceType) where
  pub then-Totals :
      {A B : Type 0} (m n : ℕ) (k : Importing S A) (f : A → Importing S B)
      → Totals P q m k
      → ((a : A) → Totals P q n (f a))
      → Totals P q (m + n) (k >>= f)
  unfolding ◌>>=◌
  then-Totals {A} {B} m n k f h j = record {
    at = λ im p fits. resumed im (k im).0 (k im).1 fits (h.at im p (omega arith));
  }
    where
      resumed :
          (im t : Importer S) (r : Ending A)
          → counted q im + (m + n) < 2 ^ 32
          → Returned (P t.state × (counted q t ≡ counted q im + m)) r
          → Returned
              (P (resume f t r).0.state × (counted q (resume f t r).0 ≡ counted q im + (m + n)))
              (resume f t r).1
      resumed im t (returned a) fits (p, e) =
          subst (λ c. Returned (P (f a t).0.state × (counted q (f a t).0 ≡ c)) (f a t).1)
            (omega arith) ((j a).at t p (omega arith))
      resumed im t (raised e) fits h = elim h [ ]
      resumed im t invalid_input fits h = elim h [ ]
      resumed im t unfinished fits h = elim h [ ]

  pub update-Totals :
      (n : ℕ) (f : Importer S → Importer S) → Keeps P f → Adds q n f → Totals P q n (update f)
  unfolding update
  update-Totals n f k h = record { at = λ im p fits. (k.at im p, h.at im fits) }

  pub acting-Totals :
      {A : Type 0} (n : ℕ) (m : Importer S → Importer S × A)
      → Keeps P (λ im. (m im).0)
      → Adds q n (λ im. (m im).0)
      → Totals P q n (acting m)
  unfolding acting
  acting-Totals n m k h = record { at = λ im p fits. (k.at im p, h.at im fits) }

  pub return-Totals : {A : Type 0} (a : A) → Totals P q 0 (return a)
  unfolding return
  return-Totals a = record { at = λ im p h. (p, omega arith) }

  -- A method that first reads what can be read.
  pub read-Totals :
      {A B : Type 0} (n : ℕ) (r : S → Ending A) (f : A → Importing S B)
      → ((s : S) → P s → (a : A) × (r s ≡ returned a))
      → ((a : A) → Totals P q n (f a))
      → Totals P q n (reading r >>= f)
  unfolding ◌>>=◌ reading
  read-Totals {A} {B} n r f can h = record {
    at = λ im p fits.
        let (a, e) = can im.state p in
        subst
          (λ (w : Ending A).
            Returned (P (resume f im w).0.state × (counted q (resume f im w).0 ≡ counted q im + n))
              (resume f im w).1)
          (sym e) ((h a).at im p fits);
  }
