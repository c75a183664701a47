-- ===== src/Certificates/Preserve.antt =====
-- Rules for what a method keeps between the state before and the state after: one for each way in
-- which a method is put together, and one for each call of a collection.
use neo_line.Prelude.{
  ℕ, ◌≡◌, Bool, true, false, Option, none, some, List, Result, ok, err, Error, get_or, count_if,
  DriverError, Bool-cases, inl, inr, and-left,
}
use neo_line.Mongo.{Collection, perform_many, refuses}
use neo_line.Mongo.Documents.{update_first, update_all, Evolves}
use neo_line.Mongo.Laws.{
  Evolves-refl, Evolves-update_first, Evolves-update_all, Evolves-perform, Evolves-trans,
}
use neo_line.Certificates.Types.{CertificateOperation, ManagedCertificate}
use neo_line.Certificates.Store.{
  Store, Method, require, require_matched, on_operations, on_certificates, read_operations,
  read_certificates, return, from, execute, ◌>>=◌, ◌>>◌,
}
use neo_line.Certificates.Advances.{Advances, Advances-refl, Advances-trans}

-- The operations of `s` all stand in `t`, no others do, and each has advanced.
abbrev pub OperationsAdvance : Store → Store → Type 0
OperationsAdvance s t = Evolves Advances (λ _. ⊥) s.operations t.operations

pub OperationsAdvance-refl : (s : Store) → OperationsAdvance s s
OperationsAdvance-refl s = Evolves-refl Advances (λ _. ⊥) Advances-refl s.operations

pub OperationsAdvance-trans :
    (s t u : Store) → OperationsAdvance s t → OperationsAdvance t u → OperationsAdvance s u
OperationsAdvance-trans s t u =
    Evolves-trans Advances (λ _. ⊥) Advances-trans (λ x y h k. h) s.operations t.operations
      u.operations

module _ (c : Collection CertificateOperation) where
  open c use {
    update_one, update_one_lem, find_one_and_update, find_one_and_update_lem, try_update_one,
    try_update_one_lem, update_many, update_many_lem,
  }

  module _ (p : CertificateOperation → Bool) (f : CertificateOperation → CertificateOperation)
      (k : (x : CertificateOperation) → p x ≡ true → Advances x (f x)) where
    step_first :
        (xs : List CertificateOperation) → Evolves Advances (λ _. ⊥) xs (update_first p f xs)
    step_first xs = Evolves-update_first Advances (λ _. ⊥) Advances-refl p f xs k

    pub update_one-Advances :
        (xs : List CertificateOperation) → Evolves Advances (λ _. ⊥) xs (update_one p f xs).0
    update_one-Advances xs =
        let (o, e) = update_one_lem p f xs in
        rw e (Evolves-perform Advances (λ _. ⊥) Advances-refl o xs _ _ (step_first xs))

    pub find_one_and_update-Advances :
        (xs : List CertificateOperation)
        → Evolves Advances (λ _. ⊥) xs (find_one_and_update p f xs).0
    find_one_and_update-Advances xs =
        let (o, e) = find_one_and_update_lem p f xs in
        rw e (Evolves-perform Advances (λ _. ⊥) Advances-refl o xs _ _ (step_first xs))

    perform_many-Advances :
        (o : Option DriverError) (q : CertificateOperation → Bool) (xs : List CertificateOperation)
        → Evolves Advances
            (λ _. ⊥)
            xs
            (perform_many o q (λ r. update_all r f xs) (λ r. count_if r xs) p).0
    perform_many-Advances none q xs = Evolves-update_all Advances (λ _. ⊥) Advances-refl p f xs k
    perform_many-Advances (some e) q xs =
        Evolves-update_all Advances (λ _. ⊥) Advances-refl _ f xs
          (λ x h. k x (and-left (p x) (q x) h))

    pub update_many-Advances :
        (xs : List CertificateOperation) → Evolves Advances (λ _. ⊥) xs (update_many p f xs).0
    update_many-Advances xs =
        let (o, q, e) = update_many_lem p f xs in rw e (perform_many-Advances o q xs)

  pub try_update_one-Advances :
      (p : CertificateOperation → Bool) (f : CertificateOperation → Option CertificateOperation)
      → ((x : CertificateOperation) → p x ≡ true → Advances x (get_or (f x) x))
      → (xs : List CertificateOperation) → Evolves Advances (λ _. ⊥) xs (try_update_one p f xs).0
  try_update_one-Advances p f k xs =
      let (o, d, e) = try_update_one_lem p f xs in
      elim (Bool-cases (refuses p f xs)) [
        | inl t ↦ rw (e, t) (Evolves-refl Advances (λ _. ⊥) Advances-refl xs)
        | inr t ↦
            rw (e, t)
              (Evolves-perform Advances (λ _. ⊥) Advances-refl o xs _ _
                (step_first p (λ a. get_or (f a) a) k xs))
      ]

-- A method that moves every operation along its life, from any state.
pub record Moves {A : Type 0} (m : Method A) : Type 0 where
  pub apply : (s : Store) → OperationsAdvance s (m s).0

then_advances :
    {A B : Type 0} (f : A → Method B)
    → ((a : A) → Moves (f a))
    → (s : Store) (r : Store × Result A) → OperationsAdvance s r.0
    → OperationsAdvance s (◌>>=◌ (λ _. r) f s).0
unfolding execute
then_advances f k s (t, ok a) h = OperationsAdvance-trans s t (f a t).0 h ((k a).apply t)
then_advances f k s (t, err e) h = h

pub >>=-Moves :
    {A B : Type 0} (m : Method A) (f : A → Method B)
    → Moves m
    → ((a : A) → Moves (f a))
    → Moves (m >>= f)
unfolding execute
>>=-Moves m f h k = record { apply = λ s. then_advances f k s (m s) (h.apply s) }

pub >>-Moves :
    {B : Type 0} (m : Method (Unit {0})) (k : Method B) → Moves m → Moves k → Moves (m >> k)
unfolding execute
>>-Moves m k h j = >>=-Moves m (λ _. k) h (λ _. j)

pub require-Moves : (b : Bool) (e : Error) → Moves (require b e)
unfolding execute
require-Moves true e = record { apply = OperationsAdvance-refl }
require-Moves false e = record { apply = OperationsAdvance-refl }

pub require_matched-Moves : (n : ℕ) (e : Error) → Moves (require_matched n e)
unfolding execute
require_matched-Moves ℕ.zero e = record { apply = OperationsAdvance-refl }
require_matched-Moves (ℕ.suc n) e = record { apply = OperationsAdvance-refl }

-- What does not write an operation leaves all of them as they are.
pub return-Moves : {A : Type 0} (a : A) → Moves (return a)
unfolding execute
return-Moves a = record { apply = OperationsAdvance-refl }

pub from-Moves : {A : Type 0} (r : Result A) → Moves (from r)
unfolding execute
from-Moves r = record { apply = OperationsAdvance-refl }

pub read_operations-Moves :
    {A : Type 0} (q : List CertificateOperation → Result A) → Moves (read_operations q)
unfolding execute
read_operations-Moves q = record { apply = OperationsAdvance-refl }

pub read_certificates-Moves :
    {A : Type 0} (q : List ManagedCertificate → Result A) → Moves (read_certificates q)
unfolding execute
read_certificates-Moves q = record { apply = OperationsAdvance-refl }

pub on_certificates-Moves :
    {A : Type 0} (m : List ManagedCertificate → List ManagedCertificate × Result A)
    → Moves (on_certificates m)
unfolding execute
on_certificates-Moves m = record { apply = OperationsAdvance-refl }

pub on_operations-Moves :
    {A : Type 0} (m : List CertificateOperation → List CertificateOperation × Result A)
    → ((xs : List CertificateOperation) → Evolves Advances (λ _. ⊥) xs (m xs).0)
    → Moves (on_operations m)
unfolding execute
on_operations-Moves m h = record { apply = λ s. h s.operations }

pub ruleset moves = (
  >>=-Moves, >>-Moves, require-Moves, require_matched-Moves, return-Moves, from-Moves,
  read_operations-Moves, read_certificates-Moves, on_certificates-Moves, on_operations-Moves,
)
