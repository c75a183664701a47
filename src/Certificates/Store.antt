-- ===== src/Certificates/Store.antt =====
-- The state of the two collections, and methods on it: a method of `MongoStore` returns the new state
-- and its result, and stops at the first error, with what was written before it kept.
use neo_line.Prelude.{ℕ, Bool, true, false, List, Result, ok, err, Error}
use neo_line.Certificates.Types.{CertificateOperation, ManagedCertificate}

pub record Store : Type 0 where
  pub operations : List CertificateOperation
  pub certificates : List ManagedCertificate

abbrev pub Method : Type 0 → Type 0
Method A = Store → Store × Result A

module _ {A : Type 0} where
  unfoldable pub return : A → Method A
  return a s = (s, ok a)

  unfoldable pub throw : Error → Method A
  throw e s = (s, err e)

  unfoldable pub from : Result A → Method A
  from r s = (s, r)

  -- A method on one of the two collections.
  unfoldable pub on_operations :
      (List CertificateOperation → List CertificateOperation × Result A) → Method A
  on_operations m s = let (c, r) = m s.operations in (record s { operations = c }, r)

  unfoldable pub on_certificates :
      (List ManagedCertificate → List ManagedCertificate × Result A) → Method A
  on_certificates m s = let (c, r) = m s.certificates in (record s { certificates = c }, r)

  unfoldable pub read_operations : (List CertificateOperation → Result A) → Method A
  read_operations q s = (s, q s.operations)

  unfoldable pub read_certificates : (List ManagedCertificate → Result A) → Method A
  read_certificates q s = (s, q s.certificates)

infixl 5 ◌>>=◌ ◌>>◌
unfoldable pub ◌>>=◌ : {A B : Type 0} → Method A → (A → Method B) → Method B
◌>>=◌ m f s = let (s', r) = m s in elim r [ ok a ↦ f a s' | err e ↦ (s', err e) ]

unfoldable pub ◌>>◌ : {B : Type 0} → Method (Unit {0}) → Method B → Method B
unfolding ◌>>=◌
m >> k = m >>= λ _. k

unfoldable pub require : Bool → Error → Method (Unit {0})
unfolding return throw
require true e = return tt
require false e = throw e

-- `res.MatchedCount == 0` is an error of the caller's.
unfoldable pub require_matched : ℕ → Error → Method (Unit {0})
unfolding return throw
require_matched ℕ.zero e = throw e
require_matched (ℕ.suc n) e = return tt

-- Runs a method; a proof that says `unfolding execute` computes through all of the above.
unfoldable pub execute : {A : Type 0} → Method A → Store → Store × Result A
unfolding return throw from on_operations on_certificates read_operations read_certificates ◌>>=◌
    ◌>>◌ require require_matched
execute m s = m s
