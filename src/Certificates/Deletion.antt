-- ===== src/Certificates/Deletion.antt =====
-- DeleteManagedCertificate in internal/store/managed_certificates.go: what it leaves of the operations.
use neo_line.Prelude.{
  ℕ, ◌≡◌, Bool, true, false, String, ◌==◌, Option, none, some, List, Result, ok, err, Error,
  DriverError, count_if, and-left,
}
use neo_line.Mongo.{perform_many}
use neo_line.Mongo.Documents.{delete_all}
use neo_line.Certificates.Types.{CertificateOperation, ManagedCertificate, Database}
use neo_line.Certificates.Store.{
  Store, Method, require, require_matched, on_operations, on_certificates, read_operations,
  read_certificates, return, execute, ◌>>=◌, ◌>>◌,
}
use neo_line.Certificates.Operations.{has_running_operation}
use neo_line.Certificates.Versions.{delete_certificate, get_certificate}

module _ (P : List CertificateOperation → Type 0) where
  -- A method that keeps the property of the operations, from any state.
  record Keeps {A : Type 0} (m : Method A) : Type 0 where
    pub apply : (s : Store) → P s.operations → P (m s).0.operations

  then_keeps :
      {A B : Type 0} (f : A → Method B)
      → ((a : A) → Keeps (f a))
      → (r : Store × Result A) → P r.0.operations
      → (s : Store) → P (◌>>=◌ (λ _. r) f s).0.operations
  unfolding execute
  then_keeps f k (t, ok a) h s = (k a).apply t h
  then_keeps f k (t, err e) h s = h

  >>=-Keeps :
      {A B : Type 0} (m : Method A) (f : A → Method B)
      → Keeps m
      → ((a : A) → Keeps (f a))
      → Keeps (m >>= f)
  unfolding execute
  >>=-Keeps m f h k = record { apply = λ s p. then_keeps f k (m s) (h.apply s p) s }

  >>-Keeps :
      {B : Type 0} (m : Method (Unit {0})) (k : Method B) → Keeps m → Keeps k → Keeps (m >> k)
  unfolding execute
  >>-Keeps m k h j = >>=-Keeps m (λ _. k) h (λ _. j)

  require-Keeps : (b : Bool) (e : Error) → Keeps (require b e)
  unfolding execute
  require-Keeps true e = record { apply = λ s p. p }
  require-Keeps false e = record { apply = λ s p. p }

  require_matched-Keeps : (n : ℕ) (e : Error) → Keeps (require_matched n e)
  unfolding execute
  require_matched-Keeps ℕ.zero e = record { apply = λ s p. p }
  require_matched-Keeps (ℕ.suc n) e = record { apply = λ s p. p }

  return-Keeps : {A : Type 0} (a : A) → Keeps (return a)
  unfolding execute
  return-Keeps a = record { apply = λ s p. p }

  read_operations-Keeps :
      {A : Type 0} (q : List CertificateOperation → Result A) → Keeps (read_operations q)
  unfolding execute
  read_operations-Keeps q = record { apply = λ s p. p }

  read_certificates-Keeps :
      {A : Type 0} (q : List ManagedCertificate → Result A) → Keeps (read_certificates q)
  unfolding execute
  read_certificates-Keeps q = record { apply = λ s p. p }

  on_certificates-Keeps :
      {A : Type 0} (m : List ManagedCertificate → List ManagedCertificate × Result A)
      → Keeps (on_certificates m)
  unfolding execute
  on_certificates-Keeps m = record { apply = λ s p. p }

  on_operations-Keeps :
      {A : Type 0} (m : List CertificateOperation → List CertificateOperation × Result A)
      → ((xs : List CertificateOperation) → P xs → P (m xs).0)
      → Keeps (on_operations m)
  unfolding execute
  on_operations-Keeps m h = record { apply = λ s. h s.operations }

  ruleset keeps = (
    >>=-Keeps, >>-Keeps, require-Keeps, require_matched-Keeps, return-Keeps, read_operations-Keeps,
    read_certificates-Keeps, on_certificates-Keeps, on_operations-Keeps,
  )

  module _ (db : Database) (id : String)
      (removes : (p : CertificateOperation → Bool) (xs : List CertificateOperation)
        → ((x : CertificateOperation) → p x ≡ true → (x.managed_certificate_id == id) ≡ true)
        → P xs
        → P (delete_all p xs)) where
    open db use {operations, certificates}

    performed :
        (o : Option DriverError) (q : CertificateOperation → Bool) (xs : List CertificateOperation)
        → P xs
        → P
            (perform_many o q
              (λ r. delete_all r xs)
              (λ r. count_if r xs)
              (λ op. op.managed_certificate_id == id)).0
    performed none q xs h = removes _ xs (λ x k. k) h
    performed (some e) q xs h = removes _ xs (λ x k. and-left _ (q x) k) h

    deleted :
        (xs : List CertificateOperation)
        → P xs
        → P (operations.delete_many (λ op. op.managed_certificate_id == id) xs).0
    deleted xs h =
        let (o, q, e) = operations.delete_many_lem (λ op. op.managed_certificate_id == id) xs in
        rw e (performed o q xs h)

    delete_certificate-Keeps : Keeps (delete_certificate db id)
    unfolding delete_certificate get_certificate has_running_operation
    delete_certificate-Keeps = search (keeps, deleted) depth 12

    -- A property that no removal of operations of the certificate breaks is kept.
    pub delete_certificate-keeps :
        (s : Store) → P s.operations → P (delete_certificate db id s).0.operations
    delete_certificate-keeps = delete_certificate-Keeps.apply
