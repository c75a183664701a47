-- ===== src/Certificates/Unique.antt =====
-- No two operations have the same id, after every history of calls.
use neo_line.Prelude.{
  ◌≤◌, ◌≡◌, refl, false, String, eq_iff, List, [], ◌∷◌, ◌++◌, arith, any, count_if, count_if-append,
  inl, inr,
}
use neo_line.Mongo.Documents.{Evolves}
use neo_line.Certificates.Types.{CertificateOperation, Database, operation_clash}
use neo_line.Certificates.Store.{Store}
use neo_line.Certificates.Operations.{has_id}
use neo_line.Certificates.Advances.{Advances}
use neo_line.Mongo.Laws.{count_if-delete_all-le}
use neo_line.Certificates.Deletion.{delete_certificate-keeps}
use neo_line.Certificates.Commands.{
  deletes_certificate, Command, creates, new_operation, step, run, step-advances,
}
use neo_line.Certificates.Claims.{IsUnique}
use neo_line.Certificates.History.{created}

has_id-Advances :
    (id : String) (x y : CertificateOperation) → Advances x y → has_id id y ≡ has_id id x
unfolding has_id
has_id-Advances id x y a = cc (a.same_id)

pub advance-has_id :
    (id : String) (xs ys : List CertificateOperation)
    → Evolves Advances (λ _. ⊥) xs ys
    → count_if (has_id id) ys ≡ count_if (has_id id) xs
advance-has_id id [] [] h = refl
advance-has_id id [] (y ∷ ys) h = absurd h.0
advance-has_id id (x ∷ xs) [] h = elim h [ ]
advance-has_id id (x ∷ xs) (y ∷ ys) h =
    ground (arith, has_id-Advances id x y h.0, advance-has_id id xs ys h.1)

-- A document that clashes with none is the first of its id.
no_clash-has_id :
    (doc : CertificateOperation) (xs : List CertificateOperation)
    → any (operation_clash doc) xs ≡ false
    → count_if (has_id doc.id) xs ≡ 0
unfolding operation_clash has_id
no_clash-has_id doc [] h = refl
no_clash-has_id doc (x ∷ xs) h =
    ground (arith, eq_iff doc.id x.id, eq_iff x.id doc.id, no_clash-has_id doc xs)

insert-has_id :
    (id : String) (doc : CertificateOperation) (xs : List CertificateOperation)
    → any (operation_clash doc) xs ≡ false
    → count_if (has_id id) xs ≤ 1
    → count_if (has_id id) (xs ++ doc ∷ []) ≤ 1
unfolding has_id
insert-has_id id doc xs h k =
    ground
      (arith, count_if-append (has_id id) xs (doc ∷ []), no_clash-has_id doc xs h, eq_iff doc.id id)

module _ (db : Database) (id : String) where
  step-IsUnique : (c : Command) (s : Store) → IsUnique id s → IsUnique id (step db c s)
  unfolding step
  step-IsUnique (creates kind cert snap target reason fresh now) s h =
      elim (created db now fresh (new_operation kind cert snap target reason) s) [
        | inl e ↦ rw e h
        | inr (e, k) ↦ rw e (insert-has_id id _ s.operations k h)
      ]
  step-IsUnique (deletes_certificate cert_id) s h =
      delete_certificate-keeps (λ xs. count_if (has_id id) xs ≤ 1) db cert_id
        (λ p xs _ k. omega (arith, k, count_if-delete_all-le (has_id id) p xs)) s h
  step-IsUnique c s h = omega (
    arith,
    advance-has_id id s.operations (step db c s).operations (step-advances db c s refl),
    h,
  )

  pub run-IsUnique : (cs : List Command) (s : Store) → IsUnique id s → IsUnique id (run db cs s)
  unfolding run
  run-IsUnique [] s h = h
  run-IsUnique (c ∷ cs) s h = run-IsUnique cs (step db c s) (step-IsUnique c s h)
