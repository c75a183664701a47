-- ===== src/Certificates/History.antt =====
-- What holds of the operations after every history of calls.
use neo_line.Prelude.{
  subst, sym, Bool-cases, ℕ, ◌≤◌, ◌≡◌, ◌⊎◌, refl, Bool, true, false, String, ◌==◌, eq_iff, List, [],
  ◌∷◌, ◌++◌, arith, any, count_if, count_if-append, All, Result, ok, err, driver, duplicate_key, ap,
  if◌then◌else◌, inl, inr,
}
use neo_line.Mongo.Documents.{Outcome, done, rejected, unacknowledged, perform, Evolves, delete_all}
use neo_line.Mongo.Laws.{Evolves-insert, Evolves-refl, count_if-delete_all-le}
use neo_line.Certificates.Types.{
  CertificateOperation, IssueConfigSnapshot, OperationType, Database, in_flight, operation_clash,
}
use neo_line.Certificates.Store.{Store, execute, ◌>>◌, on_operations, return}
use neo_line.Certificates.Operations.{create_operation, prepared, in_flight_for}
use neo_line.Certificates.Advances.{IsFormed, Advances, Advances-refl, Advances-trans}
use neo_line.Certificates.Deletion.{delete_certificate-keeps}
use neo_line.Certificates.Commands.{
  deletes_certificate, is_deletion_of, Command, creates, new_operation, step, run, step-advances,
}

-- At most one operation of each certificate is in flight.
abbrev pub IsExclusive : List CertificateOperation → Type 0
IsExclusive xs = (cert_id : String) → count_if (in_flight_for cert_id) xs ≤ 1

module _ (D : String → Type 0) where
  -- The operations that remain stand in their order and have advanced; those that are gone are of the
  -- certificates in `D`; the new ones are well formed and stand behind.
  abbrev pub Continues : List CertificateOperation → List CertificateOperation → Type 0
  Continues [] ys = All IsFormed ys
  Continues (x ∷ xs) [] = D x.managed_certificate_id × Continues xs []
  Continues (x ∷ xs) (y ∷ ys) =
      (Advances x y × Continues xs ys) ⊎ (D x.managed_certificate_id × Continues xs (y ∷ ys))

  dropped :
      (x : CertificateOperation) (xs ys : List CertificateOperation)
      → D x.managed_certificate_id
      → Continues xs ys
      → Continues (x ∷ xs) ys
  dropped x xs [] d h = (d, h)
  dropped x xs (y ∷ ys) d h = inr (d, h)

  Evolves-Continues :
      (xs ys : List CertificateOperation) → Evolves Advances IsFormed xs ys → Continues xs ys
  Evolves-Continues [] ys h = h
  Evolves-Continues (x ∷ xs) [] h = elim h [ ]
  Evolves-Continues (x ∷ xs) (y ∷ ys) h = inl (h.0, Evolves-Continues xs ys h.1)

  Continues-refl : (xs : List CertificateOperation) → Continues xs xs
  Continues-refl xs = Evolves-Continues xs xs (Evolves-refl Advances IsFormed Advances-refl xs)

  pub Continues-IsFormed :
      (xs ys : List CertificateOperation) → Continues xs ys → All IsFormed xs → All IsFormed ys
  Continues-IsFormed [] ys h f = h
  Continues-IsFormed (x ∷ xs) [] h f = tt
  Continues-IsFormed (x ∷ xs) (y ∷ ys) (inl (a, h)) f =
      (a.stays_formed f.0, Continues-IsFormed xs ys h f.1)
  Continues-IsFormed (x ∷ xs) (y ∷ ys) (inr (_, h)) f = Continues-IsFormed xs (y ∷ ys) h f.1

  Continues-trans :
      (xs ys zs : List CertificateOperation) → Continues xs ys → Continues ys zs → Continues xs zs
  Continues-trans [] ys zs h k = Continues-IsFormed ys zs k h
  Continues-trans (x ∷ xs) [] zs (d, h) k = dropped x xs zs d (Continues-trans xs [] zs h k)
  Continues-trans (x ∷ xs) (y ∷ ys) zs (inr (d, h)) k =
      dropped x xs zs d (Continues-trans xs (y ∷ ys) zs h k)
  Continues-trans (x ∷ xs) (y ∷ ys) [] (inl (a, h)) (d, k) =
      (subst D a.same_certificate d, Continues-trans xs ys [] h k)
  Continues-trans (x ∷ xs) (y ∷ ys) (z ∷ zs) (inl (a, h)) (inl (b, k)) =
      inl (Advances-trans x y z a b, Continues-trans xs ys zs h k)
  Continues-trans (x ∷ xs) (y ∷ ys) (z ∷ zs) (inl (a, h)) (inr (d, k)) =
      inr (subst D a.same_certificate d, Continues-trans xs ys (z ∷ zs) h k)

  delete_all-Continues :
      (p : CertificateOperation → Bool) (xs : List CertificateOperation)
      → ((x : CertificateOperation) → p x ≡ true → D x.managed_certificate_id)
      → Continues xs (delete_all p xs)
  unfolding delete_all
  delete_all-Continues p [] k = tt
  delete_all-Continues p (x ∷ xs) k = elim (Bool-cases (p x)) [
    | inl e ↦ rw e (dropped x xs (delete_all p xs) (k x e) (delete_all-Continues p xs k))
    | inr e ↦ rw e (inl (Advances-refl x, delete_all-Continues p xs k))
  ]

Evolves-weaken :
    (xs ys : List CertificateOperation)
    → Evolves Advances (λ _. ⊥) xs ys
    → Evolves Advances IsFormed xs ys
Evolves-weaken [] [] h = tt
Evolves-weaken [] (y ∷ ys) h = absurd h.0
Evolves-weaken (x ∷ xs) [] h = elim h [ ]
Evolves-weaken (x ∷ xs) (y ∷ ys) h = (h.0, Evolves-weaken xs ys h.1)

in_flight_for-before :
    (cert_id : String) (x y : CertificateOperation)
    → Advances x y
    → in_flight_for cert_id y ≡ true
    → in_flight_for cert_id x ≡ true
unfolding in_flight_for
in_flight_for-before cert_id x y a h = ground (arith, ap (λ c. c == cert_id) a.same_certificate)

advance-count :
    (cert_id : String) (xs ys : List CertificateOperation)
    → Evolves Advances (λ _. ⊥) xs ys
    → count_if (in_flight_for cert_id) ys ≤ count_if (in_flight_for cert_id) xs
advance-count cert_id [] [] h = omega arith
advance-count cert_id [] (y ∷ ys) h = absurd h.0
advance-count cert_id (x ∷ xs) [] h = elim h [ ]
advance-count cert_id (x ∷ xs) (y ∷ ys) h =
    ground (arith, in_flight_for-before cert_id x y h.0, advance-count cert_id xs ys h.1)

new_operation-IsFormed :
    (kind : OperationType) (cert : String) (snap : IssueConfigSnapshot) (target : String)
    (reason : ℕ) (now : ℕ) (fresh : String)
    → IsFormed (prepared now fresh (new_operation kind cert snap target reason))
unfolding new_operation prepared
new_operation-IsFormed kind cert snap target reason now fresh = ground arith

-- A document that clashes with none of those in flight is the first of its certificate.
no_clash-count :
    (doc : CertificateOperation) (xs : List CertificateOperation)
    → in_flight doc.status ≡ true
    → any (operation_clash doc) xs ≡ false
    → count_if (in_flight_for doc.managed_certificate_id) xs ≡ 0
unfolding operation_clash in_flight_for
no_clash-count doc [] f h = refl
no_clash-count doc (x ∷ xs) f h = ground (
  arith,
  eq_iff doc.managed_certificate_id x.managed_certificate_id,
  eq_iff x.managed_certificate_id doc.managed_certificate_id,
  no_clash-count doc xs f,
)

new_operation-in_flight :
    (kind : OperationType) (cert : String) (snap : IssueConfigSnapshot) (target : String)
    (reason : ℕ) (now : ℕ) (fresh : String)
    → in_flight (prepared now fresh (new_operation kind cert snap target reason)).status ≡ true
unfolding new_operation prepared
new_operation-in_flight kind cert snap target reason now fresh = refl

insert-count :
    (cert_id : String) (doc : CertificateOperation) (xs : List CertificateOperation)
    → in_flight doc.status ≡ true
    → any (operation_clash doc) xs ≡ false
    → count_if (in_flight_for cert_id) xs ≤ 1
    → count_if (in_flight_for cert_id) (xs ++ doc ∷ []) ≤ 1
unfolding in_flight_for
insert-count cert_id doc xs f h k = ground (
  arith,
  count_if-append (in_flight_for cert_id) xs (doc ∷ []),
  no_clash-count doc xs f h,
  eq_iff doc.managed_certificate_id cert_id,
)

module _ (db : Database) where
  open db use {operations, operations_indexed}

  create-operations :
      (now : ℕ) (fresh : String) (op : CertificateOperation) (s : Store)
      → (create_operation db now fresh op s).0.operations
        ≡ (operations.insert_one (prepared now fresh op) s.operations).0
  unfolding create_operation execute
  create-operations now fresh op s = results (operations.insert_one doc s.operations)
    where
      doc : CertificateOperation
      doc = prepared now fresh op

      results :
          (r : List CertificateOperation × Result (Unit {0}))
          → (◌>>◌ (on_operations (λ _. r)) (return doc) s).0.operations ≡ r.0
      results (ys, ok _) = refl
      results (ys, err e) = refl

  inserted :
      (doc : CertificateOperation) (xs : List CertificateOperation)
      → let ys = (operations.insert_one doc xs).0 in
        (ys ≡ xs) ⊎ ((ys ≡ xs ++ doc ∷ []) × (any (operation_clash doc) xs ≡ false))
  inserted doc xs =
      let (o, e) = operations.insert_one_lem doc xs in
      rw e (rw operations_indexed (outcomes o (any (operation_clash doc) xs) refl))
    where
      outcomes :
          (o : Outcome) (b : Bool)
          → any (operation_clash doc) xs ≡ b
          → let ys =
              (if b
                then (xs, err (driver duplicate_key))
                else perform {R = Unit {0}} o xs (xs ++ doc ∷ []) (ok tt)).0 in
            (ys ≡ xs) ⊎ ((ys ≡ xs ++ doc ∷ []) × (any (operation_clash doc) xs ≡ false))
      outcomes o true h = inl refl
      outcomes done false h = inr (refl, h)
      outcomes (rejected d) false h = inl refl
      outcomes (unacknowledged d) false h = inr (refl, h)

  -- Creation adds the document at the end, where it clashes with none, or adds nothing.
  pub created :
      (now : ℕ) (fresh : String) (op : CertificateOperation) (s : Store)
      → let t = (create_operation db now fresh op s).0 in
        (t.operations ≡ s.operations)
        ⊎ ((t.operations ≡ s.operations ++ prepared now fresh op ∷ [])
            × (any (operation_clash (prepared now fresh op)) s.operations ≡ false))
  created now fresh op s =
      rw (create-operations now fresh op s) (inserted (prepared now fresh op) s.operations)

  -- A call that creates an operation, one that deletes a certificate, or any other, continues the
  -- history.
  step-Continues :
      (D : String → Type 0) (c : Command) (s : Store)
      → ((id : String) → is_deletion_of id c ≡ true → D id)
      → Continues D s.operations (step db c s).operations
  unfolding step
  step-Continues D (creates kind cert snap target reason fresh now) s k =
      elim (created now fresh (new_operation kind cert snap target reason) s) [
        | inl e ↦ rw e (Continues-refl D s.operations)
        | inr (e, _) ↦ rw e (
            Evolves-Continues D s.operations _ (
              Evolves-insert Advances IsFormed Advances-refl _ s.operations
                (new_operation-IsFormed kind cert snap target reason now fresh)))
      ]
  step-Continues D (deletes_certificate id) s k =
      delete_certificate-keeps (Continues D s.operations) db id
        (λ p xs of_it h. Continues-trans D s.operations xs (delete_all p xs) h (
          delete_all-Continues D p xs (λ x e.
            subst D (sym ((eq_iff x.managed_certificate_id id).0 (of_it x e)))
              (k id ((eq_iff id id).1 refl)))))
        s (Continues-refl D s.operations)
  step-Continues D c s k =
      Evolves-Continues D s.operations _ (Evolves-weaken s.operations _ (step-advances db c s refl))

  step-IsExclusive :
      (c : Command) (s : Store) → IsExclusive s.operations → IsExclusive (step db c s).operations
  unfolding step
  step-IsExclusive (creates kind cert snap target reason fresh now) s h cert_id =
      elim (created now fresh (new_operation kind cert snap target reason) s) [
        | inl e ↦ rw e (h cert_id)
        | inr (e, k) ↦ rw e (
            insert-count cert_id (prepared now fresh (new_operation kind cert snap target reason))
              s.operations (new_operation-in_flight kind cert snap target reason now fresh) k
              (h cert_id))
      ]
  step-IsExclusive (deletes_certificate id) s h cert_id =
      delete_certificate-keeps (λ xs. count_if (in_flight_for cert_id) xs ≤ 1) db id
        (λ p xs _ k. omega (arith, k, count_if-delete_all-le (in_flight_for cert_id) p xs)) s
        (h cert_id)
  step-IsExclusive c s h cert_id = omega (
    arith,
    advance-count cert_id s.operations (step db c s).operations (step-advances db c s refl),
    h cert_id,
  )

  Continues-within :
      (D : String → Type 0) (cs : List Command) (s : Store)
      → ((id : String) → any (is_deletion_of id) cs ≡ true → D id)
      → Continues D s.operations (run db cs s).operations
  unfolding run
  Continues-within D [] s k = Continues-refl D s.operations
  Continues-within D (c ∷ cs) s k =
      Continues-trans D s.operations (step db c s).operations (run db cs (step db c s)).operations
        (step-Continues D c s (λ id h. k id (ground arith)))
        (Continues-within D cs (step db c s) (λ id h. k id (ground arith)))

  pub run-Continues :
      (cs : List Command) (s : Store)
      → Continues (λ id. any (is_deletion_of id) cs ≡ true) s.operations (run db cs s).operations
  run-Continues cs s = Continues-within (λ id. any (is_deletion_of id) cs ≡ true) cs s (λ id h. h)

  -- After any calls by any replicas, with any failures of the database in between, every operation
  -- is well formed, if all were before.
  pub run-IsFormed :
      (cs : List Command) (s : Store)
      → All IsFormed s.operations
      → All IsFormed (run db cs s).operations
  run-IsFormed cs s =
      Continues-IsFormed _ s.operations (run db cs s).operations (run-Continues cs s)

  -- After any calls by any replicas, with any failures of the database in between, a certificate has
  -- at most one operation in flight, if this held before.
  pub run-IsExclusive :
      (cs : List Command) (s : Store)
      → IsExclusive s.operations
      → IsExclusive (run db cs s).operations
  unfolding run
  run-IsExclusive [] s h = h
  run-IsExclusive (c ∷ cs) s h = run-IsExclusive cs (step db c s) (step-IsExclusive c s h)
