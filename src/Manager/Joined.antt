-- ===== src/Manager/Joined.antt =====
-- What a submission returns: the operation of its kind that is in flight, or a new one where nothing is.
use neo_line.Prelude.{
  true, false, List, [], ◌∷◌, ◌++◌, ◌∙◌, any, driver, duplicate_key, if◌then◌else◌, ℕ, ◌≡◌, ◌⊎◌,
  inl, inr, Bool, not, ◌&&◌, String, Option, none, some, arith, Result, ok, err, no_documents,
  issuance_in_flight, first, count_if, ap, sym, ltb,
}
use neo_line.Mongo.Documents.{Outcome, perform}
use neo_line.Certificates.Types.{CertificateOperation, OperationType, Database, type_beq}
use neo_line.Certificates.Store.{Store, Method, execute, ◌>>=◌, ◌>>◌, require, from}
use neo_line.Certificates.Operations.{
  create_operation, prepared, find_running_operation, has_running_operation, in_flight_for,
}
use neo_line.Certificates.Inversion.{
  on_operations-ok, perform-ok, return-ok, >>=-ok, >>-ok, require-ok, return-value, from-ok,
}
use neo_line.Certificates.Claims.{found_one, counted}
use neo_line.Manager.Submit.{join, found_or_none, optional, create_pending}

found_or_none-some : {A : Type 0} (r : Result A) (a : A) → found_or_none r ≡ ok (some a) → r ≡ ok a
unfolding found_or_none
found_or_none-some (ok b) a h = ground arith
found_or_none-some (err no_documents) a h = cc
found_or_none-some (err _) a h = cc

optional-some :
    {A : Type 0} (m : Method A) (s t : Store) (a : A)
    → optional m s ≡ (t, ok (some a))
    → m s ≡ (t, ok a)
unfolding optional
optional-some {A} m s t a h =
    let state = ap (λ (r : Store × Result (Option A)). r.0) h in
    let value = found_or_none-some (m s).1 a (ap (λ (r : Store × Result (Option A)). r.1) h) in
    λ i. (state i, value i)

idle-zero : (n m : ℕ) → not (ltb 0 n) ≡ true → n ≡ m → m ≡ 0
idle-zero n m h e = ground arith

abbrev pub waits_for : String → OperationType → CertificateOperation → Bool
waits_for cert_id kind op = in_flight_for cert_id op && type_beq op.kind kind

-- The operation of the kind that is in flight, with nothing changed; or the new document, where the
-- certificate has nothing in flight, added to the operations.
abbrev pub Joins :
    ℕ
    → String
    → OperationType
    → String
    → Result CertificateOperation
    → Store
    → Store
    → CertificateOperation
    → Type 0
Joins now fresh kind cert_id op s t r =
    ((first (waits_for cert_id kind) s.operations ≡ some r) × (t ≡ s))
    ⊎ ((doc : CertificateOperation) × (op ≡ ok doc)
        × (r ≡ prepared now fresh doc)
        × (count_if (in_flight_for cert_id) s.operations ≡ 0)
        × (t.operations ≡ s.operations ++ r ∷ [])
        × (t.certificates ≡ s.certificates))

module _ (db : Database) where
  open db use {operations}

  pub found_running :
      (cert_id : String) (kind : OperationType) (s t : Store) (o : Option CertificateOperation)
      → optional (find_running_operation db cert_id kind) s ≡ (t, ok o)
      → t ≡ s
  unfolding optional find_running_operation execute
  found_running cert_id kind s t o h =
      sym (ap (λ (r : Store × Result (Option CertificateOperation)). r.0) h)

  pub joined :
      (cert_id : String) (kind : OperationType) (s t : Store) (r : CertificateOperation)
      → optional (find_running_operation db cert_id kind) s ≡ (t, ok (some r))
      → first (waits_for cert_id kind) s.operations ≡ some r
  unfolding find_running_operation
  joined cert_id kind s t r h =
      (found_one operations (waits_for cert_id kind) s t r (optional-some _ s t r h)).0

  inserted-ok :
      (doc : CertificateOperation) (xs ys : List CertificateOperation)
      → operations.insert_one doc xs ≡ (ys, ok tt)
      → ys ≡ xs ++ doc ∷ []
  inserted-ok doc xs ys h =
      let (o, l) = operations.insert_one_lem doc xs in
      branches o (any (operations.clash doc) xs) (sym l ∙ h)
    where
      branches :
          (o : Outcome) (b : Bool)
          → (if b
              then (xs, err (driver duplicate_key))
              else perform {R = Unit {0}} o xs (xs ++ doc ∷ []) (ok tt))
            ≡ (ys, ok tt)
          → ys ≡ xs ++ doc ∷ []
      branches o true e = cc (ap (λ (w : List CertificateOperation × Result (Unit {0})). w.1) e)
      branches o false e = (perform-ok o xs _ ys (ok tt) tt e).0

  create-value :
      (now : ℕ) (fresh : String) (doc : CertificateOperation) (s t : Store)
      (r : CertificateOperation)
      → create_operation db now fresh doc s ≡ (t, ok r)
      → (r ≡ prepared now fresh doc)
        × (t.operations ≡ s.operations ++ r ∷ [])
        × (t.certificates ≡ s.certificates)
  unfolding create_operation
  create-value now fresh doc s t r h =
      let (u, j, k) = >>-ok _ _ s t r h in
      let same = sym (return-value (prepared now fresh doc) r u t k) in
      let (e, c) = on_operations-ok (operations.insert_one (prepared now fresh doc)) s u tt j in
      let ends : u ≡ t = return-ok (prepared now fresh doc) r u t k in
      (same, rw (← ends, same) (inserted-ok _ _ _ e), rw (← ends) c)

  -- Creating a pending operation joins the one of its kind that is in flight, or creates one where
  -- nothing is: where it joins, nothing is changed, and what it creates is added to the stored operations
  -- as it is returned.
  pub create_pending-Joins :
      (now : ℕ) (fresh : String) (kind : OperationType) (cert_id : String)
      (op : Result CertificateOperation) (s t : Store) (r : CertificateOperation)
      → create_pending db now fresh kind cert_id op s ≡ (t, ok r)
      → Joins now fresh kind cert_id op s t r
  unfolding create_pending has_running_operation join
  create_pending-Joins now fresh kind cert_id op s t r h =
      let (o, s₁, h₁, k₁) = >>=-ok _ _ s t r h in
      let same = found_running cert_id kind s s₁ o h₁ in branches o s₁ same h₁ k₁
    where
      created :
          (s₁ : Store)
          → s₁ ≡ s
          → (do
            busy ← has_running_operation db cert_id
            require (not busy) issuance_in_flight
            doc ← from op
            create_operation db now fresh doc)
              s₁
            ≡ (t, ok r)
          → Joins now fresh kind cert_id op s t r
      created s₁ same k =
          let (busy, s₂, h₂, k₂) = >>=-ok _ _ s₁ t r k in
          let (s₃, h₃, k₃) = >>-ok _ _ s₂ t r k₂ in
          let (doc, s₄, h₄, k₄) = >>=-ok _ _ s₃ t r k₃ in
          let (n, s₅, h₅, k₅) = >>=-ok _ _ s₁ s₂ busy h₂ in
          let (m, m_same) = counted operations (in_flight_for cert_id) s₁ s₅ n h₅ in
          let idle = (require-ok (not busy) issuance_in_flight s₂ s₃ h₃).0 in
          let zero : count_if (in_flight_for cert_id) s₁.operations ≡ 0 =
            idle-zero n _ (rw (← return-value (ltb 0 n) busy s₅ s₂ k₅) at idle) m in
          let (same₄, was₄) : (s₄ ≡ s₃) × (s₃ ≡ s₂) =
            ((from-ok op doc s₃ s₄ h₄).1, (require-ok (not busy) issuance_in_flight s₂ s₃ h₃).1) in
          let there : s₄ ≡ s =
            same₄ ∙ was₄ ∙ sym (return-ok (ltb 0 n) busy s₅ s₂ k₅) ∙ m_same ∙ same in
          let (value, added, kept) = create-value now fresh doc s₄ t r k₄ in
          inr (
            doc,
            (from-ok op doc s₃ s₄ h₄).0,
            value,
            rw same at zero,
            added ∙ ap (λ (w : Store). w.operations ++ r ∷ []) there,
            kept ∙ ap (λ (w : Store). w.certificates) there,
          )

      branches :
          (o : Option CertificateOperation) (s₁ : Store)
          → s₁ ≡ s
          → optional (find_running_operation db cert_id kind) s ≡ (s₁, ok o)
          → join o
              (do
                busy ← has_running_operation db cert_id
                require (not busy) issuance_in_flight
                doc ← from op
                create_operation db now fresh doc)
              s₁
            ≡ (t, ok r)
          → Joins now fresh kind cert_id op s t r
      branches none s₁ same h₁ k₁ = created s₁ same k₁
      branches (some found) s₁ same h₁ k₁ = inl (
        joined cert_id kind s s₁ r (rw (return-value found r s₁ t k₁) at h₁),
        sym (return-ok found r s₁ t k₁) ∙ same,
      )
