-- ===== src/Certificates/Txt.antt =====
-- What a held lease refuses, and what becomes of the TXT records of a cleaned attempt.
use neo_line.Prelude.{
  [], ◌∷◌, ◌==◌, ◌∙◌, sym, ap, subst, refl, inl, inr, All-append, false, ℕ, ◌≡◌, ◌≢◌, refl, Bool,
  true, false, String, Option, none, some, List, [], ◌∷◌, arith, ok, first, any, All, Bool-cases,
  inl, inr,
}
use neo_line.Mongo.{refuses}
use neo_line.Mongo.Laws.{first-All, All-delete_all}
use neo_line.Mongo.Documents.{Evolves}
use neo_line.Certificates.Advances.{Advances}
use neo_line.Certificates.Commands.{
  Command, creates, deletes_certificate, new_operation, step, run, step-advances,
}
use neo_line.Certificates.Deletion.{delete_certificate-keeps}
use neo_line.Certificates.History.{created}
use neo_line.Certificates.Types.{
  CertificateOperation, DnsChallengeRecord, Database, OperationType, IssueConfigSnapshot, null,
}
use neo_line.Certificates.Store.{Store}
use neo_line.Certificates.Operations.{has_id, claimable, lease_held, prepared}
use neo_line.Certificates.Lease.{
  ClaimParams, claims, owned_by, presented, add_to_set, txt_cleared, try_claim, record_pending_txt,
  clear_pending_txt,
}
use neo_line.Certificates.Inversion.{
  return-ok, >>=-ok, require_matched-ok, update_first-IsUpdated, IsUpdated,
}
use neo_line.Certificates.Claims.{
  IsUnique, try_claim-IsClaim, updated, accepted, claims-claimable, claims-has_id,
}

held-not-claimable :
    (now : ℕ) (x : CertificateOperation) → lease_held now x ≡ true → claimable now x ≡ false
unfolding lease_held claimable
held-not-claimable now x h = ground arith

owned_by-has_id :
    (op_id owner : String) (x : CertificateOperation)
    → owned_by op_id owner x ≡ true
    → has_id op_id x ≡ true
unfolding owned_by
owned_by-has_id op_id owner x h = ground arith

-- The server refuses `$addToSet` at the field that the cleanup has set to null.
null-refuses :
    (r : DnsChallengeRecord) (later : ℕ) (x : CertificateOperation)
    → x.pending_txt_records ≡ null
    → presented r later x ≡ none
unfolding presented add_to_set
null-refuses r later x h = rw h refl

-- The field is null in the operation with the id.
abbrev IsNulled : String → CertificateOperation → Type 0
IsNulled op_id x = has_id op_id x ≡ true → x.pending_txt_records ≡ null

cleared-IsNulled :
    (op_id : String) (now : ℕ) (xs : List CertificateOperation)
    → All (IsUpdated (has_id op_id) (has_id op_id) (txt_cleared now)) xs
    → All (IsNulled op_id) xs
unfolding txt_cleared
cleared-IsNulled op_id now [] h = tt
cleared-IsNulled op_id now (x ∷ xs) h = (
  (λ e. let (y, _, is) = h.0 e in ap (λ (z : CertificateOperation). z.pending_txt_records) is),
  cleared-IsNulled op_id now xs h.1,
)

Advances-IsNulled :
    (op_id : String) (x y : CertificateOperation)
    → Advances x y
    → IsNulled op_id x
    → IsNulled op_id y
unfolding has_id
Advances-IsNulled op_id x y a h e = a.null_kept (h (ap (λ i. i == op_id) (sym a.same_id) ∙ e))

advanced-IsNulled :
    (op_id : String) (xs ys : List CertificateOperation)
    → Evolves Advances (λ _. ⊥) xs ys
    → All (IsNulled op_id) xs
    → All (IsNulled op_id) ys
advanced-IsNulled op_id [] [] h k = tt
advanced-IsNulled op_id [] (y ∷ ys) h k = absurd h.0
advanced-IsNulled op_id (x ∷ xs) [] h k = elim h [ ]
advanced-IsNulled op_id (x ∷ xs) (y ∷ ys) h k =
    (Advances-IsNulled op_id x y h.0 k.0, advanced-IsNulled op_id xs ys h.1 k.1)

-- Whether the call creates an operation under the id.
abbrev pub creates_under : String → Command → Bool
creates_under id (creates _ _ _ _ _ fresh _) = fresh == id
creates_under id _ = false

prepared-IsNulled :
    (op_id : String) (kind : OperationType) (cert : String) (snap : IssueConfigSnapshot)
    (target : String) (reason now : ℕ) (fresh : String)
    → (fresh == op_id) ≡ false
    → IsNulled op_id (prepared now fresh (new_operation kind cert snap target reason))
unfolding has_id prepared new_operation
prepared-IsNulled op_id kind cert snap target reason now fresh other e = cc (other, e)

any-first :
    {A : Type 0} (p : A → Bool) (xs : List A) → any p xs ≡ true → (x : A) × (first p xs ≡ some x)
any-first p [] h = cc
any-first p (x ∷ xs) h = elim (Bool-cases (p x)) [
  | inl e ↦ (x, rw e)
  | inr e ↦ let (y, f) = any-first p xs (ground arith) in (y, rw e f)
]

refuses-first :
    {A : Type 0} (p : A → Bool) (f : A → Option A) (xs : List A) (x : A)
    → first p xs ≡ some x
    → f x ≡ none
    → refuses p f xs ≡ true
refuses-first p f xs x h e = ground arith

module _ (db : Database) where
  open db use {operations}

  -- While the lease of an operation is held, no replica can claim it.
  pub try_claim_held :
      (p : ClaimParams) (s t : Store) (op : CertificateOperation)
      → All (λ x. has_id p.op_id x ≡ true → lease_held p.now x ≡ true) s.operations
      → try_claim db p s ≢ (t, ok op)
  try_claim_held p s t op held h =
      let claim = try_claim-IsClaim db p s t op h in
      let (leased, passes) =
        first-All (λ x. has_id p.op_id x ≡ true → lease_held p.now x ≡ true) (claims p) s.operations
          held claim.found in
      cc (
        claims-claimable p claim.before passes,
        held-not-claimable p.now claim.before (leased (claims-has_id p claim.before passes)),
      )

  step-IsNulled :
      (op_id : String) (c : Command) (s : Store)
      → creates_under op_id c ≡ false
      → All (IsNulled op_id) s.operations
      → All (IsNulled op_id) (step db c s).operations
  unfolding step
  step-IsNulled op_id (creates kind cert snap target reason fresh now) s other h =
      elim (created db now fresh (new_operation kind cert snap target reason) s) [
        | inl e ↦ rw e h
        | inr (e, _) ↦ rw e (
            All-append _ s.operations _ h
              (prepared-IsNulled op_id kind cert snap target reason now fresh other, tt))
      ]
  step-IsNulled op_id (deletes_certificate id) s other h =
      delete_certificate-keeps (All (IsNulled op_id)) db id
        (λ p xs _ k. All-delete_all (IsNulled op_id) p xs k) s h
  step-IsNulled op_id c s other h =
      advanced-IsNulled op_id s.operations _ (step-advances db c s refl) h

  run-IsNulled :
      (op_id : String) (cs : List Command) (s : Store)
      → any (creates_under op_id) cs ≡ false
      → All (IsNulled op_id) s.operations
      → All (IsNulled op_id) (run db cs s).operations
  unfolding run
  run-IsNulled op_id [] s other h = h
  run-IsNulled op_id (c ∷ cs) s other h =
      run-IsNulled op_id cs (step db c s) (ground arith) (step-IsNulled op_id c s (ground arith) h)

  unrecordable :
      (op_id owner : String) (r : DnsChallengeRecord) (later : ℕ) (t u : Store)
      → All (IsNulled op_id) t.operations
      → record_pending_txt db op_id owner r later t ≢ (u, ok tt)
  unfolding record_pending_txt
  unrecordable op_id owner r later t u nulled k =
      let (m, t₁, k₁, k₂) = >>=-ok _ _ t u tt k in
      let (fine, e) = accepted operations (owned_by op_id owner) (presented r later) t t₁ m k₁ in
      let (positive, _) = require_matched-ok m _ t₁ u k₂ in
      let found : any (owned_by op_id owner) t.operations ≡ true = ground arith in
      let (y, f) = any-first (owned_by op_id owner) t.operations found in
      let (null_there, passes) =
        first-All (IsNulled op_id) (owned_by op_id owner) t.operations nulled f in
      cc (
        fine,
        refuses-first (owned_by op_id owner) (presented r later) t.operations y f
            (null-refuses r later y (null_there (owned_by-has_id op_id owner y passes))),
      )

  -- Once the TXT records of an operation have been cleaned up, no attempt at it can record one again,
  -- whatever calls of whichever replicas come in between, as long as none creates an operation under
  -- the same id: the cleanup leaves a null, to which the server adds nothing.
  pub cleared-unrecordable :
      (op_id owner : String) (r : DnsChallengeRecord) (now later : ℕ) (s t u : Store)
      (cs : List Command)
      → IsUnique op_id s
      → any (has_id op_id) s.operations ≡ true
      → clear_pending_txt db op_id now s ≡ (t, ok tt)
      → any (creates_under op_id) cs ≡ false
      → record_pending_txt db op_id owner r later (run db cs t) ≢ (u, ok tt)
  unfolding clear_pending_txt
  cleared-unrecordable op_id owner r now later s t u cs unique exists h other =
      let (n, s₁, h₁, h₂) = >>=-ok _ _ s t tt h in
      let (w, _) = updated operations (has_id op_id) (txt_cleared now) s s₁ n h₁ in
      let same : s₁ ≡ t = return-ok tt tt s₁ t h₂ in
      let marked =
        update_first-IsUpdated (has_id op_id) (has_id op_id) (txt_cleared now) s.operations
          (λ x o. o) unique exists in
      let nulled = cleared-IsNulled op_id now _ marked in
      unrecordable op_id owner r later (run db cs t) u (
        run-IsNulled op_id cs t other
          (subst (All (IsNulled op_id)) (sym w ∙ ap (λ (v : Store). v.operations) same) nulled))
