-- ===== src/Manager/Normal.antt =====
-- Lists of normalised names are normalised again to themselves.
use neo_line.Prelude.{
  All-append, ◌≡◌, ◌≤◌, ◌<◌, refl, ap, sym, subst, ◌∙◌, Bool, true, false, not, ◌&&◌, ◌||◌, inl,
  inr, String, eq_iff, List, [], ◌∷◌, ◌++◌, length, Result, ok, err, arith, Bool-cases, ltb, All,
}
use neo_line.Manager.Domains.{
  Idna, normalize_domain, member, normalize_each, add_name, within_limit, normalize_domains,
  max_certificate_domains,
}
use neo_line.Manager.Names.{normalize_domain-again}

-- No name twice.
abbrev pub unique : List String → Bool
unique [] = true
unique (d ∷ ds) = not (member d ds) && unique ds

module _ (idna : Idna) where
  abbrev Normal : String → Type 0
  Normal d = normalize_domain idna d ≡ ok d

  member-append :
      (d : String) (xs ys : List String) → member d (xs ++ ys) ≡ (member d xs || member d ys)
  member-append d [] ys = refl
  member-append d (x ∷ xs) ys = ground (arith, member-append d xs ys)

  unique-append_one :
      (d : String) (ds : List String)
      → unique ds ≡ true
      → member d ds ≡ false
      → unique (ds ++ d ∷ []) ≡ true
  unique-append_one d [] u m = refl
  unique-append_one d (x ∷ xs) u m =
      ground (arith, unique-append_one d xs, member-append x xs (d ∷ []), eq_iff x d, eq_iff d x)

  unique-append-fresh :
      (d : String) (xs ys : List String) → unique (xs ++ d ∷ ys) ≡ true → member d xs ≡ false
  unique-append-fresh d [] ys u = refl
  unique-append-fresh d (x ∷ xs) ys u =
      ground
        (arith, unique-append-fresh d xs ys, member-append x xs (d ∷ ys), eq_iff x d, eq_iff d x)

  append-empty : (xs : List String) → xs ++ [] ≡ xs
  append-empty [] = refl
  append-empty (x ∷ xs) = ap (λ zs. x ∷ zs) (append-empty xs)

  append-one : (d : String) (xs ys : List String) → (xs ++ d ∷ []) ++ ys ≡ xs ++ d ∷ ys
  append-one d [] ys = refl
  append-one d (x ∷ xs) ys = ap (λ zs. x ∷ zs) (append-one d xs ys)

  -- One more name, or one that is seen.
  add_name-Normal :
      (continue : List String → Result (List String)) (raw : String) (out ds : List String)
      (r : Result String)
      → normalize_domain idna raw ≡ r
      → All Normal out
      → unique out ≡ true
      → add_name continue out r ≡ ok ds
      → (next : List String) × All Normal next × (unique next ≡ true) × (continue next ≡ ok ds)
  unfolding add_name
  add_name-Normal continue raw out ds (err x) e n u h = cc h
  add_name-Normal continue raw out ds (ok d) e n u h = elim (Bool-cases (member d out)) [
    | inl m ↦ (out, n, u, rw m at h)
    | inr m ↦ (
      out ++ d ∷ [],
      All-append Normal out (d ∷ []) n (normalize_domain-again idna raw d e, tt),
      unique-append_one d out u m,
      rw m at h,
    )
  ]

  -- What the loop has gathered.
  normalize_each-Normal :
      (out items ds : List String)
      → All Normal out
      → unique out ≡ true
      → normalize_each idna out items ≡ ok ds
      → All Normal ds × (unique ds ≡ true)
  unfolding normalize_each
  normalize_each-Normal out [] ds n u h =
      let same : out ≡ ds = ground arith in
      subst (λ d. All Normal d × (unique d ≡ true)) same (n, u)
  normalize_each-Normal out (item ∷ items) ds n u h =
      let (next, n', u', k) =
        add_name-Normal (λ seen. normalize_each idna seen items) item out ds
          (normalize_domain idna item) refl n u h in
      normalize_each-Normal next items ds n' u' k

  normalize_each-again :
      (out ds : List String)
      → All Normal ds
      → unique (out ++ ds) ≡ true
      → normalize_each idna out ds ≡ ok (out ++ ds)
  unfolding normalize_each add_name
  normalize_each-again out [] n u = ap ok (sym (append-empty out))
  normalize_each-again out (d ∷ ds) (e, n) u =
      let fresh = unique-append-fresh d out ds u in
      let next =
        normalize_each-again (out ++ d ∷ []) ds n (rw (append-one d out ds) u)
        ∙ ap ok (append-one d out ds) in
      rw e (rw fresh next)

  within_limit-ok :
      (r : Result (List String)) (ds : List String)
      → within_limit r ≡ ok ds
      → (r ≡ ok ds) × (0 < length ds) × (length ds ≤ max_certificate_domains)
  unfolding within_limit
  within_limit-ok (err x) ds h = cc h
  within_limit-ok (ok []) ds h = cc h
  within_limit-ok (ok (d ∷ names)) ds h =
      elim (Bool-cases (ltb max_certificate_domains (length (d ∷ names)))) [
        | inl e ↦ cc (rw e at h)
        | inr e ↦
            let same : d ∷ names ≡ ds = ground arith in
            subst
              (λ ds.
                (ok (d ∷ names) ≡ ok ds) × (0 < length ds) × (length ds ≤ max_certificate_domains))
              same (refl, omega arith, ground arith)
      ]

  within_limit-again :
      (d : String) (ds : List String)
      → length (d ∷ ds) ≤ max_certificate_domains
      → within_limit (ok (d ∷ ds)) ≡ ok (d ∷ ds)
  unfolding within_limit
  within_limit-again d ds h =
      let few : ltb max_certificate_domains (length (d ∷ ds)) ≡ false = ground arith in rw few refl

  normalize_domains-within :
      (raw ds : List String)
      → normalize_domains idna raw ≡ ok ds
      → within_limit (normalize_each idna [] raw) ≡ ok ds
  unfolding normalize_domains
  normalize_domains-within [] ds h = cc h
  normalize_domains-within (item ∷ items) ds h =
      elim (Bool-cases (ltb max_certificate_domains (length (item ∷ items)))) [
        | inl e ↦ cc (rw e at h)
        | inr e ↦ rw e at h
      ]

  normalize_domains-each :
      (ds : List String)
      → normalize_each idna [] ds ≡ ok ds
      → 0 < length ds
      → length ds ≤ max_certificate_domains
      → normalize_domains idna ds ≡ ok ds
  unfolding normalize_domains
  normalize_domains-each [] e l h = let absurd : ⊥ = omega arith in elim absurd [ ]
  normalize_domains-each (d ∷ ds) e l h =
      let few : ltb max_certificate_domains (length (d ∷ ds)) ≡ false = ground arith in
      rw few (ap within_limit e ∙ within_limit-again d ds h)

  -- The names that a list of domains is normalised to are from 1 to 100, none of them twice, and
  -- normalising them again gives the same list, with IDNA as it is documented.
  pub normalize_domains-again :
      (raw ds : List String)
      → normalize_domains idna raw ≡ ok ds
      → (normalize_domains idna ds ≡ ok ds)
        × (unique ds ≡ true)
        × (0 < length ds)
        × (length ds ≤ max_certificate_domains)
  normalize_domains-again raw ds h =
      let (e, some_names, few) =
        within_limit-ok (normalize_each idna [] raw) ds (normalize_domains-within raw ds h) in
      let (n, u) = normalize_each-Normal [] raw ds tt refl e in
      (
        normalize_domains-each ds (normalize_each-again [] ds n u) some_names few,
        u,
        some_names,
        few,
      )
