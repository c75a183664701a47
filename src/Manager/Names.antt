-- ===== src/Manager/Names.antt =====
-- A normalised name is normalised again to itself.
use Prim.Native.Char.{code}
use neo_line.Prelude.{
  ℕ, ◌≡◌, refl, ap, sym, subst, ◌∙◌, Bool, true, false, ◌&&◌, ◌||◌, inl, inr, String, is_space,
  Result, ok, err, arith, and-left, and-right, Bool-cases, nat_beq,
}
use neo_line.Manager.Domains.{
  dot, star, every, empty, name_char, label_char, Idna, trim_left, trim_right, trim_dot,
  ends_in_dot, is_wildcard, tail, with_wildcard, validate_domain_syntax, checked, wildcard_name,
  plain_name, convert, normalize_domain,
}

-- The characters of a name with its wildcard, none of which is a space.
abbrev kept : ℕ → Bool
kept c = name_char c || nat_beq c star

kept-no_space : (c : ℕ) → kept c ≡ true → is_space c ≡ false
unfolding name_char label_char is_space
kept-no_space c h = ground arith

trim_left-kept : (s : String) → every kept s ≡ true → trim_left s ≡ s
unfolding trim_left every
trim_left-kept String.[] h = refl
trim_left-kept (String.◌∷◌ c s) h = rw (kept-no_space (code c) (and-left _ _ h)) refl

trim_right-kept : (s : String) → every kept s ≡ true → trim_right s ≡ s
unfolding trim_right every
trim_right-kept String.[] h = refl
trim_right-kept (String.◌∷◌ c s) h =
    let no_space = kept-no_space (code c) (and-left _ _ h) in
    let rest = trim_right-kept s (and-right (kept (code c)) _ h) in
    let stays : (empty (trim_right s) && is_space (code c)) ≡ false = ground arith in
    rw stays (ap (λ t. String.◌∷◌ c t) rest)

trim_dot-kept : (s : String) → ends_in_dot s ≡ false → trim_dot s ≡ s
unfolding trim_dot ends_in_dot
trim_dot-kept String.[] h = refl
trim_dot-kept (String.◌∷◌ c s) h =
    let no_dot : (empty s && nat_beq (code c) dot) ≡ false = ground arith in
    rw no_dot (ap (λ t. String.◌∷◌ c t) (trim_dot-kept s (ground arith)))

name-kept : (s : String) → every name_char s ≡ true → every kept s ≡ true
unfolding every
name-kept String.[] h = refl
name-kept (String.◌∷◌ c s) h = ground (arith, name-kept s)

with_wildcard-kept : (s : String) → every name_char s ≡ true → every kept (with_wildcard s) ≡ true
unfolding every name_char label_char
with_wildcard-kept s h = name-kept s h

name-no_wildcard : (s : String) → every name_char s ≡ true → is_wildcard s ≡ false
unfolding every is_wildcard name_char label_char
name-no_wildcard String.[] h = refl
name-no_wildcard (String.◌∷◌ c s) h = ground arith

validate_domain_syntax-no_dot :
    (s : String) → validate_domain_syntax s ≡ true → ends_in_dot s ≡ false
unfolding validate_domain_syntax
validate_domain_syntax-no_dot s h = ground arith

validate_domain_syntax-nonempty : (s : String) → validate_domain_syntax s ≡ true → empty s ≡ false
unfolding validate_domain_syntax
validate_domain_syntax-nonempty s h = ground arith

checked-ok : (s d : String) → checked s ≡ ok d → (d ≡ s) × (validate_domain_syntax s ≡ true)
unfolding checked
checked-ok s d h = elim (Bool-cases (validate_domain_syntax s)) [
  | inl e ↦ (ground arith, e)
  | inr e ↦ cc (rw e at h)
]

module _ (idna : Idna) where
  open idna use {to_lower, to_lower_lem, to_ascii, to_ascii-name, to_ascii-again}

  -- A name that is kept by the trims goes to the conversion as it is.
  normalize_domain-convert :
      (d : String)
      → every kept d ≡ true
      → validate_domain_syntax d ≡ true
      → normalize_domain idna d ≡ convert idna d
  unfolding normalize_domain
  normalize_domain-convert d k v =
      let trimmed : trim_right (trim_left d) ≡ d =
        ap trim_right (trim_left-kept d k) ∙ trim_right-kept d k in
      let lower : to_lower (trim_dot d) ≡ d =
        ap to_lower (trim_dot-kept d (validate_domain_syntax-no_dot d v)) ∙ to_lower_lem d k in
      rw trimmed (rw (validate_domain_syntax-nonempty d v) (rw lower refl))

  convert-plain :
      (d : String)
      → every name_char d ≡ true
      → validate_domain_syntax d ≡ true
      → to_ascii d ≡ ok d
      → convert idna d ≡ ok d
  unfolding convert plain_name checked
  convert-plain d k v e =
      rw (validate_domain_syntax-nonempty d v) (rw (name-no_wildcard d k) (rw e (rw v refl)))

  with_wildcard-nonempty :
      (a : String) → validate_domain_syntax (with_wildcard a) ≡ true → empty a ≡ false
  unfolding validate_domain_syntax
  with_wildcard-nonempty String.[] v = cc v
  with_wildcard-nonempty (String.◌∷◌ c s) v = refl

  convert-wildcard :
      (a : String)
      → validate_domain_syntax (with_wildcard a) ≡ true
      → to_ascii a ≡ ok a
      → convert idna (with_wildcard a) ≡ ok (with_wildcard a)
  unfolding convert wildcard_name checked is_wildcard tail
  convert-wildcard a v e = rw (with_wildcard-nonempty a v) (rw e (rw v refl))

  wildcard_name-again :
      (s d : String) (r : Result String)
      → to_ascii s ≡ r
      → wildcard_name r ≡ ok d
      → normalize_domain idna d ≡ ok d
  unfolding wildcard_name
  wildcard_name-again s d (ok a) e k =
      let (same, v) = checked-ok (with_wildcard a) d k in
      subst (λ d. normalize_domain idna d ≡ ok d) (sym same)
        (normalize_domain-convert (with_wildcard a) (with_wildcard-kept a (to_ascii-name s a e)) v
          ∙ convert-wildcard a v (to_ascii-again s a e))
  wildcard_name-again s d (err x) e k = cc k

  plain_name-again :
      (s d : String) (r : Result String)
      → to_ascii s ≡ r
      → plain_name r ≡ ok d
      → normalize_domain idna d ≡ ok d
  unfolding plain_name
  plain_name-again s d (ok a) e k =
      let (same, v) = checked-ok a d k in
      let name = to_ascii-name s a e in
      subst (λ d. normalize_domain idna d ≡ ok d) (sym same)
        (normalize_domain-convert a (name-kept a name) v
          ∙ convert-plain a name v (to_ascii-again s a e))
  plain_name-again s d (err x) e k = cc k

  -- A name that came out of the conversion.
  convert-again : (s d : String) → convert idna s ≡ ok d → normalize_domain idna d ≡ ok d
  unfolding convert
  convert-again s d h = elim (Bool-cases (empty s)) [
    | inl e ↦ cc (rw e at h)
    | inr e ↦ elim (Bool-cases (is_wildcard s)) [
      | inl w ↦ elim (Bool-cases (empty (tail (tail s)))) [
        | inl n ↦ cc (rw n at rw w at rw e at h)
        | inr n ↦
            wildcard_name-again (tail (tail s)) d (to_ascii (tail (tail s))) refl
              (rw n at rw w at rw e at h)
      ]
      | inr w ↦ plain_name-again s d (to_ascii s) refl (rw w at rw e at h)
    ]
  ]

  pub normalize_domain-again :
      (raw d : String) → normalize_domain idna raw ≡ ok d → normalize_domain idna d ≡ ok d
  unfolding normalize_domain
  normalize_domain-again raw d h = elim (Bool-cases (empty (trim_right (trim_left raw)))) [
    | inl e ↦ cc (rw e at h)
    | inr e ↦ convert-again (to_lower (trim_dot (trim_right (trim_left raw)))) d (rw e at h)
  ]
