-- ===== src/Probe/Codes.antt =====
-- The expressions of accepted status codes in internal/probe/url.go, on code points.
use neo_line.Prelude.{
  ℕ, ◌+◌, ◌-◌, ◌*◌, ◌^◌, Bool, false, ◌&&◌, Option, none, some, List, [], ◌∷◌, ltb, leb, nat_beq,
  if◌then◌else◌, any, trim_space,
}

abbrev pub comma : ℕ
comma = 44

abbrev pub hyphen : ℕ
hyphen = 45

-- A segment with one more code point at its front.
abbrev pub extend : ℕ → List (List ℕ) → List (List ℕ)
extend c [] = (c ∷ []) ∷ []
extend c (s ∷ ss) = (c ∷ s) ∷ ss

-- `strings.SplitSeq(s, ",")`.
unfoldable pub split_seq : List ℕ → List (List ℕ)
split_seq [] = [] ∷ []
split_seq (c ∷ s) = let rest = split_seq s in if nat_beq c comma then [] ∷ rest else extend c rest

-- `strings.Cut(s, "-")`, where the separator is found.
unfoldable pub cut : List ℕ → Option (List ℕ × List ℕ)
cut [] = none
cut (c ∷ s) =
    let rest = cut s in
    if nat_beq c hyphen
    then some ([], s)
    else elim rest [ none ↦ none | some r ↦ some (c ∷ r.0, r.1) ]

-- The digits of `strconv.ParseUint(s, 10, 32)`, which stops at the first value that does not fit.
unfoldable pub parse_digits : ℕ → List ℕ → Option ℕ
parse_digits n [] = some n
parse_digits n (c ∷ s) =
    let next = n * 10 + (c - 48) in
    let rest = parse_digits next s in
    if leb 48 c && leb c 57 && ltb next (2 ^ 32) then rest else none

unfoldable pub parse_uint : List ℕ → Option ℕ
unfolding parse_digits
parse_uint [] = none
parse_uint (c ∷ s) = parse_digits 0 (c ∷ s)

-- The bounds, where both are read and in order.
unfoldable pub ordered : Option ℕ → Option ℕ → Option (ℕ × ℕ)
ordered (some low) (some high) = if ltb high low then none else some (low, high)
ordered _ _ = none

unfoldable pub parse_segment : List ℕ → Option (ℕ × ℕ)
unfolding cut parse_uint ordered
parse_segment [] = none
parse_segment (c ∷ s) = elim (cut (c ∷ s)) [
  | some r ↦ ordered (parse_uint (trim_space r.0)) (parse_uint (trim_space r.1))
  | none ↦ ordered (parse_uint (c ∷ s)) (parse_uint (c ∷ s))
]

unfoldable pub parse_status_code_range : List ℕ → Option (ℕ × ℕ)
unfolding parse_segment
parse_status_code_range part = parse_segment (trim_space part)

unfoldable pub covers : ℕ → List ℕ → Bool
unfolding parse_status_code_range
covers code part = elim (parse_status_code_range part) [
  | none ↦ false
  | some r ↦ leb r.0 code && leb code r.1
]

unfoldable pub accepted_by : ℕ → List ℕ → Bool
unfolding split_seq covers
accepted_by code [] = nat_beq code 200
accepted_by code (c ∷ s) = any (covers code) (split_seq (c ∷ s))

unfoldable pub status_code_accepted : ℕ → List ℕ → Bool
unfolding accepted_by
status_code_accepted code expected = accepted_by code (trim_space expected)
