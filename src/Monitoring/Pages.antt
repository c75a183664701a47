-- ===== src/Monitoring/Pages.antt =====
-- The pages of the lists in internal/store/store.go. A page token is read and written as code points. The
-- query with its filter, its sort and its decoding is a parameter, by the number of documents to skip and
-- the number to return; a limit that is negative reads as 0.
use neo_line.Prelude.{
  ℕ, zero, suc, ◌+◌, ◌-◌, ◌*◌, ◌/◌, ◌%◌, ◌^◌, ◌&&◌, Option, none, some, List, [], ◌∷◌, ltb, leb,
  nat_beq, if◌then◌else◌, length, take, Result, ok, err, invalid_page_token,
}

abbrev pub max_page_limit : ℕ
max_page_limit = 200

unfoldable pub normalize_limit : ℕ → ℕ
normalize_limit limit =
    if nat_beq limit 0 then 50 else if ltb max_page_limit limit then max_page_limit else limit

-- Decimal digits below a bound; no digits are no number.
unfoldable pub parse_decimal : ℕ → ℕ → List ℕ → Option ℕ
parse_decimal bound n [] = some n
parse_decimal bound n (c ∷ s) =
    let next = n * 10 + (c - 48) in
    let rest = parse_decimal bound next s in
    if leb 48 c && leb c 57 && ltb next bound then rest else none

unfoldable pub parse_unsigned : ℕ → List ℕ → Option ℕ
unfolding parse_decimal
parse_unsigned bound [] = none
parse_unsigned bound (c ∷ s) = parse_decimal bound 0 (c ∷ s)

-- `strconv.ParseInt(token, 10, 64)` of a token that is not empty, where the value is not negative.
unfoldable pub parse_natural : List ℕ → Option ℕ
unfolding parse_unsigned
parse_natural [] = none
parse_natural (c ∷ s) =
    if nat_beq c 43
    then parse_unsigned (2 ^ 63) s
    else if nat_beq c 45
    then (elim (parse_unsigned (2 ^ 63 + 1) s) [
      | none ↦ none
      | some n ↦ if nat_beq n 0 then some 0 else none
    ])
    else parse_unsigned (2 ^ 63) (c ∷ s)

unfoldable pub parse_page_token : List ℕ → Result ℕ
unfolding parse_natural
parse_page_token [] = ok 0
parse_page_token (c ∷ s) = elim (parse_natural (c ∷ s)) [
  | none ↦ err invalid_page_token
  | some skip ↦ ok skip
]

-- The digits of a number before those of `rest`; 20 digits are enough for 64 bits.
unfoldable pub decimal : ℕ → ℕ → List ℕ → List ℕ
decimal zero n rest = rest
decimal (suc digits) n rest =
    let more = decimal digits (n / 10) ((48 + n % 10) ∷ rest) in
    if nat_beq (n / 10) 0 then (48 + n % 10) ∷ rest else more

-- `strconv.FormatInt` of a sum of int64, which wraps around.
unfoldable pub format_int : ℕ → List ℕ
format_int n = if ltb n (2 ^ 63) then decimal 20 n [] else 45 ∷ decimal 20 (2 ^ 64 - n) []

pub record Page {ℓ} (A : Type ℓ) : Type ℓ where
  pub items : List A
  pub next_page_token : List ℕ

-- The loop over the documents, of which there is one more than fits where more pages follow.
unfoldable pub page_of {ℓ} : {A : Type ℓ} → ℕ → ℕ → List A → Page A
unfolding format_int
page_of limit skip found =
    if ltb limit (length found)
    then record { items = take limit found; next_page_token = format_int (skip + limit) }
    else record { items = found; next_page_token = [] }

unfoldable pub paged {ℓ} : {A : Type ℓ} → ℕ → ℕ → Result (List A) → Result (Page A)
paged limit skip (err e) = err e
paged limit skip (ok found) = ok (page_of limit skip found)

unfoldable pub read_page {ℓ} :
    {A : Type ℓ} → (ℕ → ℕ → Result (List A)) → ℕ → Result ℕ → Result (Page A)
unfolding paged
read_page query limit (err e) = err e
read_page query limit (ok skip) = paged limit skip (query skip (limit + 1))

unfoldable pub find_page {ℓ} :
    {A : Type ℓ} → (ℕ → ℕ → Result (List A)) → ℕ → List ℕ → Result (Page A)
unfolding read_page
find_page query limit token = read_page query (normalize_limit limit) (parse_page_token token)
