-- ===== src/Monitoring/Tokens.antt =====
-- A page token reads as the number that was written.
use neo_line.Prelude.{
  ℕ, zero, suc, ◌+◌, ◌-◌, ◌*◌, ◌/◌, ◌%◌, ◌^◌, ◌≤◌, ◌<◌, ◌≡◌, refl, ap, ◌∙◌, true, false, some, List,
  [], ◌∷◌, ltb, leb, nat_beq, ok, arith, sym, subst, Bool-cases, inl, inr,
}
use neo_line.Monitoring.Pages.{
  parse_decimal, parse_unsigned, parse_natural, parse_page_token, decimal, format_int,
}

-- One digit, read before the rest.
parse_decimal-digit :
    (n : ℕ) (rest : List ℕ)
    → n < 2 ^ 63
    → parse_decimal (2 ^ 63) (n / 10) ((48 + n % 10) ∷ rest) ≡ parse_decimal (2 ^ 63) n rest
unfolding parse_decimal
parse_decimal-digit n rest k =
    let same : n / 10 * 10 + (48 + n % 10 - 48) ≡ n = omega arith in
    let low : leb 48 (48 + n % 10) ≡ true = ground arith in
    let high : leb (48 + n % 10) 57 ≡ true = ground arith in
    let fits : ltb n (2 ^ 63) ≡ true = ground arith in rw same (rw low (rw high (rw fits refl)))

-- Reading the digits that were written, with the bound of int64.
parse_decimal-decimal :
    (digits n : ℕ) (rest : List ℕ)
    → n < 10 ^ suc digits
    → n < 2 ^ 63
    → parse_decimal (2 ^ 63) 0 (decimal (suc digits) n rest) ≡ parse_decimal (2 ^ 63) n rest
unfolding decimal
parse_decimal-decimal zero n rest h k =
    let none_left : n / 10 ≡ 0 = omega arith in
    rw none_left (
      subst (λ z. parse_decimal (2 ^ 63) z ((48 + n % 10) ∷ rest) ≡ parse_decimal (2 ^ 63) n rest)
        none_left (parse_decimal-digit n rest k))
parse_decimal-decimal (suc d) n rest h k =
    let fewer : n / 10 < 10 ^ suc d = omega arith in
    let further = parse_decimal-decimal d (n / 10) ((48 + n % 10) ∷ rest) fewer (omega arith) in
    elim (Bool-cases (nat_beq (n / 10) 0)) [
      | inl e ↦
          let none_left : n / 10 ≡ 0 = ground arith in
          rw e (
            subst
              (λ z. parse_decimal (2 ^ 63) z ((48 + n % 10) ∷ rest) ≡ parse_decimal (2 ^ 63) n rest)
              none_left (parse_decimal-digit n rest k))
      | inr e ↦ rw e (further ∙ parse_decimal-digit n rest k)
    ]

-- The first digit is one, so that no sign is read.
decimal-front :
    (digits n : ℕ) (rest : List ℕ)
    → (c : ℕ) × (s : List ℕ) × (decimal (suc digits) n rest ≡ c ∷ s) × (48 ≤ c)
unfolding decimal
decimal-front zero n rest = elim (Bool-cases (nat_beq (n / 10) 0)) [
  | inl e ↦ rw e (48 + n % 10, rest, refl, omega arith)
  | inr e ↦ rw e (48 + n % 10, rest, refl, omega arith)
]
decimal-front (suc d) n rest =
    let further = decimal-front d (n / 10) ((48 + n % 10) ∷ rest) in
    elim (Bool-cases (nat_beq (n / 10) 0)) [
      | inl e ↦ rw e (48 + n % 10, rest, refl, omega arith)
      | inr e ↦ rw e further
    ]

-- Digits are read as an int64 where they are one.
parse_page_token-digits :
    (t : List ℕ) (n c : ℕ) (s : List ℕ)
    → t ≡ c ∷ s
    → 48 ≤ c
    → parse_decimal (2 ^ 63) 0 t ≡ some n
    → parse_page_token t ≡ ok n
unfolding parse_page_token parse_natural parse_unsigned
parse_page_token-digits t n c s e digit read =
    let no_plus : nat_beq c 43 ≡ false = ground arith in
    let no_minus : nat_beq c 45 ≡ false = ground arith in
    subst (λ t. parse_decimal (2 ^ 63) 0 t ≡ some n → parse_page_token t ≡ ok n) (sym e)
      (λ r.
        rw (no_plus, parse_page_token, parse_natural)
          (rw (no_minus, parse_page_token, parse_natural) (rw r refl)))
      read

format_int-decimal : (n : ℕ) → n < 2 ^ 63 → format_int n ≡ decimal 20 n []
unfolding format_int
format_int-decimal n h = let fits : ltb n (2 ^ 63) ≡ true = ground arith in rw fits refl

parse_decimal-end : (n : ℕ) → parse_decimal (2 ^ 63) n [] ≡ some n
unfolding parse_decimal
parse_decimal-end n = refl

-- A token that is written for a page reads as the number of documents before it.
pub parse_page_token-format_int : (n : ℕ) → n < 2 ^ 63 → parse_page_token (format_int n) ≡ ok n
parse_page_token-format_int n h =
    let (c, s, e, digit) = decimal-front 19 n [] in
    let small : n < 10 ^ 20 = omega arith in
    let read = parse_decimal-decimal 19 n [] small h ∙ parse_decimal-end n in
    ap parse_page_token (format_int-decimal n h)
    ∙ parse_page_token-digits (decimal 20 n []) n c s e digit read

pub format_int-front :
    (n : ℕ) → n < 2 ^ 63 → (c : ℕ) × (s : List ℕ) × (format_int n ≡ c ∷ s) × (48 ≤ c)
format_int-front n h =
    let (c, s, e, digit) = decimal-front 19 n [] in (c, s, format_int-decimal n h ∙ e, digit)
