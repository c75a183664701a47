-- ===== src/Manager/Domains.antt =====
-- internal/certmanager/domains.go. The IDNA library is a parameter, and so is `strings.ToLower` beyond the
-- texts that it leaves alone, for the tables of Unicode. Each error of a name is ErrInvalidDomains.
use neo_line.Prelude.{
  ℕ, ◌+◌, ◌≡◌, Bool, true, false, not, ◌&&◌, ◌||◌, String, ◌==◌, List, [], ◌∷◌, ◌++◌, leb, ltb,
  nat_beq, if◌then◌else◌, is_space, any, all, length, Result, ok, err, invalid_domains,
  too_many_domains,
}
use Prim.Native.Char.{Char, code}

abbrev pub max_certificate_domains : ℕ
max_certificate_domains = 100

abbrev pub hyphen : ℕ
hyphen = 45

abbrev pub dot : ℕ
dot = 46

abbrev pub star : ℕ
star = 42

-- A code point that passes for each of a text.
unfoldable pub every : (ℕ → Bool) → String → Bool
every p String.[] = true
every p (String.◌∷◌ c s) = p (code c) && every p s

abbrev pub empty : String → Bool
empty String.[] = true
empty (String.◌∷◌ c s) = false

unfoldable pub label_char : ℕ → Bool
label_char c = (leb 97 c && leb c 122) || (leb 48 c && leb c 57) || nat_beq c hyphen

unfoldable pub name_char : ℕ → Bool
unfolding label_char
name_char c = label_char c || nat_beq c dot

-- What the code relies on of golang.org/x/net/idna and of `strings.ToLower`.
pub record Idna : Type 0 where
  pub to_lower : String → String
  -- a text of lower-case letters, digits, hyphens, dots and stars stays
  pub to_lower_lem :
      (s : String) → every (λ c. name_char c || nat_beq c star) s ≡ true → to_lower s ≡ s
  pub to_ascii : String → Result String
  -- `idna.Lookup` is strict: its names are of lower-case letters, digits, hyphens and dots
  pub to_ascii-name : (s a : String) → to_ascii s ≡ ok a → every name_char a ≡ true
  -- and a name that it returned is returned again
  pub to_ascii-again : (s a : String) → to_ascii s ≡ ok a → to_ascii a ≡ ok a

unfoldable pub trim_left : String → String
trim_left String.[] = String.[]
trim_left (String.◌∷◌ c s) =
    let rest = trim_left s in if is_space (code c) then rest else String.◌∷◌ c s

unfoldable pub trim_right : String → String
trim_right String.[] = String.[]
trim_right (String.◌∷◌ c s) =
    let rest = trim_right s in
    if empty rest && is_space (code c) then String.[] else String.◌∷◌ c rest

-- `strings.TrimSuffix(s, ".")` and `strings.HasSuffix(s, ".")`.
unfoldable pub trim_dot : String → String
trim_dot String.[] = String.[]
trim_dot (String.◌∷◌ c s) =
    let rest = trim_dot s in
    if empty s && nat_beq (code c) dot then String.[] else String.◌∷◌ c rest

unfoldable pub ends_in_dot : String → Bool
ends_in_dot String.[] = false
ends_in_dot (String.◌∷◌ c s) = (empty s && nat_beq (code c) dot) || ends_in_dot s

unfoldable pub starts_with_dot : String → Bool
starts_with_dot String.[] = false
starts_with_dot (String.◌∷◌ c s) = nat_beq (code c) dot

unfoldable pub has_empty_label : String → Bool
unfolding starts_with_dot
has_empty_label String.[] = false
has_empty_label (String.◌∷◌ c s) = (nat_beq (code c) dot && starts_with_dot s) || has_empty_label s

-- `strings.HasPrefix(s, "*.")`, and what follows the prefix.
unfoldable pub is_wildcard : String → Bool
unfolding starts_with_dot
is_wildcard String.[] = false
is_wildcard (String.◌∷◌ c s) = nat_beq (code c) star && starts_with_dot s

unfoldable pub tail : String → String
tail String.[] = String.[]
tail (String.◌∷◌ c s) = s

-- `len` of a text counts the bytes of its UTF-8.
unfoldable pub byte_length : String → ℕ
byte_length String.[] = 0
byte_length (String.◌∷◌ c s) =
    (if ltb (code c) 0x80
      then 1
      else if ltb (code c) 0x800
      then 2
      else if ltb (code c) 0x10000
      then 3
      else 4)
    + byte_length s

abbrev extend : Char → List String → List String
extend c [] = (String.◌∷◌ c String.[]) ∷ []
extend c (s ∷ ss) = String.◌∷◌ c s ∷ ss

-- `strings.Split(s, ".")`.
unfoldable pub split_labels : String → List String
split_labels String.[] = String.[] ∷ []
split_labels (String.◌∷◌ c s) =
    let rest = split_labels s in if nat_beq (code c) dot then String.[] ∷ rest else extend c rest

unfoldable pub ends_in_hyphen : String → Bool
ends_in_hyphen String.[] = false
ends_in_hyphen (String.◌∷◌ c s) = (empty s && nat_beq (code c) hyphen) || ends_in_hyphen s

unfoldable pub starts_with_hyphen : String → Bool
starts_with_hyphen String.[] = false
starts_with_hyphen (String.◌∷◌ c s) = nat_beq (code c) hyphen

-- A text of these bytes is valid UTF-8.
unfoldable pub validate_domain_label : String → Bool
unfolding byte_length starts_with_hyphen ends_in_hyphen every label_char
validate_domain_label label =
    not (empty label || ltb 63 (byte_length label))
    && not (starts_with_hyphen label || ends_in_hyphen label)
    && every label_char label

unfoldable pub valid_labels : String → Bool
unfolding split_labels validate_domain_label
valid_labels domain =
    leb 2 (length (split_labels domain)) && all validate_domain_label (split_labels domain)

unfoldable pub validate_domain_syntax : String → Bool
unfolding byte_length has_empty_label starts_with_dot ends_in_dot is_wildcard tail every
    valid_labels
validate_domain_syntax domain =
    let suffix = tail (tail domain) in
    not (empty domain || ltb 253 (byte_length domain))
    && not (has_empty_label domain)
    && not (starts_with_dot domain || ends_in_dot domain)
    && (if is_wildcard domain
        then every (λ c. not (nat_beq c star)) suffix && not (empty suffix) && valid_labels suffix
        else every (λ c. not (nat_beq c star)) domain && valid_labels domain)

-- `"*." + s`.
abbrev pub with_wildcard : String → String
with_wildcard s = String.◌∷◌ "*" (String.◌∷◌ "." s)

unfoldable pub checked : String → Result String
checked ascii = if validate_domain_syntax ascii then ok ascii else err invalid_domains

unfoldable pub wildcard_name : Result String → Result String
unfolding checked
wildcard_name (ok converted) = checked (with_wildcard converted)
wildcard_name (err e) = err invalid_domains

unfoldable pub plain_name : Result String → Result String
unfolding checked
plain_name (ok converted) = checked converted
plain_name (err e) = err invalid_domains

abbrev pub member : String → List String → Bool
member d ds = any (λ x. x == d) ds

-- A name that is seen is skipped.
unfoldable pub add_name :
    (List String → Result (List String)) → List String → Result String → Result (List String)
add_name continue out (err e) = err e
add_name continue out (ok d) = if member d out then continue out else continue (out ++ d ∷ [])

unfoldable pub within_limit : Result (List String) → Result (List String)
within_limit (err e) = err e
within_limit (ok []) = err invalid_domains
within_limit (ok (d ∷ ds)) =
    if ltb max_certificate_domains (length (d ∷ ds)) then err too_many_domains else ok (d ∷ ds)

module _ (idna : Idna) where
  open idna use {to_lower, to_ascii}

  unfoldable pub convert : String → Result String
  unfolding wildcard_name plain_name is_wildcard tail
  convert s =
      let suffix = tail (tail s) in
      if empty s
      then err invalid_domains
      else if is_wildcard s
      then if empty suffix then err invalid_domains else wildcard_name (to_ascii suffix)
      else plain_name (to_ascii s)

  unfoldable pub normalize_domain : String → Result String
  unfolding trim_left trim_right trim_dot
  normalize_domain raw =
      let s = trim_right (trim_left raw) in
      if empty s then err invalid_domains else convert (to_lower (trim_dot s))

  -- The loop, with the names that it has seen in their order.
  unfoldable pub normalize_each : List String → List String → Result (List String)
  unfolding add_name
  normalize_each out [] = ok out
  normalize_each out (item ∷ items) =
      add_name (λ seen. normalize_each seen items) out (normalize_domain item)

  unfoldable pub normalize_domains : List String → Result (List String)
  normalize_domains [] = err invalid_domains
  normalize_domains (item ∷ items) =
      if ltb max_certificate_domains (length (item ∷ items))
      then err too_many_domains
      else within_limit (normalize_each [] (item ∷ items))
