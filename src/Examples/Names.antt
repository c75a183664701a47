-- ===== src/Examples/Names.antt =====
-- Domain names, with an IDNA library that takes the names of lower-case letters, digits, hyphens and dots.
use neo_line.Prelude.{
  arith, ◌≡◌, ◌<◌, ◌≤◌, is_space, refl, true, String, List, [], ◌∷◌, Result, ok, err, external,
  if◌then◌else◌, Bool-cases, inl, inr, length, subst,
}
use neo_line.Manager.Domains.{
  validate_domain_syntax, convert, normalize_domain, normalize_each, within_limit, Idna, every,
  name_char, normalize_domains, max_certificate_domains,
}
use neo_line.Manager.Normal.{normalize_domains-again, unique}

abbrev pub strict : String → Result String
strict s = if every name_char s then ok s else err (external 0)

pub strict-name : (s a : String) → strict s ≡ ok a → every name_char a ≡ true
strict-name s a h = elim (Bool-cases (every name_char s)) [
  | inl e ↦ let same : s ≡ a = ground arith in subst (λ a. every name_char a ≡ true) same e
  | inr e ↦ cc (rw e at h)
]

pub strict-again : (s a : String) → strict s ≡ ok a → strict a ≡ ok a
strict-again s a h = rw (strict-name s a h) refl

abbrev pub ascii_only : Idna
ascii_only = record {
  to_lower = λ s. s;
  to_lower_lem = λ s h. refl;
  to_ascii = strict;
  to_ascii-name = strict-name;
  to_ascii-again = strict-again;
}

abbrev raw : List String
raw = " example.com. " ∷ "*.example.com" ∷ "example.com" ∷ []

abbrev normalised : List String
normalised = "example.com" ∷ "*.example.com" ∷ []

names_read : normalize_domains ascii_only raw ≡ ok normalised
unfolding normalize_domains within_limit normalize_each normalize_domain convert
    validate_domain_syntax is_space name_char
names_read = refl

normalize_domains-again_example :
    (normalize_domains ascii_only normalised ≡ ok normalised)
    × (unique normalised ≡ true)
    × (0 < length normalised)
    × (length normalised ≤ max_certificate_domains)
normalize_domains-again_example = normalize_domains-again ascii_only raw normalised names_read
