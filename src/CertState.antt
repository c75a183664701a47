-- ===== src/CertState.antt =====
-- internal/certstate/validity.go and the renewal part of internal/certmanager/version.go: whether a
-- certificate version can be served, and when it is due for renewal. Times are nanoseconds; a
-- duration is an int64, so that a product of days wraps around.
pub mod Timeline
use neo_line.Prelude.{
  ℕ, suc, min, ◌+◌, ◌-◌, ◌*◌, ◌/◌, ◌%◌, ◌^◌, Bool, true, false, not, ◌&&◌, ◌||◌, String, ◌==◌,
  Option, none, some, List, [], ◌∷◌, ltb, leb, nat_beq, if◌then◌else◌, is_some, length,
}
use neo_line.Certificates.Types.{CertificateVersion, ManagedCertificate}
use neo_line.Certificates.Operations.{second}

pub data Validity : Type 0 where
  missing valid renewal_due expired revoked : Validity

abbrev pub day : ℕ
day = 24 * 3600 * second

unfoldable pub version_distributable : Option CertificateVersion → Bool
version_distributable none = false
version_distributable (some v) = not v.revoke_pending && not (is_some v.revoked_at)

-- `negsuc n` is -(n + 1).
pub data ℤ : Type 0 where
  pos : ℕ → ℤ
  negsuc : ℕ → ℤ

-- The int64 with these 64 bits.
unfoldable pub int64 : ℕ → ℤ
int64 n =
    let bits = n % 2 ^ 64 in if ltb bits (2 ^ 63) then pos bits else negsuc (2 ^ 64 - 1 - bits)

unfoldable pub less_than : ℕ → ℤ → Bool
less_than n (pos m) = ltb n m
less_than n (negsuc m) = false

-- time.Time.Add of the negated duration. No time here is before the epoch.
unfoldable pub before : ℕ → ℤ → ℕ
before t (pos n) = t - n
before t (negsuc n) = t + suc n

-- The difference of two times stops at the longest duration, and one that is not positive reads as 0.
unfoldable pub effective_renewal_window : ℕ → ℕ → ℕ → ℤ
unfolding int64 less_than
effective_renewal_window not_before not_after renew_before_days =
    let configured = int64 (renew_before_days * day) in
    let lifetime = min (not_after - not_before) (2 ^ 63 - 1) in
    if nat_beq lifetime 0
    then configured
    else if less_than (lifetime / 3) configured
    then pos (lifetime / 3)
    else configured

-- The division rounds towards zero.
unfoldable pub whole_days : ℤ → ℕ
whole_days (pos w) = let days = w / day in if nat_beq days 0 && ltb 0 w then 1 else days % 2 ^ 32
whole_days (negsuc w) = (2 ^ 32 - (suc w / day) % 2 ^ 32) % 2 ^ 32

unfoldable pub effective_renewal_window_days : ℕ → ℕ → ℕ → ℕ
unfolding effective_renewal_window whole_days
effective_renewal_window_days not_before not_after renew_before_days =
    whole_days (effective_renewal_window not_before not_after renew_before_days)

unfoldable pub compute_version_validity : Option CertificateVersion → ℕ → ℕ → Validity × Bool
unfolding version_distributable effective_renewal_window before
compute_version_validity none days now = (missing, false)
compute_version_validity (some v) days now =
    if not (version_distributable (some v))
    then (revoked, false)
    else if ltb v.not_after now
    then (expired, true)
    else if leb v.not_before now
        && leb (before v.not_after (effective_renewal_window v.not_before v.not_after days)) now
    then (renewal_due, true)
    else (valid, true)

unfoldable pub compute_validity : ManagedCertificate → ℕ → Validity × Bool
unfolding compute_version_validity
compute_validity cert now = compute_version_validity cert.active_version cert.renew_before_days now

unfoldable pub next_renewal_at : Option CertificateVersion → ℕ → Option ℕ
unfolding version_distributable effective_renewal_window before
next_renewal_at none days = none
next_renewal_at (some v) days =
    if not (version_distributable (some v))
    then none
    else some (before v.not_after (effective_renewal_window v.not_before v.not_after days))

unfoldable pub renewal_metadata : ManagedCertificate → ℕ → ℕ × Option ℕ
unfolding effective_renewal_window_days next_renewal_at
renewal_metadata cert now = elim cert.active_version [
  | none ↦ (0, none)
  | some v ↦
      let days = effective_renewal_window_days v.not_before v.not_after cert.renew_before_days in
      let next = next_renewal_at (some v) cert.renew_before_days in
      if is_some next && ltb v.not_after now then (days, none) else (days, next)
]

-- The loop over both lists, after the comparison of their lengths.
unfoldable pub same_domains : List String → List String → Bool
same_domains [] [] = true
same_domains (x ∷ xs) (y ∷ ys) = x == y && same_domains xs ys
same_domains _ _ = false

unfoldable pub desired_differs_from_active : ManagedCertificate → Bool
unfolding same_domains
desired_differs_from_active cert = elim cert.active_version [
  | none ↦ false
  | some v ↦
      not (cert.certificate_issuer_id == v.config_snapshot.certificate_issuer_id)
      || not (cert.dns_provider_account_id == v.config_snapshot.dns_provider_account_id)
      || not (cert.key_type == v.config_snapshot.key_type)
      || not (same_domains cert.domains v.config_snapshot.domains)
]
