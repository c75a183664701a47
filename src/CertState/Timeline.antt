-- ===== src/CertState/Timeline.antt =====
-- The phases of a certificate version, as time passes.
use neo_line.Prelude.{
  inr, inl, Bool-cases, ◌^◌, ℕ, ◌+◌, ◌-◌, ◌*◌, ◌≤◌, ◌<◌, ◌/◌, ◌≡◌, if◌then◌else◌, refl, true,
  Option, none, some, arith, ◌↔◌, ◌⊎◌, List, [], ◌∷◌, String, eq_iff,
}
use neo_line.Certificates.Types.{CertificateVersion}
use neo_line.CertState.{
  ltb, nat_beq, min, negsuc, less_than, pos, ℤ, int64, Validity, missing, valid, renewal_due,
  expired, revoked, day, version_distributable, effective_renewal_window, less_than, int64, ℤ, pos,
  negsuc, whole_days, compute_version_validity, next_renewal_at, same_domains,
}

-- What a duration is at most.
abbrev AtMost : ℕ → ℤ → Type 0
AtMost n (pos w) = w ≤ n
AtMost n (negsuc _) = Unit

-- However many days are configured, the window of a version that lasts is at most its lifetime.
window-AtMost : (nb na days : ℕ) → nb < na → AtMost (na - nb) (effective_renewal_window nb na days)
unfolding effective_renewal_window int64 less_than
window-AtMost nb na days h = ground arith

int64-exact : (days : ℕ) → days ≤ 106751 → int64 (days * day) ≡ pos (days * day)
unfolding int64
int64-exact days fits = ground arith

-- The choice between the configured window and a third of a lifetime that is not 0.
least :
    (lifetime c span : ℕ)
    → 0 < lifetime
    → lifetime ≤ span
    → (w : ℕ) × ((if nat_beq lifetime 0
          then pos c
          else if less_than (lifetime / 3) (pos c)
          then pos (lifetime / 3)
          else pos c)
        ≡ pos w)
      × (w ≤ c)
      × (3 * w ≤ span)
unfolding less_than
least lifetime c span positive bound = elim (Bool-cases (ltb (lifetime / 3) c)) [
  | inl e ↦ (lifetime / 3, ground arith, ground arith, omega arith)
  | inr e ↦ (c, ground arith, omega arith, ground arith)
]

-- Up to 106 751 days, where the product of days does not wrap around, the window of a version that
-- lasts is not negative, is at most what is configured and is at most a third of the lifetime.
pub effective_renewal_window_bounds :
    (nb na days : ℕ)
    → nb < na
    → days ≤ 106751
    → (w : ℕ) × (effective_renewal_window nb na days ≡ pos w) × (w ≤ days * day) × (3 * w ≤ na - nb)
unfolding effective_renewal_window
effective_renewal_window_bounds nb na days h fits =
    rw (int64-exact days fits)
      (least (min (na - nb) (2 ^ 63 - 1)) (days * day) (na - nb) (omega arith) (omega arith))

-- The days shown of a window that is not negative are its whole days, or 1 for a shorter window.
whole_days_lem :
    (w : ℕ)
    → w < 2 ^ 63
    → let shown = whole_days (pos w) in
      ((w ≡ 0) × (shown ≡ 0))
      ⊎ ((0 < w) × (w < day) × (shown ≡ 1))
      ⊎ ((shown * day ≤ w) × (w < (shown + 1) * day) × (1 ≤ shown))
unfolding whole_days
whole_days_lem w h = ground arith

-- How far along its life a version is.
abbrev pub phase : Validity → ℕ
phase missing = 0
phase valid = 1
phase renewal_due = 2
phase expired = 3
phase revoked = 4

-- As time passes a version goes from valid to due for renewal to expired, and never back, however many
-- days are configured.
pub phase_mono :
    (v : CertificateVersion) (days now later : ℕ)
    → now ≤ later
    → phase (compute_version_validity (some v) days now).0
      ≤ phase (compute_version_validity (some v) days later).0
unfolding compute_version_validity
phase_mono v days now later h = ground arith

-- A version that can be served is due for renewal exactly from the time that is shown as its next
-- renewal until it expires, and is expired exactly after that, however many days are configured.
pub next_renewal_at-due :
    (v : CertificateVersion) (days now t : ℕ)
    → v.not_before < v.not_after
    → next_renewal_at (some v) days ≡ some t
    → let validity = (compute_version_validity (some v) days now).0 in
      ((validity ≡ renewal_due) ↔ ((t ≤ now) × (now ≤ v.not_after)))
      × ((validity ≡ expired) ↔ (v.not_after < now))
unfolding next_renewal_at compute_version_validity
next_renewal_at-due v days now t lasts h =
    ground (arith, window-AtMost v.not_before v.not_after days lasts)

-- The bundle is served exactly if the version is there, is not revoked and awaits no revocation.
pub available-distributable :
    (v : Option CertificateVersion) (days now : ℕ)
    → (compute_version_validity v days now).1 ≡ version_distributable v
unfolding compute_version_validity
available-distributable none days now = refl
available-distributable (some v) days now = ground arith

-- The comparison of two lists of domains holds exactly if they are the same list, order included.
pub same_domains_iff : (xs ys : List String) → (same_domains xs ys ≡ true) ↔ (xs ≡ ys)
unfolding same_domains
same_domains_iff [] [] = ground arith
same_domains_iff [] (y ∷ ys) = ground arith
same_domains_iff (x ∷ xs) [] = ground arith
same_domains_iff (x ∷ xs) (y ∷ ys) = ground (arith, eq_iff x y, same_domains_iff xs ys)
