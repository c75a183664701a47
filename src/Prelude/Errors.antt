-- ===== src/Prelude/Errors.antt =====
-- Go's `(T, error)` results. The errors are those that the modelled packages return or compare.
use mathlib.Core.Path.{◌≡◌, refl}
use mathlib.Core.Option.{Option, none, some}
use mathlib.Core.Logic.{◌⊎◌, inl, inr}
use Prim.Native.Nat.{ℕ}

-- Errors of the database driver, other than `mongo.ErrNoDocuments`.
pub data DriverError : Type 0 where
  duplicate_key : DriverError
  failed : ℕ → DriverError

pub data Error : Type 0 where
  no_documents : Error
  driver : DriverError → Error
  -- internal/store
  name_taken operation_conflict active_version_conflict version_not_found : Error
  version_revoked version_revoke_pending has_server_assignments operation_in_flight : Error
  invalid_server_ids invalid_page_token invalid_group_ids invalid_notify_group_ids : Error
  -- internal/certmanager
  no_active_version issuance_in_flight invalid_revocation_reason issue_fields_locked : Error
  certificate_name_required issuer_required dns_account_required : Error
  issuer_not_ready account_uri_required invalid_certificate_pem bundle_not_available : Error
  invalid_domains too_many_domains invalid_key_type : Error
  -- an error of an external service, such as the ACME server
  external : ℕ → Error

pub data Result {ℓ} (A : Type ℓ) : Type ℓ where
  ok : A → Result A
  err : Error → Result A

abbrev pub or_none {ℓ} : {A : Type ℓ} → Option A → Result A
or_none none = err no_documents
or_none (some a) = ok a

pub Result-cases {ℓ} :
    {A : Type ℓ} (r : Result A) → ((e : Error) × (r ≡ err e)) ⊎ ((a : A) × (r ≡ ok a))
Result-cases (ok a) = inr (a, refl)
Result-cases (err e) = inl (e, refl)
