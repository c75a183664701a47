-- ===== src/Certificates/Versions.antt =====
-- internal/store/managed_certificates.go: the certificates, their active and previous version, and the
-- operations that end with a change of these.
use neo_line.Prelude.{
  ℕ, Bool, true, false, not, ◌&&◌, String, ◌==◌, Option, none, some, List, [], ◌∷◌, ltb,
  if◌then◌else◌, is_some, Result, ok, err, Error, driver, duplicate_key, no_documents, name_taken,
  operation_conflict, active_version_conflict, version_not_found, version_revoked,
  version_revoke_pending, has_server_assignments, operation_in_flight,
}
use neo_line.Certificates.Types.{
  CertificateOperation, succeeded, null, CertificateVersion, ManagedCertificate, Database,
}
use neo_line.Certificates.Store.{
  Method, return, from, require, require_matched, on_operations, on_certificates, read_operations,
  read_certificates, ◌>>=◌, ◌>>◌,
}
use neo_line.Certificates.Operations.{has_running_operation}
use neo_line.Certificates.Lease.{owned_by, update_matched}

pub data Slot : Type 0 where
  active previous : Slot

abbrev pub version_in : Slot → ManagedCertificate → Option CertificateVersion
version_in active c = c.active_version
version_in previous c = c.previous_version

abbrev pub holds_version : String → Option CertificateVersion → Bool
holds_version version_id none = false
holds_version version_id (some v) = v.id == version_id

unfoldable pub version_slot_field : String → ManagedCertificate → Option Slot
version_slot_field version_id c =
    if holds_version version_id c.active_version
    then some active
    else if holds_version version_id c.previous_version
    then some previous
    else none

abbrev pub map_version :
    (CertificateVersion → CertificateVersion)
    → Option CertificateVersion
    → Option CertificateVersion
map_version f none = none
map_version f (some v) = some (f v)

unfoldable pub change_version :
    Slot → (CertificateVersion → CertificateVersion) → ℕ → ManagedCertificate → ManagedCertificate
change_version active f now c = record c {
  active_version = map_version f c.active_version;
  updated_at = now;
}
change_version previous f now c = record c {
  previous_version = map_version f c.previous_version;
  updated_at = now;
}

-- `revoked_at` `$exists: false`.
abbrev pub unrevoked : Option CertificateVersion → Bool
unrevoked none = true
unrevoked (some v) = not (is_some v.revoked_at)

unfoldable pub has_certificate_id : String → ManagedCertificate → Bool
has_certificate_id id c = c.id == id

-- The update of the operation with which a change of versions ends.
unfoldable pub completed : String → ℕ → CertificateOperation → CertificateOperation
completed warning now op = record op {
  status = succeeded;
  finished_at = some now;
  updated_at = now;
  error_summary = "";
  next_attempt_at = none;
  consecutive_failures = 0;
  lease_owner = "";
  lease_expires_at = none;
  pending_txt_records = null;
  warning = if warning == "" then op.warning else warning;
}

-- The same for a revocation, which leaves the warning and the TXT records.
unfoldable pub revocation_completed : ℕ → CertificateOperation → CertificateOperation
revocation_completed now op = record op {
  status = succeeded;
  finished_at = some now;
  updated_at = now;
  error_summary = "";
  next_attempt_at = none;
  consecutive_failures = 0;
  lease_owner = "";
  lease_expires_at = none;
}

unfoldable pub first_activated : CertificateVersion → ℕ → ManagedCertificate → ManagedCertificate
first_activated v now c = record c { active_version = some v; updated_at = now }

unfoldable pub activated :
    CertificateVersion → CertificateVersion → ℕ → ManagedCertificate → ManagedCertificate
activated v old now c = record c {
  active_version = some v;
  previous_version = some old;
  updated_at = now;
}

unfoldable pub swapped :
    CertificateVersion → Option CertificateVersion → ℕ → ManagedCertificate → ManagedCertificate
swapped v old now c = record c { active_version = some v; previous_version = old; updated_at = now }

unfoldable pub name_error : Error → Error
name_error (driver duplicate_key) = name_taken
name_error e = e

pub record ManagedCertificateUpdate : Type 0 where
  pub name : String
  pub domains : List String
  pub certificate_issuer_id : String
  pub dns_provider_account_id : String
  pub key_type : String
  pub auto_renew_enabled : Bool
  pub renew_before_days : ℕ
  pub notify_group_ids : List String
  pub server_ids : List String

-- `managedCertificateUpdateDocument`: a list that is unset reads as the empty one.
unfoldable pub edited : ManagedCertificateUpdate → ℕ → ManagedCertificate → ManagedCertificate
edited u now c = record c {
  name = u.name;
  domains = u.domains;
  certificate_issuer_id = u.certificate_issuer_id;
  dns_provider_account_id = u.dns_provider_account_id;
  key_type = u.key_type;
  auto_renew_enabled = u.auto_renew_enabled;
  renew_before_days = u.renew_before_days;
  notify_group_ids = u.notify_group_ids;
  server_ids = u.server_ids;
  updated_at = now;
}

abbrev is_empty : List String → Bool
is_empty [] = true
is_empty (x ∷ xs) = false

module _ (db : Database) where
  open db use {operations, certificates}

  -- `CountDocuments` of the running operation that the caller owns, and the error if there is none.
  unfoldable pub require_owned : String → String → Method (Unit {0})
  require_owned op_id owner = do
    held ← read_operations (operations.count_documents (owned_by op_id owner))
    require (ltb 0 held) operation_conflict

  unfoldable pub get_certificate : String → Method ManagedCertificate
  get_certificate id = read_certificates (certificates.find_one (has_certificate_id id))

  unfoldable pub update_certificate_matched :
      (ManagedCertificate → Bool) → (ManagedCertificate → ManagedCertificate) → Method (Unit {0})
  update_certificate_matched p f = do
    matched ← on_certificates (certificates.update_one p f)
    require_matched matched active_version_conflict

  unfoldable pub create_certificate : ℕ → String → ManagedCertificate → Method ManagedCertificate
  unfolding name_error
  create_certificate now fresh cert s =
      let doc = record cert {
        id = if cert.id == "" then fresh else cert.id;
        created_at = now;
        updated_at = now;
      } in
      let (s', r) = on_certificates (certificates.insert_one doc) s in
      elim r [ ok _ ↦ (s', ok doc) | err e ↦ (s', err (name_error e)) ]

  unfoldable pub update_certificate :
      String → ManagedCertificateUpdate → ℕ → Method ManagedCertificate
  unfolding name_error
  update_certificate id u now s =
      let (s', r) =
        on_certificates (certificates.find_one_and_update (has_certificate_id id) (edited u now))
          s in
      elim r [ ok c ↦ (s', ok c) | err e ↦ (s', err (name_error e)) ]

  unfoldable pub activate_first_version :
      String → CertificateVersion → String → String → String → ℕ → Method (Unit {0})
  unfolding require_owned update_certificate_matched
  activate_first_version cert_id version op_id owner warning now = do
    require_owned op_id owner
    update_certificate_matched (λ c. has_certificate_id cert_id c && not (is_some c.active_version))
        (first_activated version now)
    update_matched db (owned_by op_id owner) (completed warning now)

  -- The version that the certificate must still have active, or the error.
  unfoldable pub expected_active : String → ManagedCertificate → Result CertificateVersion
  expected_active expected_id c = elim c.active_version [
    | none ↦ err active_version_conflict
    | some v ↦ if v.id == expected_id then ok v else err active_version_conflict
  ]

  unfoldable pub activate_subsequent_version :
      String → CertificateVersion → String → String → String → String → ℕ → Method (Unit {0})
  unfolding require_owned get_certificate update_certificate_matched expected_active
  activate_subsequent_version cert_id version expected_id op_id owner warning now = do
    require_owned op_id owner
    cert ← get_certificate cert_id
    old ← from (expected_active expected_id cert)
    update_certificate_matched
        (λ c. has_certificate_id cert_id c && holds_version expected_id c.active_version)
        (activated version old now)
    update_matched db (owned_by op_id owner) (completed warning now)

  -- The previous version, if it is the one asked for and has not been revoked.
  unfoldable pub reactivable : String → ManagedCertificate → Result CertificateVersion
  reactivable version_id c = elim c.previous_version [
    | none ↦ err version_not_found
    | some v ↦
        if v.id == version_id
        then if is_some v.revoked_at then err version_revoked else ok v
        else err version_not_found
  ]

  unfoldable pub activate_previous_version : String → String → ℕ → Method (Unit {0})
  unfolding get_certificate update_certificate_matched reactivable
  activate_previous_version cert_id version_id now = do
    cert ← get_certificate cert_id
    v ← from (reactivable version_id cert)
    update_certificate_matched
        (λ c.
          has_certificate_id cert_id c
          && holds_version version_id c.previous_version
          && unrevoked c.previous_version)
        (swapped v cert.active_version now)

  -- The slot of a version that can be marked as pending revocation, or the error.
  unfoldable pub revocable : String → ManagedCertificate → Result Slot
  unfolding version_slot_field
  revocable version_id c = elim (version_slot_field version_id c) [
    | none ↦ err version_not_found
    | some slot ↦ elim (version_in slot c) [
      | none ↦ err version_not_found
      | some v ↦
          if is_some v.revoked_at
          then err version_revoked
          else if v.revoke_pending
          then err version_revoke_pending
          else ok slot
    ]
  ]

  unfoldable pub mark_version_revoke_pending : String → String → ℕ → Method (Unit {0})
  unfolding get_certificate update_certificate_matched revocable
  mark_version_revoke_pending cert_id version_id now = do
    cert ← get_certificate cert_id
    slot ← from (revocable version_id cert)
    update_certificate_matched
        (λ c.
          has_certificate_id cert_id c
          && holds_version version_id (version_in slot c)
          && unrevoked (version_in slot c))
        (change_version slot (λ v. record v { revoke_pending = true }) now)

  unfoldable pub slot_or_error : String → ManagedCertificate → Result Slot
  unfolding version_slot_field
  slot_or_error version_id c = elim (version_slot_field version_id c) [
    | none ↦ err version_not_found
    | some slot ↦ ok slot
  ]

  unfoldable pub clear_version_revoke_pending : String → String → ℕ → Method (Unit {0})
  unfolding get_certificate slot_or_error
  clear_version_revoke_pending cert_id version_id now = do
    cert ← get_certificate cert_id
    slot ← from (slot_or_error version_id cert)
    _ ← on_certificates (
        certificates.update_one
          (λ c. has_certificate_id cert_id c && holds_version version_id (version_in slot c))
          (change_version slot (λ v. record v { revoke_pending = false }) now))
    return tt

  unfoldable pub complete_revoke_version :
      String → String → String → String → ℕ → ℕ → Method (Unit {0})
  unfolding require_owned get_certificate update_certificate_matched slot_or_error
  complete_revoke_version cert_id version_id op_id owner revoked_at now = do
    require_owned op_id owner
    cert ← get_certificate cert_id
    slot ← from (slot_or_error version_id cert)
    update_certificate_matched
        (λ c. has_certificate_id cert_id c && holds_version version_id (version_in slot c))
        (change_version slot
          (λ v. record v { revoked_at = some revoked_at; revoke_pending = false }) now)
    update_matched db (owned_by op_id owner) (revocation_completed now)

  unfoldable pub delete_certificate : String → Method (Unit {0})
  unfolding get_certificate has_running_operation
  delete_certificate id = do
    cert ← get_certificate id
    require (is_empty cert.server_ids) has_server_assignments
    busy ← has_running_operation db id
    require (not busy) operation_in_flight
    _ ← on_operations (operations.delete_many (λ op. op.managed_certificate_id == id))
    deleted ← on_certificates (certificates.delete_one (has_certificate_id id))
    require_matched deleted no_documents
