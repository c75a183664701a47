-- ===== src/Manager/Desired.antt =====
-- internal/certmanager/managed_certificate.go: creating and updating a managed certificate from the input
-- of a caller. The checks that the notify groups and the servers exist read other collections and are
-- parameters; the latest operation is read only for the reply, and is left out with it.
use neo_line.Prelude.{
  ℕ, Bool, true, false, not, ◌&&◌, ◌||◌, String, ◌==◌, Option, none, some, List, [], nat_beq,
  if◌then◌else◌, is_some, is_blank, Result, ok, err, Error, no_documents, issuer_not_ready,
  account_uri_required, issue_fields_locked, certificate_name_required, issuer_required,
  dns_account_required, invalid_key_type,
}
use neo_line.Certificates.Types.{
  CertificateOperation, ManagedCertificate, issue, renew, revoke, Database,
}
use neo_line.Certificates.Store.{Method, from, require, ◌>>=◌, ◌>>◌}
use neo_line.Certificates.Operations.{find_running_operation}
use neo_line.Certificates.Versions.{
  ManagedCertificateUpdate, get_certificate, create_certificate, update_certificate,
}
use neo_line.CertState.{same_domains}
use neo_line.Manager.Submit.{optional, create_pending_issue_operation}
use neo_line.Manager.Outside.{
  Outside, CertificateIssuer, get_certificate_issuer, get_dns_provider_account,
}
use neo_line.Manager.Domains.{Idna, trim_left, trim_right, normalize_domains}

pub record ManagedCertificateInput : Type 0 where
  pub name : String
  pub domains : List String
  pub certificate_issuer_id : String
  pub dns_provider_account_id : String
  pub key_type : String
  pub auto_renew_enabled : Option Bool
  pub renew_before_days : ℕ
  pub notify_group_ids : List String
  pub server_ids : List String

abbrev pub default_renew_before_days : ℕ
default_renew_before_days = 30

abbrev pub trimmed : String → String
unfolding trim_left trim_right
trimmed s = trim_right (trim_left s)

-- `strings.TrimSpace`, and the error for an empty text.
unfoldable pub required : String → Error → Result String
required s e = if trimmed s == "" then err e else ok (trimmed s)

unfoldable pub then_ok : {A B : Type 0} → Result A → (A → Result B) → Result B
then_ok (ok a) f = f a
then_ok (err e) f = err e

unfoldable pub normalize_key_type : Idna → String → Result String
normalize_key_type idna raw =
    let s = trimmed (idna.to_lower raw) in
    if s == "" || s == "ec_p256" || s == "ec-p256" || s == "ec p-256"
    then ok "ec_p256"
    else if s == "rsa_2048" || s == "rsa-2048" || s == "rsa 2048"
    then ok "rsa_2048"
    else err invalid_key_type

abbrev pub no_certificate : ManagedCertificate
no_certificate = record {
  id = "";
  name = "";
  domains = [];
  certificate_issuer_id = "";
  dns_provider_account_id = "";
  key_type = "";
  auto_renew_enabled = false;
  renew_before_days = 0;
  notify_group_ids = [];
  server_ids = [];
  active_version = none;
  previous_version = none;
  notification_state = none;
  created_at = 0;
  updated_at = 0;
}

unfoldable pub build_managed_certificate :
    Idna → ManagedCertificateInput → ManagedCertificate → Result ManagedCertificate
unfolding required then_ok normalize_key_type
build_managed_certificate idna input existing =
    then_ok (required input.name certificate_name_required) λ name.
      then_ok (normalize_domains idna input.domains) λ domains.
        then_ok (required input.certificate_issuer_id issuer_required) λ issuer_id.
          then_ok (required input.dns_provider_account_id dns_account_required) λ dns_id.
            then_ok (normalize_key_type idna input.key_type) λ key_type. ok (record no_certificate {
              id = existing.id;
              name = name;
              domains = domains;
              certificate_issuer_id = issuer_id;
              dns_provider_account_id = dns_id;
              key_type = key_type;
              auto_renew_enabled = elim input.auto_renew_enabled [
                | some enabled ↦ enabled
                | none ↦ if existing.id == "" then true else existing.auto_renew_enabled
              ];
              renew_before_days =
                  if not (nat_beq input.renew_before_days 0)
                  then input.renew_before_days
                  else if not (nat_beq existing.renew_before_days 0)
                  then existing.renew_before_days
                  else default_renew_before_days;
              notify_group_ids = input.notify_group_ids;
              server_ids = input.server_ids;
              created_at = existing.created_at;
            })

unfoldable pub issue_fields_changed : ManagedCertificate → ManagedCertificate → Bool
issue_fields_changed before after =
    not (before.certificate_issuer_id == after.certificate_issuer_id)
    || not (before.dns_provider_account_id == after.dns_provider_account_id)
    || not (before.key_type == after.key_type)
    || not (same_domains before.domains after.domains)

-- A document that is missing is an error of the input.
unfoldable pub or_required : {A : Type 0} → Error → Result A → Result A
or_required e (ok a) = ok a
or_required e (err no_documents) = err e
or_required e (err x) = err x

unfoldable pub checked_issuer : CertificateIssuer → Result (Unit {0})
checked_issuer issuer =
    if not (issuer.registration_status == "Ready")
    then err issuer_not_ready
    else if is_blank issuer.account_uri
    then err account_uri_required
    else ok tt

unfoldable pub update_of : ManagedCertificate → ManagedCertificateUpdate
update_of c = record {
  name = c.name;
  domains = c.domains;
  certificate_issuer_id = c.certificate_issuer_id;
  dns_provider_account_id = c.dns_provider_account_id;
  key_type = c.key_type;
  auto_renew_enabled = c.auto_renew_enabled;
  renew_before_days = c.renew_before_days;
  notify_group_ids = c.notify_group_ids;
  server_ids = c.server_ids;
}

module _ (db : Database) (o : Outside) (idna : Idna)
    (validate_notify_group_ids validate_server_ids : List String → Result (Unit {0})) where
  unfoldable pub validate_managed_certificate_refs : ManagedCertificate → Result (Unit {0})
  unfolding then_ok or_required checked_issuer
  validate_managed_certificate_refs cert =
      then_ok (or_required issuer_required (get_certificate_issuer o cert.certificate_issuer_id))
        λ issuer. then_ok (checked_issuer issuer) λ _.
          then_ok
            (or_required dns_account_required
              (get_dns_provider_account o cert.dns_provider_account_id))
            λ _.
              then_ok (validate_notify_group_ids cert.notify_group_ids)
                λ _. validate_server_ids cert.server_ids

  -- The certificate, and the operation that issues its first version.
  unfoldable pub create_managed_certificate :
      ℕ
      → String
      → ℕ
      → String
      → ManagedCertificateInput
      → Method (ManagedCertificate × CertificateOperation)
  unfolding build_managed_certificate validate_managed_certificate_refs
  create_managed_certificate now fresh later fresh_op input = do
    cert ← from (build_managed_certificate idna input no_certificate)
    from (validate_managed_certificate_refs cert)
    created ← create_certificate db now fresh cert
    op ← create_pending_issue_operation db later fresh_op created
    from (ok (created, op))

  unfoldable pub update_managed_certificate :
      ℕ → String → ManagedCertificateInput → Method ManagedCertificate
  update_managed_certificate now id input = do
    existing ← get_certificate db id
    updated ← from (build_managed_certificate idna input existing)
    from (validate_managed_certificate_refs updated)
    issuing ← optional (find_running_operation db id issue)
    renewing ← optional (find_running_operation db id renew)
    revoking ← optional (find_running_operation db id revoke)
    require
        (not (
          (is_some issuing || is_some renewing || is_some revoking)
          && issue_fields_changed existing updated))
        issue_fields_locked
    update_certificate db id (update_of updated) now
