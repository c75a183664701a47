-- ===== src/Examples/Desired.antt =====
-- An update of a managed certificate while its first version is being issued.
use neo_line.Prelude.{◌≡◌, refl, true, some, none, [], ◌∷◌, ok, first, is_space, is_blank}
use neo_line.Mongo.{memory}
use neo_line.Mongo.Documents.{update_first}
use neo_line.Certificates.Types.{ManagedCertificate}
use neo_line.Certificates.Store.{Store, execute}
use neo_line.Certificates.Operations.{find_running_operation, in_flight_for, prepared}
use neo_line.Certificates.Commands.{new_operation}
use neo_line.Certificates.Versions.{has_certificate_id, get_certificate, update_certificate, edited}
use neo_line.CertState.{same_domains}
use neo_line.Manager.Submit.{optional, found_or_none}
use neo_line.Manager.Outside.{get_certificate_issuer, get_dns_provider_account}
use neo_line.Manager.Domains.{
  normalize_domains, within_limit, normalize_each, normalize_domain, convert,
  validate_domain_syntax, name_char,
}
use neo_line.Manager.Desired.{
  ManagedCertificateInput, update_managed_certificate, build_managed_certificate,
  validate_managed_certificate_refs, issue_fields_changed, update_of,
}
use neo_line.Manager.Saved.{busy, SameIssueFields}
use neo_line.Manager.Locked.{update_managed_certificate-locked}
use neo_line.Examples.Data.{in_memory, waiting, certificate}
use neo_line.Examples.Manager.{acme}
use neo_line.Examples.Names.{ascii_only}

abbrev renamed : ManagedCertificateInput
renamed = record {
  name = "edge";
  domains = "example.com" ∷ [];
  certificate_issuer_id = "iss_1";
  dns_provider_account_id = "dns_1";
  key_type = "ec_p256";
  auto_renew_enabled = none;
  renew_before_days = 0;
  notify_group_ids = [];
  server_ids = [];
}

abbrev issuing : Store
issuing = record { operations = waiting ∷ []; certificates = certificate ∷ [] }

abbrev renamed_certificate : ManagedCertificate
renamed_certificate = record certificate { name = "edge"; notify_group_ids = []; updated_at = 300 }

abbrev after_update : Store
after_update = record issuing { certificates = renamed_certificate ∷ [] }

issuing-busy : busy "crt_1" issuing ≡ true
unfolding in_flight_for prepared new_operation
issuing-busy = refl

accepted_update :
    update_managed_certificate in_memory acme ascii_only
      (λ _. ok tt)
      (λ _. ok tt)
      300
      "crt_1"
      renamed
      issuing
    ≡ (after_update, ok renamed_certificate)
unfolding update_managed_certificate build_managed_certificate validate_managed_certificate_refs
    execute optional found_or_none find_running_operation get_certificate update_certificate
    get_certificate_issuer get_dns_provider_account normalize_domains within_limit normalize_each
    normalize_domain convert validate_domain_syntax name_char issue_fields_changed same_domains
    update_of edited has_certificate_id in_flight_for prepared new_operation memory update_first
    is_space is_blank
accepted_update = refl

update_managed_certificate-locked_example :
    (existing : ManagedCertificate) × (first (has_certificate_id "crt_1") issuing.certificates
      ≡ some existing)
    × SameIssueFields existing renamed_certificate
update_managed_certificate-locked_example =
    update_managed_certificate-locked in_memory acme ascii_only (λ _. ok tt) (λ _. ok tt) 300
      "crt_1" renamed issuing after_update renamed_certificate issuing-busy accepted_update
