-- ===== src/Examples/Manager.antt =====
-- The manager on the database in memory, with an ACME server that issues a certificate.
use neo_line.Manager.Retry.{
  double_delay, handle_operation_failure, compute_retry_delay, failure_verdict, attempt,
}
use neo_line.Mongo.Documents.{update_first}
use neo_line.Certificates.Operations.{has_id, lease_held, claimable}
use neo_line.Certificates.Claims.{IsUnique}
use neo_line.Certificates.Lease.{
  add_to_set, presented, owned_by, record_pending_txt, mark_failed, rescheduled, update_matched,
  schedule_retry, conflicting, claimed, claims, try_claim,
}
use neo_line.Certificates.Store.{Store, execute}
use neo_line.Manager.Released.{run_operation-IsReleased}
use neo_line.Manager.Freeing.{IsReleased}
use neo_line.Manager.Runner.{recover, Attempted, failed_with, not_claimed, run_operation}
use neo_line.Prelude.{
  is_blank, Bool, ◌∙◌, sym, Result, refl, ◌≢◌, arith, ◌≡◌, false, none, some, List, [], ◌∷◌, ok,
  ◌*◌,
}
use neo_line.Certificates.Lease.{update_matched}
use neo_line.Certificates.Operations.{prepared}
use neo_line.Manager.Execute.{execute_operation}
use neo_line.Certificates.Versions.{get_certificate}
use neo_line.Certificates.Types.{Database, operation_clash, certificate_clash, CertificateOperation}
use neo_line.Certificates.Commands.{new_operation}
use neo_line.Mongo.{memory}
use neo_line.Manager.Outside.{
  new_provider, get_dns_provider_account, get_certificate_issuer, Outside, CertificateIssuer,
  DnsProviderAccount, DnsProvider, IssueResult, ParsedBundle, presents, cleans_up, returns,
}
use neo_line.Examples.Data.{issuance, challenge}

abbrev issuer : CertificateIssuer
issuer = record {
  id = "iss_1";
  name = "issuer";
  ca_type = "";
  directory_url = "";
  email = "";
  registration_status = "Ready";
  registration_error = "";
  staging_untrusted = false;
  terms_of_service_url = "";
  terms_of_service_agreed = none;
  account_key_pem = "";
  account_uri = "acct";
  eab_kid = "";
  eab_hmac = "";
  created_at = 0;
  updated_at = 0;
}

abbrev account : DnsProviderAccount
account = record {
  id = "dns_1";
  name = "dns";
  provider = "cloudflare";
  propagation_timeout_seconds = 120;
  api_token = "";
  token_last_verified_at = none;
  created_at = 0;
  updated_at = 0;
}

abbrev provider : DnsProvider
provider = record { present = λ _. ok tt; clean_up = λ _. ok tt }

abbrev issued : IssueResult
issued = record { fullchain_pem = "chain"; private_key_pem = "key" }

abbrev parsed : ParsedBundle
parsed = record {
  fullchain_pem = "chain";
  private_key_pem = "key";
  leaf_fingerprint = "ff";
  serial_number = "1";
  issuer_common_name = "CA";
  not_before = 0;
  not_after = 90 * 86400 * 1000000000;
}

abbrev pub acme : Outside
unfolding memory
acme = record {
  issuers = memory (λ a b. false);
  issuer_documents = issuer ∷ [];
  dns_accounts = memory (λ a b. false);
  dns_documents = account ∷ [];
  dns_factory = some (λ _. ok provider);
  issue_certificate = λ _. presents challenge 210 (λ _. cleans_up challenge (returns (ok issued)));
  revoke_certificate = λ _ _ _. ok tt;
  validate_issued_bundle = λ _ _ _ _ _. ok parsed;
  leaf_certificate_pem = λ _. ok "leaf";
  sanitize = λ _. "failed";
  jitter = λ _. 0;
  fresh_version_id = "ver_2";
  claimed_at = 200;
  issued_at = 220;
  stored_at = 221;
  cleared_at = 222;
  revoked_at = 223;
  failed_at = 224;
  retried_at = 225;
  ended_at = 226;
}

abbrev local : Database
unfolding memory
local = record {
  operations = memory operation_clash;
  certificates = memory certificate_clash;
  operations_indexed = refl;
  certificates_indexed = refl;
}

abbrev queue : Store
queue = record { operations = prepared 100 "cop_1" issuance ∷ []; certificates = [] }

updates_applied :
    (p : CertificateOperation → Bool) (f : CertificateOperation → CertificateOperation)
    (xs : List CertificateOperation)
    → (local.operations.update_one p f xs).0 ≡ update_first p f xs
unfolding local
updates_applied p f xs = refl

one_of_id : IsUnique "cop_1" queue
unfolding has_id prepared new_operation
one_of_id = omega arith

failing_run : (run_operation local acme "replica_a" "cop_1" queue).1 ≡ ok (failed_with "failed")
unfolding local prepared new_operation run_operation memory execute try_claim recover claimable
    claims claimed conflicting lease_held has_id update_first attempt failure_verdict
    compute_retry_delay handle_operation_failure schedule_retry update_matched rescheduled
    mark_failed execute_operation get_certificate_issuer is_blank get_dns_provider_account
    new_provider get_certificate record_pending_txt owned_by presented add_to_set double_delay
failing_run = refl

ran : (run_operation local acme "replica_a" "cop_1" queue).1 ≢ ok not_claimed
ran h =
    let apart : ◌≡◌ {A = Result Attempted} (ok (failed_with "failed")) (ok not_claimed) =
      sym failing_run ∙ h in
    cc (apart)

run_operation-IsReleased_example :
    IsReleased "cop_1" "replica_a" (run_operation local acme "replica_a" "cop_1" queue).0
run_operation-IsReleased_example =
    run_operation-IsReleased local acme "replica_a" "cop_1" updates_applied queue one_of_id ran
