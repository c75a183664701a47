-- ===== src/Manager/Outside.antt =====
-- What an attempt at an operation meets outside of the two collections: the issuers and the DNS accounts
-- of internal/store/certificate_issuers.go and dns_provider_accounts.go, the DNS provider, the ACME client
-- of internal/certmanager/acme.go with the server behind it, and the clock at each of its readings.
use neo_line.Prelude.{ℕ, Bool, String, ◌==◌, Option, none, some, List, Result, err, Error, external}
use neo_line.Mongo.{Collection}
use neo_line.Certificates.Types.{DnsChallengeRecord}

pub record CertificateIssuer : Type 0 where
  pub id : String
  pub name : String
  pub ca_type : String
  pub directory_url : String
  pub email : String
  pub registration_status : String
  pub registration_error : String
  pub staging_untrusted : Bool
  pub terms_of_service_url : String
  pub terms_of_service_agreed : Option ℕ
  pub account_key_pem : String
  pub account_uri : String
  pub eab_kid : String
  pub eab_hmac : String
  pub created_at : ℕ
  pub updated_at : ℕ

pub record DnsProviderAccount : Type 0 where
  pub id : String
  pub name : String
  pub provider : String
  pub propagation_timeout_seconds : ℕ
  pub api_token : String
  pub token_last_verified_at : Option ℕ
  pub created_at : ℕ
  pub updated_at : ℕ

-- `challenge.Provider` of the ACME library.
pub record DnsProvider : Type 0 where
  pub present : DnsChallengeRecord → Result (Unit {0})
  pub clean_up : DnsChallengeRecord → Result (Unit {0})

pub record IssueRequest : Type 0 where
  pub issuer : CertificateIssuer
  pub domains : List String
  pub key_type : String
  pub operation_id : String
  pub managed_certificate_id : String
  pub attempt_count : ℕ

pub record IssueResult : Type 0 where
  pub fullchain_pem : String
  pub private_key_pem : String

-- What `validateIssuedBundle` reads from the certificate.
pub record ParsedBundle : Type 0 where
  pub fullchain_pem : String
  pub private_key_pem : String
  pub leaf_fingerprint : String
  pub serial_number : String
  pub issuer_common_name : String
  pub not_before : ℕ
  pub not_after : ℕ

-- A run of the ACME client, which calls the provider that it is given, with the time of each call, and
-- goes on by what `Present` returns; `CleanUp` never returns an error to it.
pub data AcmeRun : Type 0 where
  presents : DnsChallengeRecord → ℕ → (Result (Unit {0}) → AcmeRun) → AcmeRun
  cleans_up : DnsChallengeRecord → AcmeRun → AcmeRun
  returns : Result IssueResult → AcmeRun

pub record Outside : Type 0 where
  pub issuers : Collection CertificateIssuer
  pub issuer_documents : List CertificateIssuer
  pub dns_accounts : Collection DnsProviderAccount
  pub dns_documents : List DnsProviderAccount
  -- the factory, if there is one
  pub dns_factory : Option (DnsProviderAccount → Result DnsProvider)
  pub issue_certificate : IssueRequest → AcmeRun
  pub revoke_certificate : CertificateIssuer → String → Option ℕ → Result (Unit {0})
  -- the X.509 checks of certvalidate.go, by chain, key, domains, key type and time
  pub validate_issued_bundle : String → String → List String → String → ℕ → Result ParsedBundle
  -- the first block of a chain
  pub leaf_certificate_pem : String → Result String
  pub sanitize : Error → String
  pub jitter : ℕ → ℕ
  pub fresh_version_id : String
  -- the clock: at the claim, for the issued version, for the store's own timestamps, for a revocation,
  -- and for the deadline, the next attempt and its record after a failure
  pub claimed_at : ℕ
  pub issued_at : ℕ
  pub stored_at : ℕ
  pub cleared_at : ℕ
  pub revoked_at : ℕ
  pub failed_at : ℕ
  pub retried_at : ℕ
  pub ended_at : ℕ

unfoldable pub get_certificate_issuer : Outside → String → Result CertificateIssuer
get_certificate_issuer o id = o.issuers.find_one (λ i. i.id == id) o.issuer_documents

unfoldable pub get_dns_provider_account : Outside → String → Result DnsProviderAccount
get_dns_provider_account o id = o.dns_accounts.find_one (λ a. a.id == id) o.dns_documents

-- The provider of an account; without a factory an error of its own.
unfoldable pub new_provider : Outside → DnsProviderAccount → Result DnsProvider
new_provider o account = elim o.dns_factory [ none ↦ err (external 0) | some f ↦ f account ]
