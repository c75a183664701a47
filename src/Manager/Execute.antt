-- ===== src/Manager/Execute.antt =====
-- One attempt's work: `executeCertificateIssuance` with its tracking DNS provider in
-- internal/certmanager/issue.go, and `executeCertificateRevocation` in revoke.go.
use neo_line.Prelude.{
  ℕ, false, not, String, ◌==◌, Option, none, some, if◌then◌else◌, is_blank, join_text, nat_beq,
  Result, ok, err, Error, issuer_not_ready, account_uri_required,
}
use neo_line.Certificates.Types.{
  CertificateOperation, CertificateVersion, ManagedCertificate, DnsChallengeRecord, OperationType,
  issue, renew, revoke, Database,
}
use neo_line.Certificates.Store.{Store, Method, return, from, require, ◌>>=◌, ◌>>◌}
use neo_line.Certificates.Lease.{record_pending_txt, clear_pending_txt}
use neo_line.Certificates.Versions.{
  get_certificate, activate_first_version, activate_subsequent_version, complete_revoke_version,
}
use neo_line.Manager.Retry.{attempt}
use neo_line.Manager.Submit.{version_by_id}
use neo_line.Manager.Outside.{
  Outside, CertificateIssuer, DnsProvider, IssueRequest, IssueResult, ParsedBundle, AcmeRun,
  presents, cleans_up, returns, get_certificate_issuer, get_dns_provider_account, new_provider,
}

-- What the calls of the tracking provider leave: the store, the warning of a failed cleanup, the result.
abbrev pub Tracked : Type 0 → Type 0
Tracked A = Store × String × Result A

-- `setCleanupWarning`.
unfoldable pub cleanup_warning : Outside → Error → String
cleanup_warning o e = join_text "dns txt cleanup failed: " (o.sanitize e)

unfoldable pub tracked_clean_up : Outside → DnsProvider → DnsChallengeRecord → String → String
unfolding cleanup_warning
tracked_clean_up o provider r warning = elim (provider.clean_up r) [
  | ok _ ↦ warning
  | err e ↦ cleanup_warning o e
]

-- The issuer that registered the account of the version, with its fallbacks.
unfoldable pub issuer_of : ManagedCertificate → CertificateVersion → String
issuer_of cert v =
    if not (v.certificate_issuer_id == "")
    then v.certificate_issuer_id
    else if not (v.config_snapshot.certificate_issuer_id == "")
    then v.config_snapshot.certificate_issuer_id
    else cert.certificate_issuer_id

unfoldable pub issued_version :
    Outside → CertificateOperation → CertificateIssuer → ParsedBundle → CertificateVersion
issued_version o op issuer parsed = record {
  id = o.fresh_version_id;
  config_snapshot = op.config_snapshot;
  fullchain_pem = parsed.fullchain_pem;
  private_key_pem = parsed.private_key_pem;
  leaf_fingerprint = parsed.leaf_fingerprint;
  serial_number = parsed.serial_number;
  issuer_common_name = parsed.issuer_common_name;
  not_before = parsed.not_before;
  not_after = parsed.not_after;
  key_type = op.config_snapshot.key_type;
  staging_untrusted = issuer.staging_untrusted;
  certificate_issuer_id = issuer.id;
  revoke_pending = false;
  revoked_at = none;
  created_at = o.issued_at;
}

module _ (db : Database) (o : Outside) where
  -- `Present`: the record is kept before the client goes on, or is removed again.
  unfoldable pub tracked_present :
      DnsProvider → String → String → DnsChallengeRecord → ℕ → String → Store → Tracked (Unit {0})
  unfolding tracked_clean_up
  tracked_present provider op_id owner r now warning s = elim (provider.present r) [
    | err e ↦ (s, warning, err e)
    | ok _ ↦
        let (t, recorded) = record_pending_txt db op_id owner r now s in
        elim recorded [
          | ok _ ↦ (t, warning, ok tt)
          | err e ↦ (t, tracked_clean_up o provider r warning, err e)
        ]
  ]

  unfoldable pub drive :
      DnsProvider → String → String → AcmeRun → String → Store → Tracked IssueResult
  unfolding tracked_present
  drive provider op_id owner (presents r now k) warning s =
      let (t, w, result) = tracked_present provider op_id owner r now warning s in
      drive provider op_id owner (k result) w t
  drive provider op_id owner (cleans_up r k) warning s =
      drive provider op_id owner k (tracked_clean_up o provider r warning) s
  drive provider op_id owner (returns result) warning s = (s, warning, result)

  -- The call of the ACME client, with the warning of its cleanups.
  unfoldable pub obtain :
      CertificateOperation
      → String
      → CertificateIssuer
      → DnsProvider
      → Method (String × IssueResult)
  unfolding drive
  obtain op owner issuer provider s =
      let request : IssueRequest = record {
        issuer = issuer;
        domains = op.config_snapshot.domains;
        key_type = op.config_snapshot.key_type;
        operation_id = op.id;
        managed_certificate_id = op.managed_certificate_id;
        attempt_count = op.attempt_count;
      } in
      let (t, warning, result) = drive provider op.id owner (o.issue_certificate request) "" s in
      (t, elim result [ ok issued ↦ ok (warning, issued) | err e ↦ err e ])

  -- By the version that the certificate has active.
  unfoldable pub activate_issued :
      CertificateOperation
      → String
      → String
      → CertificateVersion
      → Option CertificateVersion
      → Method (Unit {0})
  activate_issued op owner warning v none =
      activate_first_version db op.managed_certificate_id v op.id owner warning o.stored_at
  activate_issued op owner warning v (some old) =
      activate_subsequent_version db op.managed_certificate_id v old.id op.id owner warning
        o.stored_at

  unfoldable pub execute_certificate_issuance : CertificateOperation → String → Method String
  unfolding obtain activate_issued issued_version
  execute_certificate_issuance op owner = do
    issuer ← from (get_certificate_issuer o op.config_snapshot.certificate_issuer_id)
    require (issuer.registration_status == "Ready") issuer_not_ready
    require (not (is_blank issuer.account_uri)) account_uri_required
    account ← from (get_dns_provider_account o op.config_snapshot.dns_provider_account_id)
    provider ← from (new_provider o account)
    issued ← obtain op owner issuer provider
    parsed ← from (
        o.validate_issued_bundle issued.1.fullchain_pem issued.1.private_key_pem
          op.config_snapshot.domains op.config_snapshot.key_type o.issued_at)
    cert ← get_certificate db op.managed_certificate_id
    activate_issued op owner issued.0 (issued_version o op issuer parsed) cert.active_version
    attempt (clear_pending_txt db op.id o.cleared_at)
    return issued.0

  -- The revocation at the ACME server.
  unfoldable pub revoke_at_issuer :
      CertificateOperation → String → ManagedCertificate → CertificateVersion → Method (Unit {0})
  unfolding issuer_of
  revoke_at_issuer op owner cert target = do
    issuer ← from (get_certificate_issuer o (issuer_of cert target))
    require (issuer.registration_status == "Ready") issuer_not_ready
    require (not (is_blank issuer.account_uri)) account_uri_required
    leaf ← from (o.leaf_certificate_pem target.fullchain_pem)
    from (
        o.revoke_certificate issuer leaf
          (if nat_beq op.revoke_reason 0 then none else some op.revoke_reason))
    complete_revoke_version db op.managed_certificate_id op.target_version_id op.id owner
        o.revoked_at o.stored_at

  -- By the time at which the version was revoked already.
  unfoldable pub revoke_target :
      CertificateOperation
      → String
      → ManagedCertificate
      → CertificateVersion
      → Option ℕ
      → Method (Unit {0})
  unfolding revoke_at_issuer
  revoke_target op owner cert target (some at) =
      complete_revoke_version db op.managed_certificate_id op.target_version_id op.id owner at
        o.stored_at
  revoke_target op owner cert target none = revoke_at_issuer op owner cert target

  unfoldable pub execute_certificate_revocation : CertificateOperation → String → Method (Unit {0})
  unfolding revoke_target version_by_id
  execute_certificate_revocation op owner = do
    cert ← get_certificate db op.managed_certificate_id
    target ← from (version_by_id cert op.target_version_id)
    revoke_target op owner cert target target.revoked_at

  unfoldable pub execute_by_type : OperationType → CertificateOperation → String → Method String
  unfolding execute_certificate_issuance execute_certificate_revocation
  execute_by_type revoke op owner = execute_certificate_revocation op owner >> return ""
  execute_by_type issue op owner = execute_certificate_issuance op owner
  execute_by_type renew op owner = execute_certificate_issuance op owner

  unfoldable pub execute_operation : CertificateOperation → String → Method String
  unfolding execute_by_type
  execute_operation op owner = execute_by_type op.kind op owner
