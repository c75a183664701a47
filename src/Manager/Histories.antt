-- ===== src/Manager/Histories.antt =====
-- Every method of the manager is a history of calls.
use neo_line.Manager.Retry.{
  retries, fail_operation_deadline_exceeded, ends, handle_operation_failure, Verdict, carry_out,
}
use neo_line.Manager.Runner.{
  cleanup_pending_txt, find_claimable, run_claimed, trigger_found, after_claim, run_operation,
  clean_with, make_attempt, poll_claimable_operations, conclude,
}
use neo_line.Certificates.Lease.{record_pending_txt}
use neo_line.Manager.Follows.{
  Reached-refl, command-Follows, call_rules, Reached-trans, Follows, Reached,
}
use neo_line.Certificates.Versions.{get_certificate}
use neo_line.Certificates.Commands.{records_txt, step}
use neo_line.Manager.Execute.{
  execute_operation, revoke_at_issuer, execute_certificate_revocation, execute_by_type,
  revoke_target, tracked_clean_up, Tracked, execute_certificate_issuance, tracked_present, obtain,
  activate_issued, drive,
}
use neo_line.Prelude.{ℕ, refl, String, Option, none, some, List, Result, ok, err}
use neo_line.Certificates.Types.{
  DnsChallengeRecord, CertificateOperation, CertificateVersion, ManagedCertificate, Database,
  OperationType, issue, renew, revoke,
}
use neo_line.Certificates.Store.{Store}
use neo_line.Manager.Outside.{
  CertificateIssuer, Outside, DnsProvider, AcmeRun, presents, cleans_up, returns,
}

module _ (db : Database) where
  record_pending_txt-Follows :
      (op_id owner : String) (r : DnsChallengeRecord) (now : ℕ)
      → Follows db (record_pending_txt db op_id owner r now)
  unfolding step
  record_pending_txt-Follows op_id owner r now =
      command-Follows db (records_txt op_id owner r now) _ λ s. refl

  module _ (o : Outside) (provider : DnsProvider) (op_id owner : String) where
    tracked_present-Reached :
        (r : DnsChallengeRecord) (now : ℕ) (warning : String) (s : Store)
        → Reached db s (tracked_present db o provider op_id owner r now warning s).0
    unfolding tracked_present
    tracked_present-Reached r now warning s = presented (provider.present r)
      where
        kept :
            (t : Store) (recorded : Result (Unit {0}))
            → Reached db s t
            → Reached db s
                (elim recorded as (λ _. Tracked (Unit {0})) [
                  | ok _ ↦ (t, warning, ok tt)
                  | err e ↦ (t, tracked_clean_up o provider r warning, err e)
                ]).0
        kept t (ok _) h = h
        kept t (err e) h = h

        presented :
            (p : Result (Unit {0}))
            → Reached db s
                (elim p as (λ _. Tracked (Unit {0})) [
                  | err e ↦ (s, warning, err e)
                  | ok _ ↦
                      let (t, recorded) = record_pending_txt db op_id owner r now s in
                      elim recorded as (λ _. Tracked (Unit {0})) [
                        | ok _ ↦ (t, warning, ok tt)
                        | err e ↦ (t, tracked_clean_up o provider r warning, err e)
                      ]
                ]).0
        presented (err e) = Reached-refl db s
        presented (ok _) = kept _ _ ((record_pending_txt-Follows op_id owner r now).history s)

    drive-Reached :
        (run : AcmeRun) (warning : String) (s : Store)
        → Reached db s (drive db o provider op_id owner run warning s).0
    unfolding drive
    drive-Reached (presents r now k) warning s =
        let (t, w, result) = tracked_present db o provider op_id owner r now warning s in
        Reached-trans db s t _ (tracked_present-Reached r now warning s)
          (drive-Reached (k result) w t)
    drive-Reached (cleans_up r k) warning s = drive-Reached k _ s
    drive-Reached (returns result) warning s = Reached-refl db s

  pub obtain-Follows :
      (o : Outside) (op : CertificateOperation) (owner : String) (issuer : CertificateIssuer)
      (provider : DnsProvider)
      → Follows db (obtain db o op owner issuer provider)
  unfolding obtain
  obtain-Follows o op owner issuer provider = record {
    history = λ s.
        drive-Reached o provider op.id owner
          (o.issue_certificate (record {
            issuer = issuer;
            domains = op.config_snapshot.domains;
            key_type = op.config_snapshot.key_type;
            operation_id = op.id;
            managed_certificate_id = op.managed_certificate_id;
            attempt_count = op.attempt_count;
          }))
          "" s;
  }

  pub get_certificate-Follows : (id : String) → Follows db (get_certificate db id)
  unfolding get_certificate
  get_certificate-Follows id = search call_rules

  activate_issued-Follows :
      (o : Outside) (op : CertificateOperation) (owner warning : String) (v : CertificateVersion)
      (active : Option CertificateVersion)
      → Follows db (activate_issued db o op owner warning v active)
  unfolding activate_issued
  activate_issued-Follows o op owner warning v none = search call_rules
  activate_issued-Follows o op owner warning v (some old) = search call_rules

  execute_certificate_issuance-Follows :
      (o : Outside) (op : CertificateOperation) (owner : String)
      → Follows db (execute_certificate_issuance db o op owner)
  unfolding execute_certificate_issuance
  execute_certificate_issuance-Follows o op owner =
      search (call_rules, get_certificate-Follows, obtain-Follows, activate_issued-Follows) depth 24

  revoke_target-Follows :
      (o : Outside) (op : CertificateOperation) (owner : String) (cert : ManagedCertificate)
      (target : CertificateVersion) (at : Option ℕ)
      → Follows db (revoke_target db o op owner cert target at)
  unfolding revoke_target revoke_at_issuer
  revoke_target-Follows o op owner cert target (some at) = search call_rules
  revoke_target-Follows o op owner cert target none = search call_rules depth 16

  pub execute_by_type-Follows :
      (o : Outside) (kind : OperationType) (op : CertificateOperation) (owner : String)
      → Follows db (execute_by_type db o kind op owner)
  unfolding execute_by_type execute_certificate_revocation
  execute_by_type-Follows o revoke op owner =
      search (call_rules, get_certificate-Follows, revoke_target-Follows) depth 16
  execute_by_type-Follows o issue op owner = execute_certificate_issuance-Follows o op owner
  execute_by_type-Follows o renew op owner = execute_certificate_issuance-Follows o op owner

  carry_out-Follows :
      (op_id replica : String) (now : ℕ) (v : Verdict)
      → Follows db (carry_out db op_id replica now v)
  unfolding carry_out
  carry_out-Follows op_id replica now (ends summary) = search call_rules
  carry_out-Follows op_id replica now (retries t summary n) = search call_rules

  conclude-Follows :
      (o : Outside) (replica : String) (op : CertificateOperation) (r : Result String)
      → Follows db (conclude db o replica op r)
  unfolding conclude handle_operation_failure
  conclude-Follows o replica op (ok warning) = search call_rules
  conclude-Follows o replica op (err e) = search (call_rules, carry_out-Follows)

  clean_with-Follows :
      (o : Outside) (op : CertificateOperation) (r : Result DnsProvider)
      → Follows db (clean_with db o op r)
  unfolding clean_with
  clean_with-Follows o op (ok p) = search call_rules
  clean_with-Follows o op (err e) = search call_rules

  pub cleanup_pending_txt-Follows :
      (o : Outside) (op : CertificateOperation) → Follows db (cleanup_pending_txt db o op)
  unfolding cleanup_pending_txt
  cleanup_pending_txt-Follows o op = search (call_rules, clean_with-Follows)

  make_attempt-Follows :
      (o : Outside) (replica : String) (op : CertificateOperation)
      → Follows db (make_attempt db o replica op)
  unfolding make_attempt execute_operation
  make_attempt-Follows o replica op = search (call_rules, execute_by_type-Follows, conclude-Follows)

  after_claim-Follows :
      (o : Outside) (replica : String) (r : Result CertificateOperation)
      → Follows db (after_claim db o replica r)
  unfolding after_claim run_claimed cleanup_pending_txt fail_operation_deadline_exceeded
  after_claim-Follows o replica (ok op) =
      search (call_rules, make_attempt-Follows, clean_with-Follows) depth 12
  after_claim-Follows o replica (err e) = search call_rules

  pub run_operation-Follows :
      (o : Outside) (replica op_id : String) → Follows db (run_operation db o replica op_id)
  unfolding run_operation
  run_operation-Follows o replica op_id = search (call_rules, after_claim-Follows)

  trigger_found-Follows :
      (now : ℕ) (r : Result (List CertificateOperation)) → Follows db (trigger_found db now r)
  unfolding trigger_found
  trigger_found-Follows now (ok ops) = search call_rules
  trigger_found-Follows now (err e) = search call_rules

  pub poll_claimable_operations-Follows : (now : ℕ) → Follows db (poll_claimable_operations db now)
  unfolding poll_claimable_operations find_claimable
  poll_claimable_operations-Follows now = search (call_rules, trigger_found-Follows)
