-- ===== src/Inventory/State.antt =====
-- The collections that hold the configuration and what refers to it, and methods on them, which stop at
-- the first error with what was written before it kept.
use neo_line.Prelude.{
  ℕ, zero, suc, Bool, String, ◌==◌, Option, List, Result, ok, err, driver, duplicate_key,
  no_documents, name_taken, any, not, select, if◌then◌else◌,
}
use neo_line.Mongo.{Collection}
use neo_line.Certificates.Types.{ManagedCertificate}
use neo_line.Monitoring.Types.{Server, Monitor, CheckResult, ServerEvent, MonitorGroup, NotifyGroup}

-- internal/store/certificate_access_tokens.go.
pub record CertificateAccessToken : Type 0 where
  pub id : String
  pub server_id : String
  pub name : String
  pub token_hash : String
  pub prefix : String
  pub created_at : ℕ
  pub last_used_at : Option ℕ
  pub expires_at : Option ℕ

pub record InventoryDatabase : Type 0 where
  pub servers_coll : Collection Server
  pub monitors_coll : Collection Monitor
  pub results_coll : Collection CheckResult
  pub events_coll : Collection ServerEvent
  pub tokens_coll : Collection CertificateAccessToken
  pub groups_coll : Collection MonitorGroup
  pub notify_groups_coll : Collection NotifyGroup
  pub certificates_coll : Collection ManagedCertificate

pub record Inventory : Type 0 where
  pub servers : List Server
  pub monitors : List Monitor
  pub results : List CheckResult
  pub events : List ServerEvent
  pub tokens : List CertificateAccessToken
  pub groups : List MonitorGroup
  pub notify_groups : List NotifyGroup
  pub certificates : List ManagedCertificate

abbrev pub Action : Type 0 → Type 0
Action A = Inventory → Inventory × Result A

module _ {A : Type 0} where
  abbrev pub on_servers : (List Server → List Server × Result A) → Action A
  on_servers m s = (record s { servers = (m s.servers).0 }, (m s.servers).1)

  abbrev pub on_monitors : (List Monitor → List Monitor × Result A) → Action A
  on_monitors m s = (record s { monitors = (m s.monitors).0 }, (m s.monitors).1)

  abbrev pub on_results : (List CheckResult → List CheckResult × Result A) → Action A
  on_results m s = (record s { results = (m s.results).0 }, (m s.results).1)

  abbrev pub on_events : (List ServerEvent → List ServerEvent × Result A) → Action A
  on_events m s = (record s { events = (m s.events).0 }, (m s.events).1)

  abbrev pub on_tokens :
      (List CertificateAccessToken → List CertificateAccessToken × Result A) → Action A
  on_tokens m s = (record s { tokens = (m s.tokens).0 }, (m s.tokens).1)

  abbrev pub on_groups : (List MonitorGroup → List MonitorGroup × Result A) → Action A
  on_groups m s = (record s { groups = (m s.groups).0 }, (m s.groups).1)

  abbrev pub on_notify_groups : (List NotifyGroup → List NotifyGroup × Result A) → Action A
  on_notify_groups m s = (record s { notify_groups = (m s.notify_groups).0 }, (m s.notify_groups).1)

  abbrev pub on_certificates :
      (List ManagedCertificate → List ManagedCertificate × Result A) → Action A
  on_certificates m s = (record s { certificates = (m s.certificates).0 }, (m s.certificates).1)

  -- A read.
  abbrev pub reading : (Inventory → Result A) → Action A
  reading q s = (s, q s)

  abbrev pub done_with : A → Action A
  done_with a s = (s, ok a)

  -- An error of a write, with a duplicate key read as a name that is taken.
  abbrev pub naming : Result A → Result A
  naming (err (driver duplicate_key)) = err name_taken
  naming r = r

  abbrev pub named : Action A → Action A
  named m s = ((m s).0, naming (m s).1)

  abbrev pub matched_or_missing : ℕ → A → Action A
  matched_or_missing zero a s = (s, err no_documents)
  matched_or_missing (suc n) a s = (s, ok a)

unfoldable pub continue :
    {A B : Type 0} → (A → Action B) → Inventory → Result A → Inventory × Result B
continue f s (ok a) = f a s
continue f s (err e) = (s, err e)

infixl 5 ◌then◌
unfoldable pub ◌then◌ : {A B : Type 0} → Action A → (A → Action B) → Action B
unfolding continue
m then f = λ s. continue f (m s).0 (m s).1

-- `$pull`.
abbrev pub pull : String → List String → List String
pull id ids = select (λ x. not (x == id)) ids

abbrev pub names : String → List String → Bool
names id ids = any (λ x. x == id) ids
