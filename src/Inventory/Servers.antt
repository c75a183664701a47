-- ===== src/Inventory/Servers.antt =====
-- The writes of servers and monitors in internal/store/store.go.
use neo_line.Prelude.{
  ℕ, Bool, true, ◌&&◌, String, ◌==◌, List, [], ◌∷◌, Result, ok, err, Error, invalid_group_ids,
  if◌then◌else◌, nat_beq, length,
}
use neo_line.Certificates.Types.{ManagedCertificate}
use neo_line.Monitoring.Types.{Server, Monitor, CheckResult, ServerEvent}
use neo_line.Monitoring.Status.{value_or, apply_monitor_defaults}
use neo_line.Inventory.State.{
  InventoryDatabase, CertificateAccessToken, Action, on_servers, on_monitors, on_results, on_events,
  on_tokens, on_certificates, reading, done_with, matched_or_missing, ◌then◌, pull, names,
}

unfoldable pub is_server : String → Server → Bool
is_server id s = s.id == id

unfoldable pub is_monitor : String → String → Monitor → Bool
is_monitor server_id monitor_id m = m.server_id == server_id && m.id == monitor_id

unfoldable pub on_server : String → Monitor → Bool
on_server id m = m.server_id == id

unfoldable pub result_of_server : String → CheckResult → Bool
result_of_server id r = r.server_id == id

unfoldable pub result_of_monitor : String → String → CheckResult → Bool
result_of_monitor server_id monitor_id r = r.server_id == server_id && r.monitor_id == monitor_id

unfoldable pub event_of : String → ServerEvent → Bool
event_of id e = e.server_id == id

unfoldable pub token_of : String → CertificateAccessToken → Bool
token_of id t = t.server_id == id

unfoldable pub assigned : String → ManagedCertificate → Bool
assigned id c = names id c.server_ids

unfoldable pub unassigned : String → ManagedCertificate → ManagedCertificate
unassigned id c = record c { server_ids = pull id c.server_ids }

-- The distinct ids, as the keys of a map.
unfoldable pub distinct : List String → List String
distinct [] = []
distinct (x ∷ xs) = let rest = distinct xs in if names x rest then rest else x ∷ rest

-- The check of `validateGroupIDs` and `validateNotifyGroupIDs`, by the count of the ids that exist.
unfoldable pub check_ids : (List String → Result ℕ) → Error → List String → Result (Unit {0})
unfolding distinct
check_ids count invalid [] = ok tt
check_ids count invalid (x ∷ xs) =
    if names "" (x ∷ xs) then err invalid else elim (count (distinct (x ∷ xs))) [
      | err e ↦ err e
      | ok n ↦ if nat_beq n (length (distinct (x ∷ xs))) then ok tt else err invalid
    ]

module _ (db : InventoryDatabase) where
  open db use {
    servers_coll, monitors_coll, results_coll, events_coll, tokens_coll, groups_coll,
    certificates_coll,
  }

  unfoldable pub get_server : String → Action Server
  unfolding is_server
  get_server id = reading (λ s. servers_coll.find_one (is_server id) s.servers)

  unfoldable pub create_server : ℕ → String → Server → Action Server
  create_server now fresh server =
      let doc = record server {
        id = if server.id == "" then fresh else server.id;
        health_status = if server.health_status == "" then "Unknown" else server.health_status;
        created_at = now;
        updated_at = now;
        last_status_change_at = now;
      } in
      on_servers (servers_coll.insert_one doc) then λ _. done_with doc

  unfoldable pub updated_server : String → Server → Server → ℕ → Server
  updated_server id server existing now = record server {
    id = id;
    created_at = existing.created_at;
    health_status = value_or server.health_status existing.health_status;
    last_status_change_at = existing.last_status_change_at;
    last_check_at = existing.last_check_at;
    updated_at = now;
  }

  unfoldable pub update_server : ℕ → String → Server → Action Server
  unfolding get_server is_server updated_server
  update_server now id server = get_server id then λ existing.
      let doc = updated_server id server existing now in
      on_servers (servers_coll.update_one (is_server id) (λ _. doc)) then λ n.
      matched_or_missing n doc

  unfoldable pub delete_certificate_access_tokens_by_server : String → Action ℕ
  unfolding token_of
  delete_certificate_access_tokens_by_server id = on_tokens (tokens_coll.delete_many (token_of id))

  unfoldable pub remove_server_from_managed_certificates : String → Action ℕ
  unfolding unassigned
  remove_server_from_managed_certificates id =
      on_certificates (certificates_coll.update_many (λ _. true) (unassigned id))

  unfoldable pub delete_server : String → Action ℕ
  unfolding is_server on_server result_of_server event_of delete_certificate_access_tokens_by_server
      remove_server_from_managed_certificates
  delete_server id =
      (on_servers (servers_coll.delete_one (is_server id)) then λ n. matched_or_missing n tt)
      then (λ _. on_monitors (monitors_coll.delete_many (on_server id)))
      then (λ _. on_results (results_coll.delete_many (result_of_server id)))
      then (λ _. on_events (events_coll.delete_many (event_of id)))
      then (λ _. delete_certificate_access_tokens_by_server id)
      then (λ _. remove_server_from_managed_certificates id)

  unfoldable pub validate_group_ids : List String → Action (Unit {0})
  unfolding check_ids
  validate_group_ids ids = reading (λ s.
      check_ids (λ xs. groups_coll.count_documents (λ g. names g.id xs) s.groups) invalid_group_ids
        ids)

  unfoldable pub get_monitor : String → String → Action Monitor
  unfolding is_monitor
  get_monitor server_id monitor_id =
      reading (λ s. monitors_coll.find_one (is_monitor server_id monitor_id) s.monitors)

  unfoldable pub created_monitor : ℕ → String → String → Monitor → Monitor
  created_monitor now fresh server_id monitor =
      let doc = apply_monitor_defaults (record monitor {
        id = if monitor.id == "" then fresh else monitor.id;
        server_id = server_id;
      }) in
      record doc { created_at = now; updated_at = now; last_status_change_at = now }

  unfoldable pub create_monitor : ℕ → String → String → Monitor → Action Monitor
  unfolding get_server validate_group_ids created_monitor
  create_monitor now fresh server_id monitor =
      get_server server_id then (λ _. validate_group_ids monitor.group_ids) then (λ _.
        let doc = created_monitor now fresh server_id monitor in
        on_monitors (monitors_coll.insert_one doc) then λ _. done_with doc)

  unfoldable pub updated_monitor : String → String → Monitor → Monitor → ℕ → Monitor
  updated_monitor server_id monitor_id monitor existing now =
      apply_monitor_defaults (record monitor {
        id = monitor_id;
        server_id = server_id;
        created_at = existing.created_at;
        status = value_or monitor.status existing.status;
        last_check_at = existing.last_check_at;
        last_status_change_at = existing.last_status_change_at;
        certificate = existing.certificate;
        updated_at = now;
      })

  unfoldable pub update_monitor : ℕ → String → String → Monitor → Action Monitor
  unfolding get_monitor validate_group_ids is_monitor updated_monitor
  update_monitor now server_id monitor_id monitor =
      get_monitor server_id monitor_id then λ existing.
      validate_group_ids monitor.group_ids then λ _.
      let doc = updated_monitor server_id monitor_id monitor existing now in
      on_monitors (monitors_coll.update_one (is_monitor server_id monitor_id) (λ _. doc)) then λ n.
      matched_or_missing n doc

  unfoldable pub delete_monitor : String → String → Action ℕ
  unfolding is_monitor result_of_monitor
  delete_monitor server_id monitor_id =
      (on_monitors (monitors_coll.delete_one (is_monitor server_id monitor_id)) then λ n.
      matched_or_missing n tt)
      then (λ _. on_results (results_coll.delete_many (result_of_monitor server_id monitor_id)))
