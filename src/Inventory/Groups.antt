-- ===== src/Inventory/Groups.antt =====
-- The writes of monitor groups and notify groups: internal/store/groups.go and notify_groups.go.
use neo_line.Prelude.{ℕ, Bool, String, ◌==◌, List, invalid_notify_group_ids, if◌then◌else◌}
use neo_line.Certificates.Types.{ManagedCertificate}
use neo_line.Monitoring.Types.{Monitor, MonitorGroup, NotifyGroup}
use neo_line.Inventory.State.{
  InventoryDatabase, Action, on_monitors, on_groups, on_notify_groups, on_certificates, reading,
  done_with, named, matched_or_missing, ◌then◌, pull, names,
}
use neo_line.Inventory.Servers.{check_ids}

unfoldable pub is_group : String → MonitorGroup → Bool
is_group id g = g.id == id

unfoldable pub is_notify_group : String → NotifyGroup → Bool
is_notify_group id g = g.id == id

unfoldable pub in_group : String → Monitor → Bool
in_group id m = names id m.group_ids

unfoldable pub out_of_group : String → Monitor → Monitor
out_of_group id m = record m { group_ids = pull id m.group_ids }

unfoldable pub alerts : String → MonitorGroup → Bool
alerts id g = names id g.alert_policy.notify_group_ids

unfoldable pub without_alerts : String → MonitorGroup → MonitorGroup
without_alerts id g = record g {
  alert_policy = record g.alert_policy {
    notify_group_ids = pull id g.alert_policy.notify_group_ids;
  };
}

unfoldable pub notifies : String → ManagedCertificate → Bool
notifies id c = names id c.notify_group_ids

unfoldable pub without_notices : String → ManagedCertificate → ManagedCertificate
without_notices id c = record c { notify_group_ids = pull id c.notify_group_ids }

module _ (db : InventoryDatabase) where
  open db use {monitors_coll, groups_coll, notify_groups_coll, certificates_coll}

  unfoldable pub validate_notify_group_ids : List String → Action (Unit {0})
  unfolding check_ids
  validate_notify_group_ids ids = reading (λ s.
      check_ids (λ xs. notify_groups_coll.count_documents (λ g. names g.id xs) s.notify_groups)
        invalid_notify_group_ids ids)

  unfoldable pub get_monitor_group : String → Action MonitorGroup
  unfolding is_group
  get_monitor_group id = reading (λ s. groups_coll.find_one (is_group id) s.groups)

  unfoldable pub create_monitor_group : ℕ → String → MonitorGroup → Action MonitorGroup
  unfolding validate_notify_group_ids
  create_monitor_group now fresh group =
      validate_notify_group_ids group.alert_policy.notify_group_ids then λ _.
      let doc = record group {
        id = if group.id == "" then fresh else group.id;
        created_at = now;
        updated_at = now;
      } in
      named (on_groups (groups_coll.insert_one doc)) then λ _. done_with doc

  unfoldable pub update_monitor_group : ℕ → String → MonitorGroup → Action MonitorGroup
  unfolding validate_notify_group_ids get_monitor_group is_group
  update_monitor_group now id group =
      validate_notify_group_ids group.alert_policy.notify_group_ids then λ _.
      get_monitor_group id then λ existing.
      let doc = record group { id = id; created_at = existing.created_at; updated_at = now } in
      named (on_groups (groups_coll.update_one (is_group id) (λ _. doc))) then λ _. done_with doc

  unfoldable pub delete_monitor_group : String → Action ℕ
  unfolding is_group in_group out_of_group
  delete_monitor_group id =
      (on_groups (groups_coll.delete_one (is_group id)) then λ n. matched_or_missing n tt)
      then (λ _. on_monitors (monitors_coll.update_many (in_group id) (out_of_group id)))

  unfoldable pub get_notify_group : String → Action NotifyGroup
  unfolding is_notify_group
  get_notify_group id =
      reading (λ s. notify_groups_coll.find_one (is_notify_group id) s.notify_groups)

  unfoldable pub create_notify_group : ℕ → String → NotifyGroup → Action NotifyGroup
  create_notify_group now fresh group =
      let doc = record group {
        id = if group.id == "" then fresh else group.id;
        created_at = now;
        updated_at = now;
      } in
      named (on_notify_groups (notify_groups_coll.insert_one doc)) then λ _. done_with doc

  unfoldable pub update_notify_group : ℕ → String → NotifyGroup → Action NotifyGroup
  unfolding get_notify_group is_notify_group
  update_notify_group now id group = get_notify_group id then λ existing.
      let doc = record group { id = id; created_at = existing.created_at; updated_at = now } in
      named (on_notify_groups (notify_groups_coll.update_one (is_notify_group id) (λ _. doc)))
      then λ _. done_with doc

  unfoldable pub delete_notify_group : String → Action ℕ
  unfolding is_notify_group alerts without_alerts notifies without_notices
  delete_notify_group id =
      (on_notify_groups (notify_groups_coll.delete_one (is_notify_group id)) then λ n.
      matched_or_missing n tt)
      then (λ _. on_groups (groups_coll.update_many (alerts id) (without_alerts id)))
      then (λ _. on_certificates (certificates_coll.update_many (notifies id) (without_notices id)))
