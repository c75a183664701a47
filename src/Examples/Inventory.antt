-- ===== src/Examples/Inventory.antt =====
-- Deletions on collections in memory.
use neo_line.Prelude.{◌≡◌, refl, false, none, [], ◌∷◌, ok}
use neo_line.Mongo.{memory}
use neo_line.Mongo.Documents.{update_all, delete_first, delete_all}
use neo_line.Inventory.State.{
  Inventory, InventoryDatabase, CertificateAccessToken, ◌then◌, continue,
}
use neo_line.Inventory.Servers.{
  delete_server, on_server, result_of_server, event_of, token_of, unassigned, is_server,
  delete_certificate_access_tokens_by_server, remove_server_from_managed_certificates,
}
use neo_line.Inventory.Groups.{
  delete_monitor_group, delete_notify_group, in_group, out_of_group, is_group, is_notify_group,
  alerts, without_alerts, notifies, without_notices,
}
use neo_line.Inventory.Gone.{
  Gone, ServerGone, NotifyGroupGone, delete_server-ServerGone, delete_group-unreferenced,
}
use neo_line.Examples.Data.{server, monitor, group, receivers, certificate}

abbrev pub all_in_memory : InventoryDatabase
unfolding memory
all_in_memory = record {
  servers_coll = memory (λ a b. false);
  monitors_coll = memory (λ a b. false);
  results_coll = memory (λ a b. false);
  events_coll = memory (λ a b. false);
  tokens_coll = memory (λ a b. false);
  groups_coll = memory (λ a b. false);
  notify_groups_coll = memory (λ a b. false);
  certificates_coll = memory (λ a b. false);
}

abbrev pub token : CertificateAccessToken
token = record {
  id = "cat_1";
  server_id = "srv_1";
  name = "edge";
  token_hash = "";
  prefix = "nlct_";
  created_at = 0;
  last_used_at = none;
  expires_at = none;
}

abbrev pub inventory : Inventory
inventory = record {
  servers = server ∷ [];
  monitors = monitor ∷ [];
  results = [];
  events = [];
  tokens = token ∷ [];
  groups = group ∷ [];
  notify_groups = receivers ∷ [];
  certificates = (record certificate { server_ids = "srv_1" ∷ [] }) ∷ [];
}

abbrev without_server : Inventory
without_server = record inventory {
  servers = [];
  monitors = [];
  tokens = [];
  certificates = certificate ∷ [];
}

server_deleted : delete_server all_in_memory "srv_1" inventory ≡ (without_server, ok 1)
unfolding delete_server ◌then◌ continue memory update_all delete_all delete_first is_server
    on_server result_of_server event_of token_of unassigned
    delete_certificate_access_tokens_by_server remove_server_from_managed_certificates
server_deleted = refl

delete_server-ServerGone_example : ServerGone "srv_1" without_server
delete_server-ServerGone_example =
    delete_server-ServerGone all_in_memory "srv_1" inventory without_server 1 server_deleted

abbrev without_group : Inventory
without_group = record inventory {
  groups = [];
  monitors = (record monitor { group_ids = [] }) ∷ [];
}

abbrev without_receivers : Inventory
without_receivers = record without_group {
  notify_groups = [];
  certificates = (record certificate { server_ids = "srv_1" ∷ []; notify_group_ids = [] }) ∷ [];
}

group_deleted : delete_monitor_group all_in_memory "grp_1" inventory ≡ (without_group, ok 1)
unfolding delete_monitor_group ◌then◌ continue memory update_all delete_first is_group in_group
    out_of_group
group_deleted = refl

receivers_deleted :
    delete_notify_group all_in_memory "ntf_1" without_group ≡ (without_receivers, ok 1)
unfolding delete_notify_group ◌then◌ continue memory update_all delete_first is_notify_group alerts
    without_alerts notifies without_notices
receivers_deleted = refl

delete_group-unreferenced_example :
    Gone (in_group "grp_1") without_group.monitors × NotifyGroupGone "ntf_1" without_receivers
delete_group-unreferenced_example =
    delete_group-unreferenced all_in_memory "grp_1" "ntf_1" inventory without_group without_group
      without_receivers 1 1 group_deleted receivers_deleted
