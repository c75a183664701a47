-- ===== src/Examples/Api.antt =====
-- Updates by the messages of a client, on collections in memory.
use neo_line.Prelude.{◌≡◌, refl, some, [], ◌∷◌, ok, first, is_blank}
use neo_line.Mongo.{memory}
use neo_line.Mongo.Documents.{update_first}
use neo_line.Monitoring.Types.{Server, Monitor}
use neo_line.Monitoring.Status.{apply_monitor_defaults, value_or}
use neo_line.Inventory.State.{Inventory, ◌then◌, continue}
use neo_line.Inventory.Servers.{
  is_server, is_monitor, update_server, updated_server, update_monitor, updated_monitor, get_server,
  get_monitor, validate_group_ids, check_ids, distinct,
}
use neo_line.Api.Convert.{
  ServerMessage, MonitorMessage, server_to_proto, server_from_proto, monitor_to_proto,
  monitor_from_proto, time_to_ts, cert_to_proto,
}
use neo_line.Api.Unforged.{SameServer, SameMonitor, update_server-unforged, update_monitor-unforged}
use neo_line.Examples.Data.{server, monitor}
use neo_line.Examples.Inventory.{all_in_memory, inventory}

-- A message that says that the server is healthy.
abbrev forged_server : ServerMessage
unfolding server_to_proto
forged_server = record (server_to_proto server) {
  name = "edge 2";
  health_status = "Healthy";
  last_check_at = some 9;
}

abbrev saved_server : Server
saved_server = record server { name = "edge 2"; updated_at = 500 }

abbrev server_saved : Inventory
server_saved = record inventory { servers = saved_server ∷ [] }

server_update :
    update_server all_in_memory 500 "srv_1" (server_from_proto (some forged_server)) inventory
    ≡ (server_saved, ok saved_server)
unfolding update_server ◌then◌ continue get_server updated_server server_from_proto value_or
    is_server memory update_first time_to_ts forged_server
server_update = refl

update_server-unforged_example :
    (existing : Server) × (first (is_server "srv_1") inventory.servers ≡ some existing)
    × SameServer existing saved_server
    × (server_saved.servers
        ≡ update_first (is_server "srv_1") (λ _. saved_server) inventory.servers)
update_server-unforged_example =
    update_server-unforged all_in_memory 500 "srv_1" (some forged_server) inventory server_saved
      saved_server server_update

abbrev forged_monitor : MonitorMessage
unfolding monitor_to_proto
forged_monitor = record (monitor_to_proto monitor) {
  name = "web 2";
  status = "Healthy";
  last_check_at = some 9;
}

abbrev saved_monitor : Monitor
saved_monitor = record monitor { name = "web 2"; updated_at = 500 }

abbrev monitor_saved : Inventory
monitor_saved = record inventory { monitors = saved_monitor ∷ [] }

monitor_update :
    update_monitor all_in_memory 500 "srv_1" "mon_1"
      (monitor_from_proto (some forged_monitor))
      inventory
    ≡ (monitor_saved, ok saved_monitor)
unfolding update_monitor ◌then◌ continue get_monitor validate_group_ids check_ids distinct
    updated_monitor monitor_from_proto value_or apply_monitor_defaults is_monitor memory
    update_first time_to_ts cert_to_proto forged_monitor is_blank
monitor_update = refl

update_monitor-unforged_example :
    (existing : Monitor) × (first (is_monitor "srv_1" "mon_1") inventory.monitors ≡ some existing)
    × SameMonitor existing saved_monitor
    × (monitor_saved.monitors
        ≡ update_first (is_monitor "srv_1" "mon_1") (λ _. saved_monitor) inventory.monitors)
update_monitor-unforged_example =
    update_monitor-unforged all_in_memory 500 "srv_1" "mon_1" (some forged_monitor) inventory
      monitor_saved saved_monitor monitor_update
