-- ===== src/Inventory.antt =====
-- The configuration of the monitoring: servers, monitors, monitor groups and notify groups, with what
-- refers to them in the other collections. internal/store/store.go, groups.go and notify_groups.go.
pub mod State
pub mod Servers
pub mod Groups
pub mod Gone
