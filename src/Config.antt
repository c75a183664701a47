-- ===== src/Config.antt =====
-- The import and the export of the configuration as one document: internal/configio, and the settings
-- of internal/store/settings.go.
pub mod Types
pub mod Files
pub mod Settings
pub mod Backend
pub mod Listing
pub mod Report
pub mod Import
pub mod Servers
pub mod Export
pub mod Keeps
pub mod Kept
pub mod Tally
pub mod TallyServers
pub mod Totals
pub mod Entries
pub mod Counted
pub mod RoundTrip
pub mod Restored
pub mod Site
pub mod Merge
