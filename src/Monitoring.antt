-- ===== src/Monitoring.antt =====
-- Servers, monitors and their health: internal/store/store.go and internal/store/runtime.go.
pub mod Types
pub mod Status
pub mod Health
pub mod Store
pub mod Saved
pub mod Pages
pub mod Tokens
pub mod Paging
pub mod Uptime
pub mod Counting
