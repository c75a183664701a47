-- ===== src/Notices.antt =====
-- The notices of the life of a certificate: internal/store/certificate_notifications.go and
-- internal/certnotify.
pub mod Records
pub mod Dispatch
pub mod Marks
pub mod Spacing
pub mod Calls
pub mod History
