-- ===== src/Certificates.antt =====
-- Managed certificates and their operations.
pub mod Types
pub mod Store
pub mod Operations
pub mod Lease
pub mod Versions
pub mod Advances
pub mod Preserve
pub mod Life
pub mod Deletion
pub mod Commands
pub mod History
pub mod Unique
pub mod Inversion
pub mod Claims
pub mod Txt
