-- ===== src/Api.antt =====
-- The messages of the remote interface, internal/connectapi.
pub mod Convert
pub mod Unforged
pub mod Groups
