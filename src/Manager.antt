-- ===== src/Manager.antt =====
-- The certificate manager, internal/certmanager. Logging and metrics keep no state of the program and
-- are left out.
pub mod Retry
pub mod Backoff
pub mod Submit
pub mod Joined
pub mod Outside
pub mod Execute
pub mod Runner
pub mod Follows
pub mod Histories
pub mod Calls
pub mod Desired
pub mod Saved
pub mod Locked
pub mod Domains
pub mod Names
pub mod Normal
pub mod Freeing
pub mod Freed
pub mod Released
