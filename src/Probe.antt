-- ===== src/Probe.antt =====
-- internal/probe: one check of a monitor. Types, Codes and Kinds hold the definitions and Run the loop
-- of the attempts; Window is about what the window of a certificate leads to.
pub mod Types
pub mod Codes
pub mod Kinds
pub mod Run
pub mod Window
