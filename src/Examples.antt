-- ===== src/Examples.antt =====
-- The theorems at concrete inputs, and tests of the definitions. Data holds the inputs.
mod Data
mod Operations
mod Renewal
mod Monitors
mod Manager
mod Lists
mod Inventory
mod Names
mod Desired
mod Api
mod Config
mod Uptime
