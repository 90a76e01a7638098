-- ===== src/Examples.antt =====
-- The theorems at concrete inputs.
mod Requests
mod Tracking
mod Pages
mod Syncing
mod Reconciling
mod Sources
mod Setups
mod Mail
