-- ===== src/Tests.antt =====
-- The theorems applied at concrete inputs.
mod Storage
mod Updates
mod Household
mod Jobs
mod Managers
mod Torrents
mod Staged
mod Requests
mod Watches
mod Lookups
mod Streams
mod Shows
