-- ===== src/Tests.antt =====
-- The theorems at concrete inputs, and test runs.
mod Wire
mod Answers
mod Caches
mod Stores
mod Settings
mod Creation
mod Servers
mod Clients
mod Denials
mod Daemons
