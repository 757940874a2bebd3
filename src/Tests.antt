-- ===== src/Tests.antt =====
-- Runs of the model on concrete inputs, and the theorems at concrete data.
mod Hosts
mod Sessions
mod Accounts
mod Batches
mod Rounds
mod Services
mod HostKeys
mod Clients
mod Paths
mod Wire
mod Answers
