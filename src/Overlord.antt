-- ===== src/Overlord.antt =====
-- src/ssftp/overlord.go: the loop that has the files of the staging directory scanned and moved,
-- and the SFTP clients that it makes from the configuration.
pub mod Scans
pub mod Handling
pub mod Pipeline
pub mod Refines
pub mod Changes
pub mod InForce
pub mod Homes
pub mod Batches
pub mod Placed
pub mod Posts
pub mod Rounds
pub mod Arrivals
pub mod Visited
pub mod Sent
pub mod Turns
