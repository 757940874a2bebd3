-- ===== src/FileWatcher.antt =====
-- src/ssftp/filewatcher.go: which files of the staging directory are ready, and where a scanned
-- file is moved.
pub mod Types
pub mod Upload
pub mod Ready
pub mod Scavenge
pub mod Move
pub mod Moved
pub mod Destination
pub mod Frame
