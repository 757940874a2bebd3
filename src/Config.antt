-- ===== src/Config.antt =====
-- src/ssftp/config.go: the configuration, the rounds of its loader, and the lookups in it. Reading
-- the file and parsing Yaml are the operating system's and github.com/goccy/go-yaml's: the loader
-- takes what each round gets from them.
pub mod Types
pub mod Validator
pub mod Valid
pub mod Accepts
pub mod Load
pub mod Loaded
pub use Types.*
