-- ===== src/Storage.antt =====
-- storage/: the append-only audit store.
pub mod Json
pub mod Models
pub mod Rehydrate
pub mod Backend
pub mod Base
pub mod Sqlite
pub mod Rows
pub mod Later
pub mod Attempts
pub mod Provenance
pub mod Recovery
pub mod SwitchJson
