-- ===== src/StateMap.antt =====
-- `StateMap` and `StateMapModifier` of src/statemap.rs. The definitions are in `Defs`, `Update`,
-- `Modify` and `History`; the other children prove.
pub mod Defs
pub mod Build
pub mod Freeze
pub mod Update
pub mod Modify
pub mod GetDiff
pub mod History
pub mod Sync
pub mod Lifecycle
pub mod Replicas
pub mod EarlySet
