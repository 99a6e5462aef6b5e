-- ===== src/State.antt =====
-- src/state: the last-write-wins value and the store.
pub mod Crdt
pub mod Store
pub mod Snapshot
