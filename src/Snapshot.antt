-- ===== src/Snapshot.antt =====
-- internal/snapshot: `Types` has its structs, `Delta` the computing and applying of deltas,
-- `Builder` the building of a snapshot from the configuration store.
pub mod Types
pub mod Delta
pub mod Builder
