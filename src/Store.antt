-- ===== src/Store.antt =====
-- The configuration store: internal/store/store.go and its in-memory implementation, memory.go.
pub mod Types
pub mod Memory
