-- ===== src/Checks.antt =====
-- Concrete runs: a runtime, flags, segments and snapshots, and the theorems at them.
pub mod Fixtures
pub mod Evaluation
pub mod Serving
pub mod Traces
pub mod Segments
pub mod Components
pub mod State
pub mod Requests
pub mod Clients
pub mod Connections
pub mod Fanout
pub mod Building
pub mod Sessions
