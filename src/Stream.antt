-- ===== src/Stream.antt =====
-- internal/stream: `Types` has its structs, `Ring` the replay buffer, `Hub` the fan-out.
pub mod Types
pub mod Ring
pub mod Hub
