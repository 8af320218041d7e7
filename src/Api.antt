-- ===== src/Api.antt =====
-- internal/api/server.go: the HTTP handlers.
pub mod Frames
pub mod Types
pub mod Pages
pub mod Changes
pub mod Projects
pub mod SdkKeys
pub mod Flags
pub mod Segments
pub mod Sessions
pub mod Reports
pub mod Delivery
pub mod Routes
