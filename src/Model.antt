-- ===== src/Model.antt =====
-- internal/model: flags, segments, contexts and reasons. `Types` has the structs, `Validate` the
-- validators of flags and segments, and `Validate/Laws` what they accept.
pub mod Types
pub mod Validate
