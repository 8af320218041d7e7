-- ===== src/Eval.antt =====
-- internal/eval: `Runtime` has what the package takes from Go's libraries, `Operators`, `Bucket`,
-- `Clauses`, `Evaluate` and `Explain` its files, and their children what they guarantee.
pub mod Runtime
pub mod Operators
pub mod Bucket
pub mod Clauses
pub mod Evaluate
pub mod Explain
