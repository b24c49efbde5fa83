-- ===== src/Evaluator.antt =====
-- The evaluation of task evidence: src/verification-providers/verification-evaluator.ts.
pub mod Types
pub mod Globs
pub mod Digest
pub mod Facts
pub mod Evaluate
pub mod Meaning
pub mod Pieces
pub mod Rules
mod Tests
