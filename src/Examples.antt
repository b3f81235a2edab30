-- ===== src/Examples.antt =====
-- Runs of the definitions on small inputs, by component.
pub mod Graphs
pub mod Families
pub mod Closures
pub mod Verification
pub mod Completions
pub mod Dates
pub mod Queries
pub mod Deadlines
pub mod Envelopes
pub mod Explanations
