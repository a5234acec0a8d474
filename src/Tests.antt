-- ===== src/Tests.antt =====
-- The theorems of the library on concrete inputs.
pub mod Documents
mod Predicates
mod Plans
mod Pipelines
mod Aggregates
mod Joins
mod Indices
mod Functions
