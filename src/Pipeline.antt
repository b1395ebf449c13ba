-- ===== src/Pipeline.antt =====
-- internal/orchestrator/pipeline.go and orchestrator.go: the phases of install and update, as runs that record what they
-- do to the project.
pub mod Locked
pub mod Effects
pub mod Warnings
pub mod CacheKey
pub mod Resolving
pub mod Phases
pub mod Full
pub mod Traces
pub mod Quiet
pub mod QuietStart
pub mod Order
pub mod LockLast
pub mod Extracted
pub mod Installed
pub mod Pruning
pub mod Answers
pub mod Fetched
pub mod Evaluation
mod Samples
