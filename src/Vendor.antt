-- ===== src/Vendor.antt =====
-- internal/orchestrator/pipeline.go: the paths under vendor/ and which of them pruneVendor may remove.
pub mod Paths
pub mod Names
mod Samples
