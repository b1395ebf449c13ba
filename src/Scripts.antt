-- ===== src/Scripts.antt =====
-- internal/scripts: what a script body expands to and how it is run.
mod Samples
pub mod Quote
pub mod Run
pub mod Expansion
pub mod Depth
