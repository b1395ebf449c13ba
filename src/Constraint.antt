-- ===== src/Constraint.antt =====
-- internal/constraint: versions, their order, constraints and what satisfies them.
pub mod Version
pub mod Compare
pub mod Term
pub mod Expand
pub mod Parse
pub mod Ranges
pub mod Wildcards
pub mod Glue
pub mod Verbatim
pub mod Exact
pub mod Alternatives
pub mod Order
mod Samples
