-- ===== src/Resolver.antt =====
-- internal/resolver: the version solver.
pub mod Term
pub mod Incompatibility
pub mod Solution
pub mod Propagate
pub mod Conflict
pub mod Versions
pub mod Decide
pub mod Solve
pub mod Exactness
pub mod Meaning
pub mod Resolution
pub mod Levels
pub mod Classify
pub mod Propagation
pub mod Firing
pub mod Termination
pub mod Walk
pub mod Choosing
pub mod Requirements
pub mod Fresh
pub mod Answer
pub mod Divergence
pub mod Candidates
pub mod Result
pub mod Collected
pub mod Shares
pub mod Render
pub mod Missing
pub mod Dependees
pub mod Reached
pub mod PlatformNames
pub mod Stabilities
mod Samples
