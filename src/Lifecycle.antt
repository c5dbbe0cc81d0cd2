-- ===== src/Lifecycle.antt =====
-- The lifecycle kernel (packages/lifecycle-kernel): its operations, the invariant of its counters, and
-- what holds over histories of calls.
pub mod Kernel
pub mod Trace
pub mod Counts
pub mod Theorems
pub mod Phases
pub mod Revocation
pub mod Drain
pub mod Refusals
mod Examples
