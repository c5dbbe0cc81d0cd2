-- ===== src/Canonical.antt =====
-- Canonical JSON (packages/core/src/features/canonicalization/owned-jcs).
pub mod Values
pub mod Writing
pub mod Machine
pub mod Trees
pub mod Rounds
pub mod Refinement
pub mod Indices
pub mod Represents
pub mod Picking
pub mod Properties
pub mod Serialization
pub mod Literals
pub mod Units
pub mod RoundTrip
pub mod Examples
