-- ===== src/Composition.antt =====
-- Composition semantics (packages/core/src/features/composition-semantics).
pub mod Wire
pub mod Declarations
pub mod Profiles
pub mod BindingRecord
pub mod Bindings
pub mod Resources
pub mod Analysis
pub mod UniqueIndex
pub mod PlanOrder
pub mod BindingSpec
pub mod BindingSilence
pub mod RowGroup
pub mod EdgeCount
pub mod GraphSound
pub mod Accepted
mod Inputs
pub mod Examples
