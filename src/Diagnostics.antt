-- ===== src/Diagnostics.antt =====
-- Diagnostics (packages/core/src/features/diagnostics and authoring).
pub mod Types
pub mod Ranks
pub mod Signs
pub mod Order
pub mod Collector
pub mod Linear
pub mod Exact
pub mod Orders
pub mod Total
pub mod Swaps
pub mod Heap
pub mod Counting
pub mod Contents
pub mod Examples
