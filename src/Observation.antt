-- ===== src/Observation.antt =====
-- The observation store (packages/observation/src/features/store).
pub mod Engine
pub mod Depth
pub mod Index
pub mod Writes
pub mod IndexedFlushes
pub mod Reach
pub mod Effects
pub mod WrittenKeys
pub mod Patches
pub mod Sets
pub mod Refusals
pub mod Watches
pub mod Delivery
pub mod Flushes
pub mod Loads
pub mod LoadStates
pub mod Departures
pub mod Subscriptions
pub mod Current
pub mod Examples
mod LoadExamples
