-- ===== src/Documents.antt =====
-- Input admission (packages/core/src/features/input-admission): the scan of a raw document.
pub mod Types
pub mod Frames
pub mod Scan
pub mod Charges
pub mod Counters
pub mod Total
pub mod Grammar
pub mod Accepts
pub mod Steps
pub mod Keys
pub mod Members
pub mod Elements
pub mod Rounds
pub mod Language
pub mod Identities
mod Examples
pub mod Paths
pub mod Integers
