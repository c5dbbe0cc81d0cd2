-- ===== src/Graph.antt =====
-- The selected graph (packages/core/src/features/composition-semantics).
pub mod Queue
pub mod Components
pub mod Residual
pub mod Closure
pub mod Marks
pub mod Reachability
pub mod RootClosure
pub mod Examples
pub mod Selected
