-- ===== src/Tests.antt =====
-- Tests on small concrete inputs.
pub mod Data
pub mod Chain
pub mod Fork
pub mod Produce
pub mod Aggregation
pub mod Registry
pub mod Wire
pub mod Network
pub mod Node
pub mod Sync
