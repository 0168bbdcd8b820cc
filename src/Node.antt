-- ===== src/Node.antt =====
-- node/: what a node does with its store over time.
pub mod Duties
pub mod Sync
pub mod Ticker
pub mod Genesis
