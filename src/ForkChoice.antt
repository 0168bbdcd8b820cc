-- ===== src/ForkChoice.antt =====
-- chain/forkchoice: the LMD GHOST store.
pub mod Ghost
pub mod Store
pub mod Time
pub mod Attestation
pub mod Block
pub mod Produce
pub mod Aggregation
