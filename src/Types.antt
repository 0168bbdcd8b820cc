-- ===== src/Types.antt =====
-- The types package: consensus containers and the slot arithmetic.
pub mod Containers
pub mod Slot
