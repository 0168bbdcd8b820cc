-- ===== src/Transition.antt =====
-- chain/statetransition: the state transition function and the bitlists that it packs votes into.
pub mod Bitlist
pub mod Slots
pub mod Header
pub mod Valid
pub mod Attest
pub mod Block
