-- ===== src/Transition/Header/Checks.antt =====
-- When ProcessBlockHeader accepts a block.
use gean.Base.{◌∙◌, ap, sym, ◌%◌, ◌<◌, ◌≡◌, ap, ◌↔◌, arith, length, same_bytes_iff, ok}
use gean.Types.Containers.{Block, State, Primitives}
use gean.Transition.Slots.{is_proposer}
use gean.Transition.Header.{apply_header, process_block_header}

-- The checks that a block must pass against the state.
pub record Accepts (p : Primitives) (s : State) (b : Block) : Type 0 where
  pub at_slot : b.slot ≡ s.slot
  pub newer : s.latest_block_header.slot < b.slot
  pub some_validators : 0 < length s.validators
  pub proposes : s.slot % length s.validators ≡ b.proposer_index
  pub child : b.parent_root ≡ p.header_root s.latest_block_header

module _ (p : Primitives) (s : State) (b : Block) where
  accepts : Accepts p s b → process_block_header p s b ≡ ok (apply_header p s b)
  unfolding process_block_header is_proposer
  accepts a = ground (arith, same_bytes_iff b.parent_root (p.header_root s.latest_block_header))

  accepted :
      (t : State) → process_block_header p s b ≡ ok t → Accepts p s b × (t ≡ apply_header p s b)
  unfolding process_block_header is_proposer
  accepted t e = ground (arith, same_bytes_iff b.parent_root (p.header_root s.latest_block_header))

-- The header is accepted exactly when the block is of the state's slot, newer than the latest
-- header, proposed by the validator whose turn it is, and a child of the latest header; the
-- state that results is then that of `apply_header`.
pub process_block_header_iff :
    (p : Primitives) (s : State) (b : Block) (t : State)
    → (process_block_header p s b ≡ ok t) ↔ (Accepts p s b × (t ≡ apply_header p s b))
process_block_header_iff p s b t = (accepted p s b t, λ (a, e). accepts p s b a ∙ ap ok (sym e))
