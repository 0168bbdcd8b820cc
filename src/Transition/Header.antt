-- ===== src/Transition/Header.antt =====
-- chain/statetransition/transition.go: ProcessBlockHeader.
pub mod Fill
pub mod Checks
use gean.Base.{
  ℕ, zero, suc, ◌-◌, List, [], ◌∷◌, ◌++◌, Bool, true, false, not, length, leb, ◌==◌, if◌then◌else◌,
  same_bytes, Run, ok, err, ◌>>=◌, slot_mismatch, slot_not_newer, not_proposer, parent_mismatch,
}
use gean.Types.Containers.{Root, zero_hash, Checkpoint, Block, State, Primitives}
use gean.Transition.Bitlist.{append_bit}
use gean.Transition.Slots.{copy, is_proposer}

-- The two lists that the header extends.
pub record Trail : Type 0 where
  pub hashes : List Root
  pub bits : List ℕ

-- `for i := uint64(0); i < numEmpty; i++`, with the rounds left counted.
unfoldable pub fill_empty : ℕ → Trail → Trail
fill_empty zero t = t
fill_empty (suc k) t =
    fill_empty k (record { hashes = t.hashes ++ zero_hash ∷ []; bits = append_bit t.bits false })

module _ (p : Primitives) where
  -- The part after the checks. `block.Slot` is above the header's slot here.
  unfoldable pub apply_header : State → Block → State
  unfolding copy
  apply_header state block =
      let header = state.latest_block_header in
      let out = copy state in
      let parent_root = block.parent_root in
      let first = header.slot == 0 in
      let trail = fill_empty (block.slot - header.slot - 1) (record {
        hashes = out.historical_block_hashes ++ parent_root ∷ [];
        bits = append_bit out.justified_slots first;
      }) in
      record out {
        latest_justified =
            if first
            then record { root = parent_root; slot = state.latest_justified.slot }
            else out.latest_justified;
        latest_finalized =
            if first
            then record { root = parent_root; slot = state.latest_finalized.slot }
            else out.latest_finalized;
        historical_block_hashes = trail.hashes;
        justified_slots = trail.bits;
        latest_block_header = record {
          slot = block.slot;
          proposer_index = block.proposer_index;
          parent_root = block.parent_root;
          state_root = zero_hash;
          body_root = p.body_root block.body;
        };
      }

  unfoldable pub process_block_header : State → Block → Run State
  process_block_header state block =
      if not (block.slot == state.slot)
      then err slot_mismatch
      else if leb block.slot state.latest_block_header.slot
      then err slot_not_newer
      else do
        proposes ← is_proposer block.proposer_index state.slot (length state.validators)
        if not proposes
            then err not_proposer
            else if not (same_bytes block.parent_root (p.header_root state.latest_block_header))
            then err parent_mismatch
            else ok (apply_header state block)
