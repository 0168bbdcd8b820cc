-- ===== src/Transition/Slots.antt =====
-- chain/statetransition/proposer.go, genesis.go and the slot half of transition.go, with
-- `State.Copy` of types/state.go.
pub mod Advance
use gean.Base.{
  ℕ, zero, suc, ◌+◌, ◌-◌, ◌%◌, List, [], ◌∷◌, Bool, length, ltb, leb, ◌==◌, if◌then◌else◌,
  same_bytes, Run, ok, err, panic, slot_not_after,
}
use gean.Types.Containers.{
  Root, zero_hash, Checkpoint, Config, Validator, BlockHeader, BlockBody, State, Primitives,
}
use gean.Types.Slot.{u64_mod}

-- A deep copy: the copy has the value of each field, and shares no memory with the original.
unfoldable pub copy : State → State
copy s = record {
  config = record { genesis_time = s.config.genesis_time };
  slot = s.slot;
  latest_block_header = s.latest_block_header;
  latest_justified = record { root = s.latest_justified.root; slot = s.latest_justified.slot };
  latest_finalized = record { root = s.latest_finalized.root; slot = s.latest_finalized.slot };
  historical_block_hashes = s.historical_block_hashes;
  justified_slots = s.justified_slots;
  validators = s.validators;
  justifications_roots = s.justifications_roots;
  justifications_validators = s.justifications_validators;
}

-- Go's `%` by zero would panic; the code panics before.
unfoldable pub is_proposer : ℕ → ℕ → ℕ → Run Bool
is_proposer validator_index slot num_validators =
    if num_validators == 0 then panic else ok (slot % num_validators == validator_index)

module _ (p : Primitives) where
  unfoldable pub generate_genesis : ℕ → List Validator → State
  generate_genesis genesis_time validators = record {
    config = record { genesis_time = genesis_time };
    slot = 0;
    latest_block_header = record {
      slot = 0;
      proposer_index = 0;
      parent_root = zero_hash;
      state_root = zero_hash;
      body_root = p.body_root (record { attestations = [] });
    };
    latest_justified = record { root = zero_hash; slot = 0 };
    latest_finalized = record { root = zero_hash; slot = 0 };
    historical_block_hashes = [];
    justified_slots = 1 ∷ [];
    validators = validators;
    justifications_roots = [];
    justifications_validators = 1 ∷ [];
  }

  unfoldable pub process_slot : State → State
  unfolding copy
  process_slot state =
      let header = state.latest_block_header in
      let out = copy state in
      if same_bytes header.state_root zero_hash
      then record out { latest_block_header = record header { state_root = p.state_root state } }
      else state

  -- One round of the loop of ProcessSlots.
  unfoldable pub advance_slot : State → State
  unfolding copy
  advance_slot s =
      let s' = process_slot s in let out = copy s' in record out { slot = (s'.slot + 1) % u64_mod }

  -- `for s.Slot < targetSlot`, with the rounds left counted.
  unfoldable pub slots_loop : ℕ → State → ℕ → State
  slots_loop zero s target = s
  slots_loop (suc k) s target =
      let rest = slots_loop k (advance_slot s) target in if ltb s.slot target then rest else s

  unfoldable pub process_slots : State → ℕ → Run State
  process_slots state target =
      if leb target state.slot
      then err slot_not_after
      else ok (slots_loop (target - state.slot) state target)
