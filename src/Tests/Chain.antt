-- ===== src/Tests/Chain.antt =====
-- Tests of the state transition.
use native.Mathlib.Omega.{arith}
use gean.Base.{◌<◌, ◌≡◌, refl, ◌⊎◌, [], ◌∷◌, ◌++◌, true, ok, same_bytes, lookup, insert, delete}
use gean.Types.Slot.{is_justifiable_after, isqrt}
use gean.Transition.Bitlist.{get_bit, append_bit, bitlist_len, put_at, set_bit, grow, make_bitlist}
use gean.Transition.Bitlist.Byte.{msb_loop, test_bit, put_bit}
use gean.Transition.Slots.{
  copy, generate_genesis, process_slot, advance_slot, slots_loop, process_slots, is_proposer,
}
use gean.Transition.Slots.Advance.{NeverZero}
use gean.Transition.Header.{fill_empty, apply_header, process_block_header}
use gean.Transition.Attest.{
  count_votes, extend_to, has_gap, votes_for, skips, recorded, record_vote, justify,
  apply_attestation, attestations_loop, initial_tally, process_attestations,
}
use gean.Transition.Attest.Votes.{
  read_votes, load_votes, insert_root, sort_roots, sorted_roots, write_votes, votes_of, write_roots,
  flatten_votes,
}
use gean.Transition.Block.{process_block, state_transition}
use gean.Transition.Block.Correct.{
  IsChild, process_slot-IsValid, state_transition_iff, Reachable, start, accept, Reachable-IsValid,
}
use gean.Transition.Valid.{IsValid, apply_header-IsValid}
use gean.Transition.Slots.Advance.{process_slots_exact}
use gean.Transition.Header.Checks.{Accepts, process_block_header_iff}
use gean.Transition.Bitlist.Append.{to_bools, to_bools-append_bit, make_bitlist-IsBitlist}
use gean.Transition.Attest.Keeps.{process_attestations_monotone}
use gean.Transition.Attest.Finality.{Finalizes, process_attestations_finality}
use gean.Tests.Data.{
  toy, validators, genesis, block_one, block_two, votes_two, state_of, state_one, state_one_later,
  before_votes, after_votes,
}

toy-NeverZero : NeverZero toy
unfolding same_bytes
toy-NeverZero s = refl

accepted_one : state_transition toy genesis block_one ≡ ok state_one
unfolding state_transition process_block process_slots slots_loop advance_slot process_slot copy
    process_block_header is_proposer apply_header fill_empty process_attestations initial_tally
    load_votes attestations_loop sorted_roots sort_roots insert_root flatten_votes write_roots
    same_bytes append_bit bitlist_len put_at grow msb_loop test_bit put_bit generate_genesis
    make_bitlist
accepted_one = refl

state_one-Reachable : Reachable toy 1000 validators state_one
state_one-Reachable = accept block_one start (omega arith) accepted_one

-- Two votes justify slot 1, and slot 0 before it is finalized.
accepted_two :
    (state_transition toy state_one block_two
      ≡ ok (state_of (state_transition toy state_one block_two)))
    × ((state_of (state_transition toy state_one block_two)).latest_justified.slot ≡ 1)
unfolding state_transition process_block process_slots slots_loop advance_slot process_slot copy
    process_block_header is_proposer apply_header fill_empty process_attestations initial_tally
    load_votes attestations_loop sorted_roots sort_roots insert_root flatten_votes write_roots
    same_bytes append_bit bitlist_len put_at grow msb_loop test_bit put_bit generate_genesis
    make_bitlist apply_attestation skips recorded record_vote votes_for justify extend_to set_bit
    get_bit has_gap is_justifiable_after isqrt count_votes read_votes write_votes votes_of lookup
    insert delete
accepted_two = (refl, refl)

Reachable-IsValid_example : IsValid (state_of (state_transition toy state_one block_two))
Reachable-IsValid_example =
    Reachable-IsValid toy 1000 validators toy-NeverZero
      (accept block_two state_one-Reachable (omega arith) accepted_two.0)

state_transition_iff_example : (IsChild toy state_one block_two)
state_transition_iff_example =
    ((state_transition_iff toy state_one block_two
        (state_of (state_transition toy state_one block_two)) toy-NeverZero (omega arith)).0
      accepted_two.0).0

before_votes-slot : 0 < before_votes.latest_block_header.slot
unfolding apply_header
before_votes-slot = omega arith

before_votes-IsValid : IsValid before_votes
unfolding same_bytes state_transition process_block process_slots slots_loop advance_slot
    process_slot copy process_block_header is_proposer apply_header fill_empty process_attestations
    initial_tally load_votes attestations_loop sorted_roots sort_roots insert_root flatten_votes
    write_roots append_bit bitlist_len put_at grow msb_loop test_bit put_bit generate_genesis
    make_bitlist
before_votes-IsValid =
    apply_header-IsValid toy state_one_later block_two
      (process_slot-IsValid toy state_one 2
        (Reachable-IsValid toy 1000 validators toy-NeverZero state_one-Reachable) (omega arith))
      refl (omega arith)

process_attestations_monotone_example : get_bit after_votes.justified_slots 0 ≡ true
unfolding same_bytes state_transition process_block process_slots slots_loop advance_slot
    process_slot copy process_block_header is_proposer apply_header fill_empty process_attestations
    initial_tally load_votes attestations_loop sorted_roots sort_roots insert_root flatten_votes
    write_roots append_bit bitlist_len put_at grow msb_loop test_bit put_bit generate_genesis
    make_bitlist get_bit
process_attestations_monotone_example =
    process_attestations_monotone toy before_votes votes_two before_votes-IsValid before_votes-slot
      0 refl

process_attestations_finality_example :
    (after_votes.latest_finalized ≡ before_votes.latest_finalized)
    ⊎ Finalizes toy before_votes.latest_finalized.slot after_votes.justified_slots
        after_votes.latest_finalized
process_attestations_finality_example =
    process_attestations_finality toy before_votes votes_two before_votes-IsValid before_votes-slot

process_slots_exact_example :
    process_slots toy genesis 5
    ≡ ok (record genesis {
      slot = 5;
      latest_block_header = record genesis.latest_block_header { state_root = 2 ∷ 0 ∷ [] };
    })
unfolding generate_genesis same_bytes
process_slots_exact_example =
    process_slots_exact toy genesis 5 toy-NeverZero (omega arith) (omega arith)

process_block_header_iff_example : Accepts toy state_one_later block_two
unfolding same_bytes state_transition process_block process_slots slots_loop advance_slot
    process_slot copy process_block_header is_proposer apply_header fill_empty process_attestations
    initial_tally load_votes attestations_loop sorted_roots sort_roots insert_root flatten_votes
    write_roots append_bit bitlist_len put_at grow msb_loop test_bit put_bit generate_genesis
    make_bitlist
process_block_header_iff_example =
    ((process_block_header_iff toy state_one_later block_two before_votes).0 refl).0

to_bools-append_bit_example :
    to_bools (append_bit (make_bitlist 7) true) ≡ to_bools (make_bitlist 7) ++ true ∷ []
to_bools-append_bit_example = to_bools-append_bit 7 (make_bitlist 7) true (make_bitlist-IsBitlist 7)
