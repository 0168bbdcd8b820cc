-- ===== src/Tests/Produce.antt =====
-- Tests of the production of blocks and attestations.
use gean.Base.{
  err, panic, insert, ℕ, ◌≡◌, ◌⊎◌, target_missing, refl, List, [], ◌∷◌, true, Option, none, some,
  Run, ok, lookup, same_bytes, bytes_eq,
}
use gean.Types.Containers.{Root, Block, SignedBlockWithAttestation, State}
use gean.Types.Slot.{is_justifiable_after}
use gean.Storage.{get_block, get_state, get_all_blocks}
use gean.Transition.Bitlist.{append_bit, bitlist_len, put_at, grow, make_bitlist}
use gean.Transition.Bitlist.Byte.{msb_loop, test_bit, put_bit}
use gean.Transition.Slots.{
  copy, generate_genesis, process_slot, advance_slot, slots_loop, process_slots, is_proposer,
}
use gean.Transition.Header.{fill_empty, apply_header, process_block_header}
use gean.Transition.Attest.{
  skips, apply_attestation, attestations_loop, initial_tally, process_attestations,
}
use gean.Transition.Attest.Votes.{
  load_votes, insert_root, sort_roots, sorted_roots, write_roots, flatten_votes,
}
use gean.Transition.Block.{process_block}
use gean.ForkChoice.Ghost.{
  get_fork_choice_head, head_from, walk, count_votes, count_vote, climb, children_loop, children_of,
  weight_of, slot_of, better, best_child, highest_slot,
}
use gean.ForkChoice.Store.{Store, contains_attestation, ceil_div}
use gean.ForkChoice.Time.{
  advance_time, advance_loop, tick_interval, accept_new_attestations, update_safe_target,
  merge_votes,
}
use gean.ForkChoice.Produce.{
  candidate, collect, get_vote_target, look_back, to_justifiable, rounds_from, produce_block,
  at_slot, if_proposer, finish_block, build_block, pick, signature_of, proposer_vote,
}
use gean.ForkChoice.Produce.Target.{LooksBack, Skips, get_vote_target_justifiable}
use gean.ForkChoice.Produce.Accepted.{IsAccepted, produce_block-IsAccepted}
use gean.Tests.Fork.{two_blocks, two_blocks-Falls}
use gean.Tests.Data.{toy, store, genesis, checkpoint, envelope_one}

-- The head is a block above the safe target.
abbrev ahead : Store
ahead = record store {
  head = 1 ∷ 1 ∷ [];
  safe_target = 1 ∷ 0 ∷ [];
  storage = record store.storage { blocks = two_blocks };
}

get_vote_target_justifiable_example :
    (back root : Root) × LooksBack ahead.storage (1 ∷ 0 ∷ []) 3 (1 ∷ 1 ∷ []) back
    × Skips toy.float_sqrt ahead.storage ahead.latest_finalized.slot root back
    × (((b : Block) × (get_block ahead.storage root ≡ some b)
          × (is_justifiable_after toy.float_sqrt b.slot ahead.latest_finalized.slot ≡ true)
          × (get_vote_target toy ahead ≡ ok (record { root = toy.block_root b; slot = b.slot })))
        ⊎ ((get_block ahead.storage root ≡ none)
            × (get_vote_target toy ahead ≡ err target_missing)))
get_vote_target_justifiable_example = get_vote_target_justifiable toy ahead two_blocks-Falls

ahead_votes_for_safe_target : get_vote_target toy ahead ≡ ok (checkpoint 0)
unfolding get_vote_target look_back to_justifiable rounds_from get_block lookup same_bytes
    is_justifiable_after
ahead_votes_for_safe_target = refl

abbrev signer : ℕ → Root → Option (List ℕ)
signer slot root = some (11 ∷ [])

abbrev envelope_of : Run SignedBlockWithAttestation → SignedBlockWithAttestation
envelope_of (ok envelope) = envelope
envelope_of (err x) = envelope_one
envelope_of panic = envelope_one

abbrev made : SignedBlockWithAttestation
made = envelope_of (produce_block toy signer store 1 1).1

made_ends : (produce_block toy signer store 1 1).1 ≡ ok made
unfolding produce_block if_proposer finish_block build_block at_slot advance_time advance_loop
    tick_interval accept_new_attestations update_safe_target get_fork_choice_head head_from walk
    count_votes count_vote climb children_loop children_of weight_of slot_of better best_child
    highest_slot merge_votes lookup insert same_bytes get_state get_block get_all_blocks collect
    pick process_block process_slots slots_loop advance_slot process_slot copy process_block_header
    is_proposer apply_header fill_empty process_attestations initial_tally load_votes
    attestations_loop sorted_roots sort_roots insert_root flatten_votes write_roots append_bit
    bitlist_len put_at grow msb_loop test_bit put_bit generate_genesis make_bitlist get_vote_target
    look_back to_justifiable rounds_from is_justifiable_after signature_of candidate proposer_vote
    contains_attestation apply_attestation skips ceil_div
made_ends = refl

produce_block-IsAccepted_example :
    (final : State) × IsAccepted toy signer (at_slot store 1) made.message.block final
    × (get_state (produce_block toy signer store 1 1).0.storage (toy.block_root made.message.block)
        ≡ some final)
    × (get_block (produce_block toy signer store 1 1).0.storage (toy.block_root made.message.block)
        ≡ some made.message.block)
produce_block-IsAccepted_example = produce_block-IsAccepted toy signer store 1 1 made made_ends

-- A store that knows one vote, and the genesis state at slot 1.
abbrev voted : Store
voted = record store { latest_known_attestations = store.latest_new_attestations }

abbrev genesis_later : State
genesis_later = record (process_slot toy genesis) { slot = 1 }
