-- ===== src/Tests/Sync.antt =====
-- Tests of the sync of a node with its peers.
use gean.Base.{
  ℕ, ◌≡◌, refl, List, [], ◌∷◌, Option, none, some, Run, ok, err, panic, lookup, insert, same_bytes,
  bytes_eq, no_response,
}
use gean.Types.Containers.{Root}
use gean.ForkChoice.Store.{Store}
use gean.ForkChoice.Block.{
  process_block, check_block, check_signature_count, verify_signatures, verify_body, store_block,
  apply_votes, on_chain_votes,
}
use gean.ForkChoice.Block.Correct.{Extends}
use gean.Storage.{get_block, get_state, get_all_blocks}
use gean.Transition.Bitlist.{append_bit, bitlist_len, put_at, grow, make_bitlist}
use gean.Transition.Bitlist.Byte.{msb_loop, test_bit, put_bit}
use gean.Transition.Slots.{
  copy, generate_genesis, process_slot, advance_slot, slots_loop, process_slots, is_proposer,
}
use gean.Transition.Header.{fill_empty, apply_header, process_block_header}
use gean.Transition.Attest.{initial_tally, attestations_loop, process_attestations}
use gean.Transition.Attest.Votes.{
  load_votes, insert_root, sort_roots, sorted_roots, write_roots, flatten_votes,
}
use gean.Transition.Block.{state_transition}
use gean.ForkChoice.Ghost.{
  get_fork_choice_head, head_from, count_votes, count_vote, climb, children_loop, children_of,
  weight_of, slot_of, better, best_child, highest_slot,
}
use gean.ForkChoice.Store.{get_status, ceil_div}
use gean.ForkChoice.Time.{
  advance_time, advance_loop, tick_interval, accept_new_attestations, update_safe_target,
  update_head, merge_votes,
}
use gean.ForkChoice.Attestation.{advance_to_now}
use gean.Network.ReqResp.{Answer}
use gean.Node.Sync.{
  Peer, first_block, walk, counted, process_pending, our_status, sync_with_peer, initial_sync,
}
use gean.Node.Sync.Safe.{initial_sync-Extends}
use gean.Tests.Data.{toy, store, checkpoint, envelope_one}

abbrev clock : ℕ → Option ℕ
clock older = some 1005

-- One peer does not answer, and one has the first block.
abbrev silent_peer : Peer
silent_peer = record {
  status = λ s. err no_response;
  blocks_by_root = λ roots. record { blocks = []; failure = some no_response };
}

abbrev ask : List Root → Answer
ask roots = record { blocks = envelope_one ∷ []; failure = none }

abbrev ahead_peer : Peer
ahead_peer = record {
  status = λ s. ok (record { finalized = checkpoint 0; head = checkpoint 1 });
  blocks_by_root = ask;
}

abbrev store_of : Run Store → Store
store_of (ok d) = d
store_of (err e) = store
store_of panic = store

abbrev synced : Store
synced = store_of (initial_sync toy clock (silent_peer ∷ ahead_peer ∷ []) store)

sync_ends : initial_sync toy clock (silent_peer ∷ ahead_peer ∷ []) store ≡ ok synced
unfolding initial_sync sync_with_peer our_status process_pending walk first_block counted
    process_block check_block check_signature_count verify_signatures verify_body store_block
    apply_votes on_chain_votes advance_to_now advance_time advance_loop tick_interval
    accept_new_attestations update_safe_target update_head merge_votes get_fork_choice_head
    head_from gean.ForkChoice.Ghost.walk count_votes count_vote climb children_loop children_of
    weight_of slot_of better best_child highest_slot lookup insert same_bytes get_state get_block
    get_all_blocks state_transition gean.Transition.Block.process_block process_slots slots_loop
    advance_slot process_slot copy process_block_header is_proposer apply_header fill_empty
    process_attestations initial_tally load_votes attestations_loop sorted_roots sort_roots
    insert_root flatten_votes write_roots append_bit bitlist_len put_at grow msb_loop test_bit
    put_bit generate_genesis make_bitlist get_status ceil_div
sync_ends = refl

initial_sync-Extends_example : Extends store synced
initial_sync-Extends_example =
    initial_sync-Extends toy clock (silent_peer ∷ ahead_peer ∷ []) store synced sync_ends
