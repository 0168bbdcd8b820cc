-- ===== src/Tests/Node.antt =====
-- Tests of the duties of a node and of its sync.
use gean.Base.{
  ℕ, ◌≡◌, ◌≢◌, refl, List, [], ◌∷◌, All, true, Option, some, ok, err, panic, lookup, insert,
  same_bytes, bytes_eq, Run,
}
use mathlib.Core.List.{Sublistᴰ}
use gean.Types.Containers.{SignedAttestation, SignedBlockWithAttestation}
use gean.Types.Slot.{is_justifiable_after}
use gean.Storage.{get_block, get_state, get_all_blocks}
use gean.Transition.Bitlist.{append_bit, bitlist_len, put_at, grow, make_bitlist}
use gean.Transition.Bitlist.Byte.{msb_loop, test_bit, put_bit}
use gean.Transition.Slots.{
  copy, generate_genesis, process_slot, advance_slot, slots_loop, process_slots, is_proposer,
}
use gean.Transition.Header.{fill_empty, apply_header, process_block_header}
use gean.Transition.Attest.{
  skips, apply_attestation, attestations_loop, initial_tally, process_attestations,
}
use gean.Transition.Attest.Votes.{
  load_votes, insert_root, sort_roots, sorted_roots, write_roots, flatten_votes,
}
use gean.Transition.Block.{process_block}
use gean.ForkChoice.Ghost.{
  get_fork_choice_head, head_from, walk, count_votes, count_vote, climb, children_loop, children_of,
  weight_of, slot_of, better, best_child, highest_slot,
}
use gean.ForkChoice.Store.{Store, contains_attestation, ceil_div}
use gean.ForkChoice.Time.{
  advance_time, advance_loop, tick_interval, accept_new_attestations, update_safe_target,
  merge_votes,
}
use gean.ForkChoice.Produce.{
  candidate, collect, get_vote_target, look_back, to_justifiable, rounds_from, produce_attestation,
  produce_block, at_slot, if_proposer, finish_block, build_block, pick, signature_of, proposer_vote,
  store_produced,
}
use gean.ForkChoice.Attestation.{
  process_attestation, process_attestation_locked, advance_to_now, validate_attestation_data,
  verify_attestation_signature, verify_with_state, record_gossip, is_newer,
}
use gean.Clock.{is_before_genesis, current_slot, current_interval}
use gean.ForkChoice.Store.{get_status}
use gean.Node.Duties.{Messages, no_messages, has_proposal, try_aggregate, on_interval}
use gean.Node.Ticker.{Node, Readings, sync_until, is_behind, sync_if_behind, on_tick}
use gean.Node.Ticker.Timely.{IsTimely, on_tick-IsTimely}
use gean.Node.Duties.{
  Signer, ValidatorDuties, proposed, propose_with, propose_one, propose_loop, try_propose, attested,
  attest_with, attest_one, attest_loop, try_attest,
}
use gean.Node.Duties.Published.{IsVote, ids}
use gean.Node.Duties.Once.{votes-try_attest, proposers_do_not_attest}
use gean.Tests.Data.{toy, store}

abbrev signer : Signer
signer slot root = some (11 ∷ [])

-- The validators 1, the proposer of slot 1, and 0.
abbrev duties : ValidatorDuties
duties = record {
  indices = 1 ∷ 0 ∷ [];
  keys = (0, signer) ∷ (1, signer) ∷ [];
  aggregates = true;
  pending_attestations = [];
}

abbrev clock : ℕ → Option ℕ
clock idx = some 1005

abbrev voting : Run (ValidatorDuties × Store × List SignedAttestation)
voting = try_attest toy clock duties store 1

abbrev voting_of :
    Run (ValidatorDuties × Store × List SignedAttestation)
    → ValidatorDuties × Store × List SignedAttestation
voting_of (ok r) = r
voting_of (err e) = (duties, store, [])
voting_of panic = (duties, store, [])

abbrev voted : ValidatorDuties × Store × List SignedAttestation
voted = voting_of voting

voting_ends : voting ≡ ok voted
unfolding try_attest attest_loop attest_one attest_with attested produce_attestation at_slot
    advance_time advance_loop tick_interval accept_new_attestations update_safe_target
    get_fork_choice_head head_from walk count_votes count_vote climb children_loop children_of
    weight_of slot_of better best_child highest_slot merge_votes lookup insert same_bytes get_state
    get_block get_all_blocks is_proposer get_vote_target look_back to_justifiable rounds_from
    is_justifiable_after signature_of ceil_div process_attestation process_attestation_locked
    advance_to_now validate_attestation_data verify_attestation_signature verify_with_state
    record_gossip is_newer generate_genesis
voting_ends = refl

-- The proposer does not vote.
votes-try_attest_example :
    All (IsVote toy 1 3) voted.2
    × Sublistᴰ (ids voted.2) (1 ∷ 0 ∷ [])
    × (voted.0.pending_attestations ≡ voted.2)
votes-try_attest_example =
    votes-try_attest toy clock duties voted.0 store voted.1 1 voted.2 voting_ends

abbrev proposing_of :
    Run (Store × List SignedBlockWithAttestation) → Store × List SignedBlockWithAttestation
proposing_of (ok r) = r
proposing_of (err e) = (store, [])
proposing_of panic = (store, [])

abbrev proposing : Store × List SignedBlockWithAttestation
proposing = proposing_of (try_propose toy duties store 1)

proposing_ends : try_propose toy duties store 1 ≡ ok proposing
unfolding try_propose propose_loop propose_one propose_with proposed at_slot advance_time
    advance_loop tick_interval accept_new_attestations update_safe_target get_fork_choice_head
    head_from walk count_votes count_vote climb children_loop children_of weight_of slot_of better
    best_child highest_slot merge_votes lookup insert same_bytes get_state get_block get_all_blocks
    is_proposer get_vote_target look_back to_justifiable rounds_from is_justifiable_after
    signature_of ceil_div produce_block if_proposer finish_block build_block collect pick
    process_block process_slots slots_loop advance_slot process_slot copy process_block_header
    apply_header fill_empty process_attestations initial_tally load_votes attestations_loop
    sorted_roots sort_roots insert_root flatten_votes write_roots append_bit bitlist_len put_at grow
    msb_loop test_bit put_bit generate_genesis make_bitlist candidate proposer_vote
    contains_attestation apply_attestation skips store_produced
proposing_ends = refl

proposers_do_not_attest_example :
    All
      (λ (s : SignedBlockWithAttestation).
        All (λ (sa : SignedAttestation). sa.validator_id ≢ s.message.block.proposer_index) voted.2)
      proposing.1
proposers_do_not_attest_example =
    proposers_do_not_attest toy clock duties voted.0 duties store store proposing.0 voted.1 1
      proposing.1 voted.2 refl proposing_ends voting_ends

-- A tick at the second interval of slot 1.
abbrev node : Node
node = record { fc = store; clock = record { genesis_time = 1000 }; validator = duties }

abbrev readings : Readings
readings = record { genesis = 1005; slot = 1005; interval = 1005; time = 1005 }

abbrev tick_of : Run (Node × Messages) → Node × Messages
tick_of (ok r) = r
tick_of (err e) = (node, no_messages)
tick_of panic = (node, no_messages)

abbrev ticked : Node × Messages
ticked = tick_of (on_tick toy clock node [] readings)

tick_ends : on_tick toy clock node [] readings ≡ ok ticked
unfolding on_tick sync_if_behind sync_until is_behind on_interval is_before_genesis current_slot
    current_interval has_proposal get_status try_propose try_aggregate propose_loop try_attest
    attest_loop attest_one attest_with attested produce_attestation at_slot advance_time
    advance_loop tick_interval accept_new_attestations update_safe_target get_fork_choice_head
    head_from walk count_votes count_vote climb children_loop children_of weight_of slot_of better
    best_child highest_slot merge_votes lookup insert same_bytes get_state get_block get_all_blocks
    is_proposer get_vote_target look_back to_justifiable rounds_from is_justifiable_after
    signature_of ceil_div process_attestation process_attestation_locked advance_to_now
    validate_attestation_data verify_attestation_signature verify_with_state record_gossip is_newer
    generate_genesis
tick_ends = refl

on_tick-IsTimely_example :
    IsTimely 1 1 ticked.1
    × (is_before_genesis (record { genesis_time = 1000 }) 1005 ≡ true → ticked.1 ≡ no_messages)
unfolding current_slot current_interval
on_tick-IsTimely_example = on_tick-IsTimely toy clock node ticked.0 [] readings ticked.1 tick_ends
