-- ===== src/Tests/Fork.antt =====
-- Tests of the fork choice and of the slot rule.
use gean.Base.{
  ℕ, zero, suc, ◌+◌, ◌-◌, ◌*◌, ◌^◌, ◌≤◌, ◌<◌, ◌≡◌, refl, sym, ◌↔◌, ◌⊎◌, bytes_eq, nat_eq, inl, inr,
  [], ◌∷◌, true, false, arith, Bool-cases, none, some, ok, err, parent_state_missing, lookup,
  insert, same_bytes, same_bytes_iff, Distinct,
}
use mathlib.Core.List.Perm
use gean.Types.Containers.{Root, Block, SignedBlockWithAttestation}
use gean.Types.Slot.{
  is_justifiable_after, is_justifiable_after_iff, is_justifiable_after_wraps, IsJustifiable,
  IsClose,
}
use gean.Transition.Slots.{generate_genesis}
use gean.Storage.{new_storage, get_block, get_state, put_block, put_signed_block, put_state}
use gean.ForkChoice.Ghost.{
  BlockMap, Weights, AttestationMap, weight_of, count_votes, get_fork_choice_head,
}
use gean.ForkChoice.Ghost.Votes.{Falls, Counted, count_votes-Counted}
use gean.ForkChoice.Ghost.Greedy.{GhostPath}
use gean.ForkChoice.Ghost.Path.{get_fork_choice_head-GhostPath, get_fork_choice_head_order}
use gean.ForkChoice.Store.{new_store}
use gean.ForkChoice.Time.{
  advance_time, advance_loop, tick_interval, update_safe_target, accept_new_attestations,
}
use gean.ForkChoice.Time.Ticks.{time-advance_time}
use gean.ForkChoice.Attestation.{
  validate_attestation_data, process_attestation_locked, advance_to_now,
}
use gean.ForkChoice.Attestation.Rules.{
  IsSound, IsTaken, Advances, validate_attestation_data_iff, process_attestation_gossip,
  process_attestation_on_chain,
}
use gean.ForkChoice.Block.{process_block, check_block}
use gean.ForkChoice.Block.Correct.{
  Extends, process_block-Extends, process_block_atomic, process_block_stored,
}
use gean.Clock.{current_slot, current_interval, clock_agrees}
use gean.Tests.Data.{
  toy, toy_sqrt, root_from, genesis, anchor, block, store, envelope_one, block_one, vote, signed,
}

root_from_floor :
    (n k : ℕ)
    → (root_from n k * root_from n k ≤ n)
      × ((n < (root_from n k + 1) * (root_from n k + 1)) ⊎ (root_from n k ≡ k))
root_from_floor n zero = (omega arith, inr refl)
root_from_floor n (suc k) = ground (arith, root_from_floor n k)

toy_sqrt-IsClose : IsClose toy_sqrt
toy_sqrt-IsClose n h pos = grind (arith, root_from_floor n n)

is_justifiable_after_iff_example : is_justifiable_after toy_sqrt 20 8 ≡ true
is_justifiable_after_iff_example =
    (is_justifiable_after_iff toy_sqrt 20 8 toy_sqrt-IsClose (omega arith)).1
      (omega arith, inr (inr (3, refl)))

is_justifiable_after_wraps_example :
    let slot = 7 + (2 ^ 32 - 1) * (2 ^ 32 - 1) in
    (is_justifiable_after (λ n. 2 ^ 32 - 1) slot 7 ≡ false) × IsJustifiable slot 7
is_justifiable_after_wraps_example = is_justifiable_after_wraps (λ n. 2 ^ 32 - 1) 7 refl

-- The anchor and the first block.
abbrev pub two_blocks : BlockMap
two_blocks = (1 ∷ 0 ∷ [], anchor) ∷ (1 ∷ 1 ∷ [], block_one) ∷ []

abbrev reversed : BlockMap
reversed = (1 ∷ 1 ∷ [], block_one) ∷ (1 ∷ 0 ∷ [], anchor) ∷ []

abbrev votes : AttestationMap
votes = (0, signed (vote 0 1 0 1) []) ∷ (1, signed (vote 1 1 0 0) []) ∷ []

abbrev swapped : AttestationMap
swapped = (1, signed (vote 1 1 0 0) []) ∷ (0, signed (vote 0 1 0 1) []) ∷ []

pub two_blocks-Falls : Falls two_blocks
unfolding lookup same_bytes
two_blocks-Falls h b c e f = elim (Bool-cases (same_bytes (1 ∷ 0 ∷ []) h)) [
  | inl at ↦ let it : anchor ≡ b = cc (rw at at e) in cc (rw (sym it) at f)
  | inr other ↦ elim (Bool-cases (same_bytes (1 ∷ 1 ∷ []) h)) [
    | inl at ↦
        let it : block_one ≡ b = cc (rw (other, at) at e) in
        let parent : anchor ≡ c = cc (rw (sym it) at f) in rw (sym it, sym parent) (omega arith)
    | inr none_left ↦ cc (rw (other, none_left) at e)
  ]
]

two_blocks-Distinct : Distinct two_blocks
unfolding lookup same_bytes
two_blocks-Distinct = (refl, (refl, tt))

reversed-Distinct : Distinct reversed
unfolding lookup same_bytes
reversed-Distinct = (refl, (refl, tt))

same_lookup : (h : Root) → lookup h two_blocks ≡ lookup h reversed
unfolding lookup same_bytes
same_lookup h = elim (Bool-cases (same_bytes (1 ∷ 0 ∷ []) h)) [
  | inl a ↦ rw (sym ((same_bytes_iff (1 ∷ 0 ∷ []) h).0 a))
  | inr b ↦ rw b
]

get_fork_choice_head-GhostPath_example :
    (w : Weights) × ((h : Root) → Counted two_blocks 0 h votes (weight_of w h))
    × GhostPath two_blocks w 0 (1 ∷ 0 ∷ []) (get_fork_choice_head two_blocks (1 ∷ 0 ∷ []) votes 0)
unfolding lookup same_bytes
get_fork_choice_head-GhostPath_example =
    get_fork_choice_head-GhostPath two_blocks (1 ∷ 0 ∷ []) anchor votes 0 two_blocks-Distinct
      two_blocks-Falls (λ e. cc) refl

get_fork_choice_head_order_example :
    get_fork_choice_head two_blocks (1 ∷ 0 ∷ []) votes 0
    ≡ get_fork_choice_head reversed (1 ∷ 0 ∷ []) swapped 0
unfolding lookup same_bytes
get_fork_choice_head_order_example =
    get_fork_choice_head_order two_blocks reversed (1 ∷ 0 ∷ []) anchor votes swapped 0
      two_blocks-Distinct reversed-Distinct two_blocks-Falls same_lookup (Perm.swap _ _ _) (λ e. cc)
      refl

count_votes-Counted_example :
    Counted two_blocks 0
      (1 ∷ 1 ∷ [])
      votes
      (weight_of (count_votes two_blocks 0 votes []) (1 ∷ 1 ∷ []))
count_votes-Counted_example = count_votes-Counted two_blocks 0 (1 ∷ 1 ∷ []) two_blocks-Falls votes

new_store_starts :
    new_store toy genesis anchor new_storage ≡ ok (record store { latest_new_attestations = [] })
unfolding new_store new_storage put_block put_signed_block put_state insert same_bytes
    generate_genesis
new_store_starts = refl

-- A block whose parent is not stored.
abbrev orphan : SignedBlockWithAttestation
orphan = record envelope_one {
  message = record { block = block 9 0 8 []; proposer_attestation = none };
}

process_block-Extends_example : Extends store (process_block toy store none envelope_one).0
process_block-Extends_example = process_block-Extends toy store none envelope_one

process_block_stored_example : ((process_block toy store none envelope_one).1 ≡ ok tt) ↔ (
    (b : Block) × (get_block (process_block toy store none envelope_one).0.storage (1 ∷ 1 ∷ [])
      ≡ some b))
process_block_stored_example = process_block_stored toy store none envelope_one

orphan_refused : (process_block toy store (some 1005) orphan).1 ≡ err parent_state_missing
unfolding process_block advance_to_now advance_time advance_loop tick_interval get_block lookup
    same_bytes check_block get_state update_safe_target accept_new_attestations
orphan_refused = refl

process_block_atomic_example :
    (process_block toy store (some 1005) orphan).0 ≡ advance_to_now toy store (some 1005)
process_block_atomic_example =
    process_block_atomic toy store (some 1005) orphan (λ e. cc (e, orphan_refused))

validate_attestation_data_iff_example : IsSound store (vote 1 1 0 0).att_data
unfolding validate_attestation_data get_block lookup same_bytes
validate_attestation_data_iff_example =
    (validate_attestation_data_iff store (vote 1 1 0 0).att_data).0 refl

process_attestation_gossip_example :
    (IsTaken toy store (signed (vote 2 0 0 0) (12 ∷ []))
      → process_attestation_locked toy store (signed (vote 2 0 0 0) (12 ∷ [])) false
        ≡ record store {
          latest_new_attestations =
              insert 2 (signed (vote 2 0 0 0) (12 ∷ [])) store.latest_new_attestations;
        })
    × (¬ IsTaken toy store (signed (vote 2 0 0 0) (12 ∷ []))
        → process_attestation_locked toy store (signed (vote 2 0 0 0) (12 ∷ [])) false ≡ store)
process_attestation_gossip_example =
    process_attestation_gossip toy store (signed (vote 2 0 0 0) (12 ∷ []))

process_attestation_on_chain_example :
    let sa = signed (vote 1 1 0 0) (11 ∷ []) in
    let after = (process_attestation_locked toy store sa true).latest_known_attestations in
    ((id : ℕ) → Advances (lookup id store.latest_known_attestations) (lookup id after))
    × (IsSound store sa.message → Advances (some sa) (lookup 1 after))
process_attestation_on_chain_example =
    process_attestation_on_chain toy store (signed (vote 1 1 0 0) (11 ∷ []))

time-advance_time_example : (advance_time store 1009 true).time ≡ 9
time-advance_time_example = time-advance_time store 1009 true (omega arith)

clock_agrees_example :
    ((advance_time store 1010 false).time ≡ 10)
    × (current_interval (record { genesis_time = 1000 }) 1010 < 4)
unfolding current_slot current_interval
clock_agrees_example =
    clock_agrees (record { genesis_time = 1000 }) store 1010 false (omega arith) refl (omega arith)
      (omega arith)
