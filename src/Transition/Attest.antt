-- ===== src/Transition/Attest.antt =====
-- chain/statetransition/process_attestations.go: votes, justification and finalization.
pub mod Votes
pub mod Steps
pub mod Keeps
pub mod Majority
pub mod Finality
use gean.Base.{
  ℕ, zero, suc, ◌+◌, ◌-◌, ◌*◌, List, [], ◌∷◌, Bool, true, false, not, ◌&&◌, ◌||◌, Option, some,
  none, length, get_or, set, replicate, ltb, leb, if◌then◌else◌, same_bytes, lookup, insert, delete,
  bytes_eq,
}
use gean.Types.Containers.{Root, Checkpoint, Attestation, State, Primitives}
use gean.Types.Slot.{is_justifiable_after}
use gean.Transition.Bitlist.{bitlist_len, get_bit, set_bit, append_bit}
use gean.Transition.Slots.{copy}
use Votes.{VoteMap, load_votes, sorted_roots, flatten_votes}

-- The variables that the loop over the attestations updates.
pub record Tally : Type 0 where
  pub votes : VoteMap
  pub justified_slots : List ℕ
  pub latest_justified : Checkpoint
  pub latest_finalized : Checkpoint

-- `for _, voted := range justifications[target.Root]`
unfoldable pub count_votes : List Bool → ℕ
count_votes [] = 0
count_votes (voted ∷ votes) = if voted then suc (count_votes votes) else count_votes votes

-- `for BitlistLen(justifiedSlots) <= tgtSlot`: each round adds a bit, so that `slot + 1` suffice.
unfoldable pub extend_to : ℕ → List ℕ → ℕ → List ℕ
extend_to zero bits slot = bits
extend_to (suc k) bits slot =
    extend_to k (if leb (bitlist_len bits) slot then append_bit bits false else bits) slot

module _ (p : Primitives) where
  -- `for s := srcSlot + 1; s < tgtSlot; s++`, with the rounds left counted.
  unfoldable pub has_gap : ℕ → ℕ → ℕ → Bool
  has_gap zero s original = false
  has_gap (suc k) s original =
      is_justifiable_after p.float_sqrt s original || has_gap k (suc s) original

  module _ (state : State) where
    -- `make([]bool, numValidators)` where the root has no votes yet.
    unfoldable pub votes_for : Tally → Root → List Bool
    votes_for t root = elim (lookup root t.votes) [
      | some votes ↦ votes
      | none ↦ replicate (length state.validators) false
    ]

    -- The checks of the loop body, in order: true where the code does `continue`.
    unfoldable pub skips : Tally → Attestation → Bool
    skips t att =
        let source = att.att_data.source in
        let target = att.att_data.target in
        let hashes = state.historical_block_hashes in
        let bits = t.justified_slots in
        if leb target.slot source.slot
        then true
        else if leb (bitlist_len bits) source.slot || not (get_bit bits source.slot)
        then true
        else if ltb target.slot (bitlist_len bits) && get_bit bits target.slot
        then true
        else if leb (length hashes) source.slot
            || not (same_bytes (get_or hashes source.slot []) source.root)
        then true
        else if leb (length hashes) target.slot
            || not (same_bytes (get_or hashes target.slot []) target.root)
        then true
        else if not (is_justifiable_after p.float_sqrt target.slot state.latest_finalized.slot)
        then true
        else if leb (length state.validators) att.validator_id
        then true
        else get_or (votes_for t target.root) att.validator_id false

    -- The votes for the target once this vote is recorded.
    unfoldable pub recorded : Tally → Attestation → List Bool
    recorded t att = set (votes_for t att.att_data.target.root) att.validator_id true

    unfoldable pub record_vote : Tally → Attestation → Tally
    record_vote t att = record t {
      votes = insert att.att_data.target.root (recorded t att) t.votes;
    }

    unfoldable pub justify : Tally → Attestation → Tally
    justify t att =
        let source = att.att_data.source in
        let target = att.att_data.target in
        record {
          votes = delete target.root (insert target.root (recorded t att) t.votes);
          justified_slots =
              set_bit (extend_to (suc target.slot) t.justified_slots target.slot) target.slot true;
          latest_justified = record { root = target.root; slot = target.slot };
          latest_finalized =
              if has_gap (target.slot - suc source.slot) (suc source.slot)
                state.latest_finalized.slot
              then t.latest_finalized
              else record { root = source.root; slot = source.slot };
        }

    -- The loop body.
    unfoldable pub apply_attestation : Tally → Attestation → Tally
    apply_attestation t att =
        if skips t att
        then t
        else if ltb (3 * count_votes (recorded t att)) (2 * length state.validators)
        then record_vote t att
        else justify t att

    unfoldable pub attestations_loop : Tally → List Attestation → Tally
    attestations_loop t [] = t
    attestations_loop t (att ∷ atts) = attestations_loop (apply_attestation t att) atts

    unfoldable pub initial_tally : Tally
    initial_tally = record {
      votes =
          load_votes state.justifications_validators (length state.validators) 0
            state.justifications_roots [];
      justified_slots = state.justified_slots;
      latest_justified = record {
        root = state.latest_justified.root;
        slot = state.latest_justified.slot;
      };
      latest_finalized = record {
        root = state.latest_finalized.root;
        slot = state.latest_finalized.slot;
      };
    }

    unfoldable pub process_attestations : List Attestation → State
    unfolding copy
    process_attestations atts =
        let t = attestations_loop initial_tally atts in
        let roots = sorted_roots t.votes in
        let out = copy state in
        record out {
          justified_slots = t.justified_slots;
          latest_justified = t.latest_justified;
          latest_finalized = t.latest_finalized;
          justifications_roots = roots;
          justifications_validators = flatten_votes roots t.votes (length state.validators);
        }
