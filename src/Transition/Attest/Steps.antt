-- ===== src/Transition/Attest/Steps.antt =====
-- The loop of ProcessAttestations as a step relation: an attestation is ignored, recorded as a
-- vote, or completes a supermajority and justifies its target.
use gean.Base.{
  All, ◌*◌, ◌≤◌, ◌<◌, ◌≡◌, List, [], ◌∷◌, true, false, ◌&&◌, inl, inr, arith, ltb, Bool-cases,
  length, get_or, same_bytes_iff,
}
use gean.Types.Containers.{Attestation, State, Primitives}
use gean.Types.Slot.{is_justifiable_after}
use gean.Transition.Bitlist.{bitlist_len, get_bit}
use gean.Transition.Attest.{
  Tally, count_votes, votes_for, skips, recorded, record_vote, justify, apply_attestation,
  attestations_loop,
}

-- The vote counts: its source is a justified block of the history, its target a later block of the
-- history that is justifiable and not yet justified, and its validator is registered and has not
-- voted for that target before.
pub record Counts (p : Primitives) (s : State) (t : Tally) (a : Attestation) : Type 0 where
  pub later : a.att_data.source.slot < a.att_data.target.slot
  pub source_within : a.att_data.source.slot < bitlist_len t.justified_slots
  pub source_marked : get_bit t.justified_slots a.att_data.source.slot ≡ true
  pub target_open :
      (ltb a.att_data.target.slot (bitlist_len t.justified_slots)
        && get_bit t.justified_slots a.att_data.target.slot)
      ≡ false
  pub source_in_history : a.att_data.source.slot < length s.historical_block_hashes
  pub source_known :
      get_or s.historical_block_hashes a.att_data.source.slot [] ≡ a.att_data.source.root
  pub target_in_history : a.att_data.target.slot < length s.historical_block_hashes
  pub target_known :
      get_or s.historical_block_hashes a.att_data.target.slot [] ≡ a.att_data.target.root
  pub justifiable :
      is_justifiable_after p.float_sqrt a.att_data.target.slot s.latest_finalized.slot ≡ true
  pub member : a.validator_id < length s.validators
  pub fresh : get_or (votes_for p s t a.att_data.target.root) a.validator_id false ≡ false

module _ (p : Primitives) (s : State) where
  module _ (t : Tally) (a : Attestation) where
    skips-Counts : skips p s t a ≡ false → Counts p s t a
    unfolding skips
    skips-Counts h = ground (
      arith,
      same_bytes_iff (get_or s.historical_block_hashes a.att_data.source.slot [])
          a.att_data.source.root,
      same_bytes_iff (get_or s.historical_block_hashes a.att_data.target.slot [])
          a.att_data.target.root,
    )

    Counts-skips : Counts p s t a → skips p s t a ≡ false
    unfolding skips
    Counts-skips c = ground (
      arith,
      same_bytes_iff (get_or s.historical_block_hashes a.att_data.source.slot [])
          a.att_data.source.root,
      same_bytes_iff (get_or s.historical_block_hashes a.att_data.target.slot [])
          a.att_data.target.root,
    )

  pub data Step (t : Tally) (a : Attestation) : Tally → Type 0 where
    ignored : skips p s t a ≡ true → Step t a t
    voted :
        Counts p s t a
        → 3 * count_votes (recorded p s t a) < 2 * length s.validators
        → Step t a (record_vote p s t a)
    justified :
        Counts p s t a
        → 2 * length s.validators ≤ 3 * count_votes (recorded p s t a)
        → Step t a (justify p s t a)

  -- The loop body makes one step.
  pub apply_attestation-Step : (t : Tally) (a : Attestation) → Step t a (apply_attestation p s t a)
  unfolding apply_attestation
  apply_attestation-Step t a = elim (Bool-cases (skips p s t a)) [
    | inl e ↦ rw e (ignored e)
    | inr e ↦
        let n = length s.validators in
        elim (Bool-cases (ltb (3 * count_votes (recorded p s t a)) (2 * n))) [
          | inl few ↦ rw (e, few) (voted (skips-Counts t a e) (ground arith))
          | inr many ↦ rw (e, many) (justified (skips-Counts t a e) (ground arith))
        ]
  ]

  -- What each step keeps, the loop keeps.
  pub loop_induction {ℓ} :
      (P : Tally → Type ℓ)
      → ((t : Tally) (a : Attestation) (u : Tally) → Step t a u → P t → P u)
      → (t : Tally) (atts : List Attestation) → P t
      → P (attestations_loop p s t atts)
  unfolding attestations_loop
  loop_induction P keep t [] h = h
  loop_induction P keep t (a ∷ atts) h =
      loop_induction P keep (apply_attestation p s t a) atts
        (keep t a _ (apply_attestation-Step t a) h)

  -- The same for a property that needs a fact about each attestation.
  pub loop_induction_all {ℓ κ} :
      (P : Tally → Type ℓ) (Q : Attestation → Type κ)
      → ((t : Tally) (a : Attestation) (u : Tally) → Q a → Step t a u → P t → P u)
      → (t : Tally) (atts : List Attestation) → All Q atts
      → P t
      → P (attestations_loop p s t atts)
  unfolding attestations_loop
  loop_induction_all P Q keep t [] q h = h
  loop_induction_all P Q keep t (a ∷ atts) q h =
      loop_induction_all P Q keep (apply_attestation p s t a) atts q.1
        (keep t a _ q.0 (apply_attestation-Step t a) h)
