-- ===== src/ForkChoice/Block.antt =====
-- chain/forkchoice/block.go: Store.ProcessBlock. Each method gives the new store and how it ended:
-- what was written before an error stays written.
pub mod Correct
use gean.Base.{
  ℕ, suc, ◌+◌, List, [], ◌∷◌, Bool, true, false, not, Option, none, some, ltb, ◌==◌, if◌then◌else◌,
  length, get_or, Run, ok, err, panic, ◌>>=◌, ◌>>◌, parent_state_missing, signature_count,
  bad_body_signature, bad_proposer_signature,
}
use gean.Types.Containers.{
  Root, Attestation, SignedAttestation, Block, SignedBlockWithAttestation, State, Primitives,
}
use gean.Storage.{Storage, get_block, get_state, put_block, put_signed_block, put_state}
use gean.Transition.Block.{state_transition}
use gean.ForkChoice.Store.{Store}
use gean.ForkChoice.Time.{update_head}
use gean.ForkChoice.Attestation.{verify_with_state, process_attestation_locked, advance_to_now}

module _ (p : Primitives) where
  -- An error of the verification, reported as that of the caller.
  unfoldable pub verified : State → Attestation → List ℕ → Run (Unit {0}) → Run (Unit {0})
  verified state att sig failure = elim (verify_with_state p state att sig) [
    | ok _ ↦ ok tt
    | err _ ↦ failure
    | panic ↦ panic
  ]

  -- The number of signatures, with and without a proposer attestation.
  unfoldable pub check_signature_count : SignedBlockWithAttestation → Run (Unit {0})
  check_signature_count envelope =
      let body = length envelope.message.block.body.attestations in
      elim envelope.message.proposer_attestation [
        | some _ ↦
            if not (length envelope.signature == body + 1) then err signature_count else ok tt
        | none ↦ if not (length envelope.signature == body) then err signature_count else ok tt
      ]

  -- The loop over the body attestations, from index `i` on.
  unfoldable pub verify_body : State → List Attestation → List (List ℕ) → ℕ → Run (Unit {0})
  verify_body state [] sigs i = ok tt
  verify_body state (att ∷ atts) sigs i =
      let rest = verify_body state atts sigs (suc i) in
      verified state att (get_or sigs i []) (err bad_body_signature) >> rest

  unfoldable pub verify_signatures : State → SignedBlockWithAttestation → Run (Unit {0})
  verify_signatures parent_state envelope =
      let atts = envelope.message.block.body.attestations in
      let proposer : Run (Unit {0}) = elim envelope.message.proposer_attestation [
        | some att ↦
            verified parent_state att (get_or envelope.signature (length atts) [])
              (err bad_proposer_signature)
        | none ↦ ok tt
      ] in
      if p.should_verify
      then verify_body parent_state atts envelope.signature 0 >> proposer
      else ok tt

  -- The checks of a block that is not known, up to the first write: the post-state.
  unfoldable pub check_block : Store → SignedBlockWithAttestation → Run State
  check_block c envelope = elim (get_state c.storage envelope.message.block.parent_root) [
    | none ↦ err parent_state_missing
    | some parent_state ↦ state_transition p parent_state envelope.message.block >>= λ state.
        check_signature_count envelope >> (verify_signatures parent_state envelope >> ok state)
  ]

  -- `c.storage.PutBlock`, `PutSignedBlock`, `PutState`, and the two checkpoints.
  unfoldable pub store_block : Store → Root → SignedBlockWithAttestation → State → Store
  store_block c hash envelope state = record c {
    storage =
        put_state (put_signed_block (put_block c.storage hash envelope.message.block) hash envelope)
          hash state;
    latest_justified =
        if ltb c.latest_justified.slot state.latest_justified.slot
        then state.latest_justified
        else c.latest_justified;
    latest_finalized =
        if ltb c.latest_finalized.slot state.latest_finalized.slot
        then state.latest_finalized
        else c.latest_finalized;
  }

  -- Step 2, from index `i` on: the body attestations as votes of the chain.
  unfoldable pub on_chain_votes : Store → List Attestation → List (List ℕ) → ℕ → Store
  on_chain_votes c [] sigs i = c
  on_chain_votes c (att ∷ atts) sigs i =
      let sa : SignedAttestation = record {
        validator_id = att.validator_id;
        message = att.att_data;
        signature = get_or sigs i [];
      } in
      on_chain_votes (process_attestation_locked p c sa true) atts sigs (suc i)

  -- Steps 2 to 4.
  unfoldable pub apply_votes : Store → SignedBlockWithAttestation → Store
  apply_votes c envelope =
      let atts = envelope.message.block.body.attestations in
      let c' = update_head (on_chain_votes c atts envelope.signature 0) in
      elim envelope.message.proposer_attestation [
        | none ↦ c'
        | some att ↦
            process_attestation_locked p c'
              (record {
                validator_id = att.validator_id;
                message = att.att_data;
                signature = get_or envelope.signature (length atts) [];
              })
              false
      ]

  unfoldable pub process_block :
      Store → Option ℕ → SignedBlockWithAttestation → Store × Run (Unit {0})
  process_block c₀ now envelope =
      let c = advance_to_now p c₀ now in
      let hash = p.block_root envelope.message.block in
      elim (get_block c.storage hash) [
        | some _ ↦ (c, ok tt)
        | none ↦ elim (check_block c envelope) [
          | err e ↦ (c, err e)
          | panic ↦ (c, panic)
          | ok state ↦ (apply_votes (store_block c hash envelope state) envelope, ok tt)
        ]
      ]
