-- ===== src/ForkChoice/Produce.antt =====
-- chain/forkchoice/produce.go: vote targets, and the production of blocks and attestations. A call
-- gives the new store and how it ended. The signer takes a slot and a message root.
pub mod Target
pub mod Collect
pub mod Accepted
use gean.Base.{
  ℕ, zero, suc, ◌+◌, ◌*◌, ◌%◌, ◌^◌, List, [], ◌∷◌, ◌++◌, Bool, true, not, ◌||◌, Option, none, some,
  ltb, ◌==◌, if◌then◌else◌, same_bytes, take, replicate, length, map, Run, ok, err, panic, ◌>>=◌,
  not_proposer, head_state_missing, head_block_missing, target_missing, hash_failed, sign_failed,
}
use gean.Types.Containers.{
  Root, zero_hash, Checkpoint, AttestationData, Attestation, SignedAttestation, Block,
  SignedBlockWithAttestation, State, Primitives, seconds_per_slot, justification_lookback,
  xmss_signature_size,
}
use gean.Types.Slot.{u64_mod, is_justifiable_after}
use gean.Storage.{Storage, get_block, get_state, put_block, put_signed_block, put_state}
use gean.Transition.Slots.{is_proposer, process_slots}
use gean.Transition.Block.{process_block}
use gean.ForkChoice.Ghost.{AttestationMap}
use gean.ForkChoice.Store.{Store, contains_attestation}
use gean.ForkChoice.Time.{advance_time, accept_new_attestations}

-- `GetProposalHead` up to its result, which is the new store's head.
unfoldable pub at_slot : Store → ℕ → Store
at_slot c slot =
    accept_new_attestations
      (advance_time c ((c.genesis_time + slot * seconds_per_slot) % u64_mod) true)

-- The loop that walks back while the safe target is older.
unfoldable pub look_back : ℕ → Storage → Option Block → Root → Root
look_back zero m safe root = root
look_back (suc k) m none root = look_back k m none root
look_back (suc k) m (some safe) root = elim (get_block m root) [
  | none ↦ look_back k m (some safe) root
  | some b ↦ look_back k m (some safe) (if ltb safe.slot b.slot then b.parent_root else root)
]

-- `sqrt` is that of `isqrt`. Slots fall towards the parents, so that `slot + 1` rounds suffice.
unfoldable pub to_justifiable : (ℕ → ℕ) → ℕ → Storage → ℕ → Root → Root
to_justifiable sqrt zero m finalized root = root
to_justifiable sqrt (suc k) m finalized root = elim (get_block m root) [
  | none ↦ root
  | some b ↦
      if is_justifiable_after sqrt b.slot finalized
      then root
      else to_justifiable sqrt k m finalized b.parent_root
]

-- The rounds that the second loop needs from a root.
unfoldable pub rounds_from : Storage → Root → ℕ
rounds_from m root = elim (get_block m root) [ none ↦ 1 | some b ↦ suc b.slot ]

-- `copy` into an array of the signature's size.
unfoldable pub fit : List ℕ → List ℕ
fit sig = take xmss_signature_size (sig ++ replicate xmss_signature_size 0)

-- The attestations of a body, and the signed votes that they come from.
pub record Collected : Type 0 where
  pub attestations : List Attestation
  pub signed : List SignedAttestation

-- One round over the known votes: those that the body lacks and that start from the post-state's
-- justified checkpoint.
unfoldable pub pick : Storage → State → List Attestation → AttestationMap → Collected
pick m post atts [] = record { attestations = []; signed = [] }
pick m post atts ((id, sa) ∷ known) =
    let more = pick m post atts known in
    let att : Attestation = record { validator_id = sa.validator_id; att_data = sa.message } in
    elim (get_block m sa.message.head.root) [
      | none ↦ more
      | some _ ↦
          if not (same_bytes sa.message.source.root post.latest_justified.root)
            || not (sa.message.source.slot == post.latest_justified.slot)
          then more
          else if contains_attestation atts att
          then more
          else record { attestations = att ∷ more.attestations; signed = sa ∷ more.signed }
    ]

unfoldable pub candidate : ℕ → ℕ → Root → Root → List Attestation → Block
candidate slot index parent state_root atts = record {
  slot = slot;
  proposer_index = index;
  parent_root = parent;
  state_root = state_root;
  body = record { attestations = atts };
}

module _ (p : Primitives) where
  unfoldable pub get_vote_target : Store → Run Checkpoint
  get_vote_target c =
      let back =
        look_back justification_lookback c.storage (get_block c.storage c.safe_target) c.head in
      let root =
        to_justifiable p.float_sqrt (rounds_from c.storage back) c.storage c.latest_finalized.slot
          back in
      elim (get_block c.storage root) [
        | none ↦ err target_missing
        | some b ↦ ok (record { root = p.block_root b; slot = b.slot })
      ]

  -- The fixed point. Each round but the last adds a known vote, so that one round more than there
  -- are known votes suffices.
  unfoldable pub collect : ℕ → Store → State → ℕ → ℕ → Collected → Run Collected
  collect zero c advanced slot index acc = ok acc
  collect (suc k) c advanced slot index acc =
      process_block p advanced (candidate slot index c.head zero_hash acc.attestations) >>= λ post.
      let new = pick c.storage post acc.attestations c.latest_known_attestations in
      elim new.attestations [
        | [] ↦ ok acc
        | _ ∷ _ ↦ collect k c advanced slot index (record {
          attestations = acc.attestations ++ new.attestations;
          signed = acc.signed ++ new.signed;
        })
      ]

  module _ (sign : ℕ → Root → Option (List ℕ)) where
    -- `att.HashTreeRoot` and `signer.Sign`.
    unfoldable pub signature_of : Attestation → Run (List ℕ)
    signature_of att = elim (p.attestation_root att) [
      | none ↦ err hash_failed
      | some root ↦ elim (sign (att.att_data.slot % 2 ^ 32) root) [
        | none ↦ err sign_failed
        | some sig ↦ ok (fit sig)
      ]
    ]

    -- The proposer's own vote for the block it produced.
    unfoldable pub proposer_vote : Store → ℕ → ℕ → Root → Checkpoint → Attestation
    proposer_vote c slot index hash target = record {
      validator_id = index;
      att_data = record {
        slot = slot;
        head = record { root = hash; slot = slot };
        target = target;
        source = c.latest_justified;
      };
    }

    -- From the advanced store on: the envelope and the post-state of its block.
    unfoldable pub build_block : Store → ℕ → ℕ → Run (SignedBlockWithAttestation × State)
    build_block c slot index = elim (get_state c.storage c.head) [
      | none ↦ err head_state_missing
      | some head_state ↦ process_slots p head_state slot >>= λ advanced.
          collect (suc (length c.latest_known_attestations)) c advanced slot index
            (record { attestations = []; signed = [] })
          >>= λ body.
              process_block p advanced (candidate slot index c.head zero_hash body.attestations)
              >>= λ final.
                  let block = candidate slot index c.head (p.state_root final) body.attestations in
                  get_vote_target c >>= λ target.
                  let att = proposer_vote c slot index (p.block_root block) target in
                  signature_of att >>= λ sig. ok (
                    record {
                      message = record { block = block; proposer_attestation = some att };
                      signature =
                          map (λ (sa : SignedAttestation). sa.signature) body.signed ++ sig ∷ [];
                    },
                    final,
                  )
    ]

    unfoldable pub store_produced : Store → SignedBlockWithAttestation → State → Store
    store_produced c envelope final =
        let hash = p.block_root envelope.message.block in
        record c {
          storage =
              put_state
                (put_signed_block (put_block c.storage hash envelope.message.block) hash envelope)
                hash final;
        }

    -- The end of the call: where the block was built, the three calls of the storage.
    unfoldable pub finish_block :
        Store → Run (SignedBlockWithAttestation × State) → Store × Run SignedBlockWithAttestation
    finish_block c panic = (c, panic)
    finish_block c (err e) = (c, err e)
    finish_block c (ok (envelope, final)) = (store_produced c envelope final, ok envelope)

    -- The first check: the rest of the call runs where the validator is the proposer.
    unfoldable pub if_proposer :
        Store
        → Run Bool
        → Store × Run SignedBlockWithAttestation
        → Store × Run SignedBlockWithAttestation
    if_proposer c panic rest = (c, panic)
    if_proposer c (err e) rest = (c, err e)
    if_proposer c (ok proposes) rest = if not proposes then (c, err not_proposer) else rest

    unfoldable pub produce_block : Store → ℕ → ℕ → Store × Run SignedBlockWithAttestation
    produce_block c₀ slot index =
        let c = at_slot c₀ slot in
        if_proposer c₀ (is_proposer index slot c₀.num_validators)
          (finish_block c (build_block c slot index))

    unfoldable pub produce_attestation : Store → ℕ → ℕ → Store × Run SignedAttestation
    produce_attestation c₀ slot index =
        let c = at_slot c₀ slot in
        let vote : Run SignedAttestation = elim (get_block c.storage c.head) [
          | none ↦ err head_block_missing
          | some head_block ↦ get_vote_target c >>= λ target.
              let att_data : AttestationData = record {
                slot = slot;
                head = record { root = c.head; slot = head_block.slot };
                target = target;
                source = c.latest_justified;
              } in
              signature_of (record { validator_id = index; att_data = att_data }) >>= λ sig.
              ok (record { validator_id = index; message = att_data; signature = sig })
        ] in
        (c, vote)
