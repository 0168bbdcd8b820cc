-- ===== src/Node/Duties/Once.antt =====
-- No validator of a node speaks twice in a slot.
use gean.Base.{
  ℕ, ◌≡◌, ◌≢◌, refl, sym, ap, ◌∙◌, List, [], ◌∷◌, All, All-append, Bool, true, false, Bool-cases,
  inl, inr, Option, Option-cases, none, some, lookup, nat_eq, ◌==◌, Run, ok, err, panic, >>=-eq-ok,
}
use mathlib.Core.List.{Sublistᴰ}
use gean.Types.Containers.{
  zero_hash, SignedAttestation, SignedBlockWithAttestation, State, Primitives,
}
use gean.Storage.{get_state}
use gean.Transition.Slots.{is_proposer, process_slots}
use gean.Transition.Block.{process_block}
use gean.ForkChoice.Store.{Store}
use gean.ForkChoice.Produce.{
  at_slot, candidate, collect, get_vote_target, signature_of, build_block, store_produced,
  finish_block, if_proposer, produce_block,
}
use gean.ForkChoice.Produce.Accepted.{produce_block-IsProduced}
use gean.Ssz.Codec.{ok_inj}
use gean.Node.Duties.{
  Signer, ValidatorDuties, proposed, propose_with, propose_one, propose_loop, try_propose,
  attest_loop, try_attest,
}
use gean.Node.Duties.Published.{IsVote, ids, attest_loop-IsVoting, registry-at_slot}

-- A block for the slot, of the slot's proposer.
pub record IsProposal (slot n : ℕ) (s : SignedBlockWithAttestation) : Type 0 where
  pub at_slot : s.message.block.slot ≡ slot
  pub proposer : is_proposer s.message.block.proposer_index slot n ≡ ok true

module _ (p : Primitives) where
  build_block_lem :
      (kp : Signer) (c : Store) (slot idx : ℕ) (s : SignedBlockWithAttestation) (final : State)
      → build_block p kp c slot idx ≡ ok (s, final)
      → (s.message.block.slot ≡ slot) × (s.message.block.proposer_index ≡ idx)
  unfolding build_block candidate
  build_block_lem kp c slot idx s final e = elim (Option-cases (get_state c.storage c.head)) [
    | inl missing ↦ cc (rw (missing, build_block) at e)
    | inr (state, at) ↦
        let (advanced, e₁, f₁) =
          >>=-eq-ok (process_slots p state slot) _ (rw (at, build_block) at e) in
        let (body, e₂, f₂) = >>=-eq-ok (collect p _ c advanced slot idx _) _ f₁ in
        let (last, e₃, f₃) =
          >>=-eq-ok
            (process_block p advanced (candidate slot idx c.head zero_hash body.attestations)) _
            f₂ in
        let (target, e₄, f₄) = >>=-eq-ok (get_vote_target p c) _ f₃ in
        let (sig, e₅, f₅) = >>=-eq-ok (signature_of p kp _) _ f₄ in
        let same = ok_inj _ (s, final) f₅ in
        (
          sym (ap (λ (x : SignedBlockWithAttestation × State). x.0.message.block.slot) same),
          sym (
              ap (λ (x : SignedBlockWithAttestation × State). x.0.message.block.proposer_index)
                same),
        )
  ]

  produce_block_lem :
      (kp : Signer) (c : Store) (slot idx : ℕ) (s : SignedBlockWithAttestation)
      → (produce_block p kp c slot idx).1 ≡ ok s
      → (s.message.block.slot ≡ slot) × (s.message.block.proposer_index ≡ idx)
  produce_block_lem kp c slot idx s e =
      let made = produce_block-IsProduced p kp c slot idx s e in
      build_block_lem kp (at_slot c slot) slot idx s made.final made.built

  registry-finish_block :
      (kp : Signer) (c : Store) (r : Run (SignedBlockWithAttestation × State))
      → (finish_block p kp c r).0.num_validators ≡ c.num_validators
  unfolding finish_block store_produced
  registry-finish_block kp c panic = refl
  registry-finish_block kp c (err x) = refl
  registry-finish_block kp c (ok (s, final)) = refl

  registry-produce_block :
      (kp : Signer) (c : Store) (slot idx : ℕ)
      → (produce_block p kp c slot idx).0.num_validators ≡ c.num_validators
  unfolding produce_block if_proposer
  registry-produce_block kp c slot idx = go (is_proposer idx slot c.num_validators)
    where
      rest : Store × Run SignedBlockWithAttestation
      rest = finish_block p kp (at_slot c slot) (build_block p kp (at_slot c slot) slot idx)

      go :
          (proposes : Run Bool)
          → (if_proposer p kp c proposes rest).0.num_validators ≡ c.num_validators
      go panic = refl
      go (err x) = refl
      go (ok false) = refl
      go (ok true) = registry-finish_block kp (at_slot c slot) _ ∙ registry-at_slot c slot

  -- The store after a loop, and what the loop published.
  pub record IsProposing (slot n : ℕ) (r : Store × List SignedBlockWithAttestation) : Type 0 where
    pub registry : r.0.num_validators ≡ n
    pub blocks : All (IsProposal slot n) r.1

  module _ (keys : List (ℕ × Signer)) where
    proposed-IsProposing :
        (slot n idx : ℕ) (r : Store × Run SignedBlockWithAttestation)
        (out : Store × List SignedBlockWithAttestation)
        → is_proposer idx slot n ≡ ok true
        → r.0.num_validators ≡ n
        → ((s : SignedBlockWithAttestation)
            → r.1 ≡ ok s
            → (s.message.block.slot ≡ slot) × (s.message.block.proposer_index ≡ idx))
        → proposed p r ≡ ok out
        → IsProposing slot n out
    unfolding proposed
    proposed-IsProposing slot n idx (c, panic) out h same k e = cc
    proposed-IsProposing slot n idx (c, err x) out h same k e =
        rw (sym (ok_inj _ out e)) (record { registry = same; blocks = tt })
    proposed-IsProposing slot n idx (c, ok s) out h same k e =
        let (at, id) = k s refl in
        rw (sym (ok_inj _ out e))
          (record { registry = same; blocks = (record { at_slot = at; proposer = rw id h }, tt) })

    propose_with-IsProposing :
        (o : Option Signer) (c : Store) (slot idx : ℕ)
        (out : Store × List SignedBlockWithAttestation)
        → is_proposer idx slot c.num_validators ≡ ok true
        → propose_with p o c slot idx ≡ ok out
        → IsProposing slot c.num_validators out
    unfolding propose_with
    propose_with-IsProposing none c slot idx out h e =
        rw (sym (ok_inj _ out e)) (record { registry = refl; blocks = tt })
    propose_with-IsProposing (some kp) c slot idx out h e =
        proposed-IsProposing slot c.num_validators idx (produce_block p kp c slot idx) out h
          (registry-produce_block kp c slot idx) (produce_block_lem kp c slot idx) e

    propose_one-IsProposing :
        (c : Store) (slot idx : ℕ) (out : Store × List SignedBlockWithAttestation)
        → propose_one p keys c slot idx ≡ ok out
        → IsProposing slot c.num_validators out
    unfolding propose_one
    propose_one-IsProposing c slot idx out e =
        let (proposes, h, e') = >>=-eq-ok (is_proposer idx slot c.num_validators) _ e in
        elim (Bool-cases proposes) [
          | inr other ↦
              rw (sym (ok_inj _ out (rw other at e'))) (record { registry = refl; blocks = tt })
          | inl due ↦
              propose_with-IsProposing (lookup idx keys) c slot idx out (rw due at h) (rw due at e')
        ]

    propose_loop-IsProposing :
        (slot : ℕ) (indices : List ℕ) (c : Store) (out : Store × List SignedBlockWithAttestation)
        → propose_loop p keys c slot indices ≡ ok out
        → IsProposing slot c.num_validators out
    unfolding propose_loop
    propose_loop-IsProposing slot [] c out e =
        rw (sym (ok_inj _ out e)) (record { registry = refl; blocks = tt })
    propose_loop-IsProposing slot (idx ∷ indices) c out e =
        let (first, e₁, e₂) = >>=-eq-ok (propose_one p keys c slot idx) _ e in
        let (rest, e₃, e₄) = >>=-eq-ok (propose_loop p keys first.0 slot indices) _ e₂ in
        let a = propose_one-IsProposing c slot idx first e₁ in
        let b = propose_loop-IsProposing slot indices first.0 rest e₃ in
        rw (sym (ok_inj _ out e₄)) (record {
          registry = b.registry ∙ a.registry;
          blocks =
              All-append (IsProposal slot c.num_validators) first.1 rest.1 a.blocks
                (rw a.registry at b.blocks);
        })

  pub try_propose-IsProposing :
      (v : ValidatorDuties) (c : Store) (slot : ℕ) (out : Store × List SignedBlockWithAttestation)
      → try_propose p v c slot ≡ ok out
      → IsProposing slot c.num_validators out
  unfolding try_propose
  try_propose-IsProposing v c slot out e = elim (Bool-cases (slot == 0)) [
    | inl anchor ↦
        rw (sym (ok_inj _ out (rw anchor at e))) (record { registry = refl; blocks = tt })
    | inr later ↦ propose_loop-IsProposing v.keys slot v.indices c out (rw later at e)
  ]

  -- Where TryAttest ends, every vote that it publishes is for the slot and of a validator that is not
  -- the slot's proposer, the votes are those of some of the node's validators in their order, each
  -- at most as often as it stands there, and they are the pending votes.
  pub votes-try_attest :
      (now : ℕ → Option ℕ) (v w : ValidatorDuties) (c d : Store) (slot : ℕ)
      (votes : List SignedAttestation)
      → try_attest p now v c slot ≡ ok (w, d, votes)
      → All (IsVote p slot c.num_validators) votes
        × Sublistᴰ (ids votes) v.indices
        × (w.pending_attestations ≡ votes)
  unfolding try_attest
  votes-try_attest now v w c d slot votes e =
      let (out, e₁, e₂) = >>=-eq-ok (attest_loop p now v.keys c slot v.indices) _ e in
      let voting = attest_loop-IsVoting p now v.keys slot v.indices c out e₁ in
      let same = ok_inj _ (w, d, votes) e₂ in
      let pending =
        ap (λ (x : ValidatorDuties × Store × List SignedAttestation). x.0.pending_attestations)
          same in
      let votes_same : out.1 ≡ votes =
        ap (λ (x : ValidatorDuties × Store × List SignedAttestation). x.2) same in
      (rw votes_same at voting.votes, rw votes_same at voting.in_turn, sym pending ∙ votes_same)

  no_vote_of :
      (slot n : ℕ) (s : SignedBlockWithAttestation) (votes : List SignedAttestation)
      → IsProposal slot n s
      → All (IsVote p slot n) votes
      → All (λ (sa : SignedAttestation). sa.validator_id ≢ s.message.block.proposer_index) votes
  no_vote_of slot n s [] h k = tt
  no_vote_of slot n s (sa ∷ votes) h k = (
    λ e. let other = k.0.no_proposer in let due = h.proposer in cc (rw e at other),
    no_vote_of slot n s votes h k.1,
  )

  -- No validator of a node proposes and attests in one slot: where TryPropose and TryAttest of a
  -- slot both end, on stores with the same number of validators, no vote that is published is of the
  -- proposer of a block that is published.
  pub proposers_do_not_attest :
      (now : ℕ → Option ℕ) (v w v' : ValidatorDuties) (c c' d d' : Store) (slot : ℕ)
      (blocks : List SignedBlockWithAttestation) (votes : List SignedAttestation)
      → c'.num_validators ≡ c.num_validators
      → try_propose p v c slot ≡ ok (d, blocks)
      → try_attest p now v' c' slot ≡ ok (w, d', votes)
      → All
          (λ (s : SignedBlockWithAttestation).
            All
              (λ (sa : SignedAttestation). sa.validator_id ≢ s.message.block.proposer_index)
              votes)
          blocks
  proposers_do_not_attest now v w v' c c' d d' slot blocks votes same e e' =
      let proposing = try_propose-IsProposing v c slot (d, blocks) e in
      let voting = votes-try_attest now v' w c' d' slot votes e' in
      each blocks proposing.blocks (rw same at voting.0)
    where
      each :
          (bs : List SignedBlockWithAttestation)
          → All (IsProposal slot c.num_validators) bs
          → All (IsVote p slot c.num_validators) votes
          → All
              (λ (s : SignedBlockWithAttestation).
                All
                  (λ (sa : SignedAttestation). sa.validator_id ≢ s.message.block.proposer_index)
                  votes)
              bs
      each [] h k = tt
      each (s ∷ bs) h k = (no_vote_of slot c.num_validators s votes h.0 k, each bs h.1 k)
