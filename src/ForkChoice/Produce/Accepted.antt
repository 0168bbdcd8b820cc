-- ===== src/ForkChoice/Produce/Accepted.antt =====
-- A produced block is one that the state transition accepts.
use gean.Base.{
  ℕ, ◌≡◌, refl, ap, subst, ◌∙◌, inl, inr, List, Bool, true, false, Option, Option-cases, some,
  same_bytes_iff, lookup-insert, bytes_eq, Run, ok, err, panic, >>=-eq-ok,
}
use gean.Types.Containers.{
  Root, zero_hash, Attestation, Block, SignedBlockWithAttestation, State, Primitives,
}
use gean.Storage.{get_block, get_state, put_block, put_signed_block, put_state}
use gean.Transition.Slots.{is_proposer, process_slots}
use gean.Transition.Header.{apply_header, process_block_header}
use gean.Transition.Block.{process_block, state_transition}
use gean.ForkChoice.Store.{Store}
use gean.ForkChoice.Produce.{
  candidate, collect, get_vote_target, signature_of, build_block, store_produced, finish_block,
  if_proposer, produce_block, at_slot,
}

-- The state root of a block is not read before the block is processed.
process_block_any_root :
    (p : Primitives) (s : State) (slot index : ℕ) (parent r r' : Root) (atts : List Attestation)
    → process_block p s (candidate slot index parent r atts)
      ≡ process_block p s (candidate slot index parent r' atts)
unfolding process_block process_block_header apply_header candidate
process_block_any_root p s slot index parent r r' atts = refl

transition_of :
    (p : Primitives) (s advanced final : State) (slot index : ℕ) (parent : Root)
    (atts : List Attestation)
    → process_slots p s slot ≡ ok advanced
    → process_block p advanced (candidate slot index parent zero_hash atts) ≡ ok final
    → state_transition p s (candidate slot index parent (p.state_root final) atts) ≡ ok final
unfolding state_transition candidate
transition_of p s advanced final slot index parent atts e f =
    let g =
      process_block_any_root p advanced slot index parent (p.state_root final) zero_hash atts ∙ f in
    rw (e, g, (same_bytes_iff (p.state_root final) (p.state_root final)).1 refl)

module _ (p : Primitives) (sign : ℕ → Root → Option (List ℕ)) where
  -- The block is accepted on the state of the store's head.
  pub record IsAccepted (c : Store) (block : Block) (final : State) : Type 0 where
    pub head_state : State
    pub at_head : get_state c.storage c.head ≡ some head_state
    pub accepted : state_transition p head_state block ≡ ok final

  build_block-IsAccepted :
      (c : Store) (slot index : ℕ) (envelope : SignedBlockWithAttestation) (final : State)
      → build_block p sign c slot index ≡ ok (envelope, final)
      → IsAccepted c envelope.message.block final
  unfolding build_block
  build_block-IsAccepted c slot index envelope final e =
      elim (Option-cases (get_state c.storage c.head)) [
        | inl missing ↦ cc (rw (missing, build_block) at e)
        | inr (s, at) ↦
            let (advanced, e₁, f₁) =
              >>=-eq-ok (process_slots p s slot) _ (rw (at, build_block) at e) in
            let (body, e₂, f₂) = >>=-eq-ok (collect p _ c advanced slot index _) _ f₁ in
            let (last, e₃, f₃) =
              >>=-eq-ok
                (process_block p advanced (candidate slot index c.head zero_hash body.attestations))
                _ f₂ in
            let (target, e₄, f₄) = >>=-eq-ok (get_vote_target p c) _ f₃ in
            let (sig, e₅, f₅) = >>=-eq-ok (signature_of p sign _) _ f₄ in
            finish s advanced last body.attestations at e₁ e₃ (ap block_of f₅) (ap state_of f₅)
      ]
    where
      block_of : Run (SignedBlockWithAttestation × State) → Block
      block_of (ok (env, s)) = env.message.block
      block_of (err x) = envelope.message.block
      block_of panic = envelope.message.block

      state_of : Run (SignedBlockWithAttestation × State) → State
      state_of (ok (env, s)) = s
      state_of (err x) = final
      state_of panic = final

      finish :
          (s advanced last : State) (atts : List Attestation)
          → get_state c.storage c.head ≡ some s
          → process_slots p s slot ≡ ok advanced
          → process_block p advanced (candidate slot index c.head zero_hash atts) ≡ ok last
          → candidate slot index c.head (p.state_root last) atts ≡ envelope.message.block
          → last ≡ final
          → IsAccepted c envelope.message.block final
      finish s advanced last atts at e₁ e₃ same_block same = record {
        head_state = s;
        at_head = at;
        accepted =
            subst (λ b. state_transition p s b ≡ ok final) same_block
              (transition_of p s advanced last slot index c.head atts e₁ e₃ ∙ ap ok same);
      }

  stored_state :
      (c : Store) (envelope : SignedBlockWithAttestation) (final : State)
      → let m = (store_produced p sign c envelope final).storage in
        (get_state m (p.block_root envelope.message.block) ≡ some final)
        × (get_block m (p.block_root envelope.message.block) ≡ some envelope.message.block)
  unfolding store_produced put_block put_signed_block put_state get_block get_state
  stored_state c envelope final =
      let hash = p.block_root envelope.message.block in
      let at = (same_bytes_iff hash hash).1 refl in
      (
        rw (lookup-insert hash hash final c.storage.states, at),
        rw (lookup-insert hash hash envelope.message.block c.storage.blocks, at),
      )

  module _ (c : Store) (slot index : ℕ) (envelope : SignedBlockWithAttestation) where
    -- Where a block is returned, it was built on the advanced store, and stored there.
    pub record IsProduced (r : Store × Run SignedBlockWithAttestation) : Type 0 where
      pub final : State
      pub built : build_block p sign (at_slot c slot) slot index ≡ ok (envelope, final)
      pub store : r.0 ≡ store_produced p sign (at_slot c slot) envelope final

    built-IsProduced :
        (made : SignedBlockWithAttestation) (final : State)
        → build_block p sign (at_slot c slot) slot index ≡ ok (made, final)
        → made ≡ envelope
        → IsProduced (store_produced p sign (at_slot c slot) made final, ok made)
    built-IsProduced made final f same = record {
      final = final;
      built = f ∙ ap (λ x. ok (x, final)) same;
      store = ap (λ x. store_produced p sign (at_slot c slot) x final) same;
    }

    finish_block-IsProduced :
        (r : Run (SignedBlockWithAttestation × State))
        → build_block p sign (at_slot c slot) slot index ≡ r
        → (finish_block p sign (at_slot c slot) r).1 ≡ ok envelope
        → IsProduced (finish_block p sign (at_slot c slot) r)
    unfolding finish_block
    finish_block-IsProduced panic f e = cc
    finish_block-IsProduced (err x) f e = cc
    finish_block-IsProduced (ok (made, final)) f e = built-IsProduced made final f (cc e)

    if_proposer-IsProduced :
        (proposes : Run Bool) (rest : Store × Run SignedBlockWithAttestation)
        → (rest.1 ≡ ok envelope → IsProduced rest)
        → (if_proposer p sign c proposes rest).1 ≡ ok envelope
        → IsProduced (if_proposer p sign c proposes rest)
    unfolding if_proposer
    if_proposer-IsProduced panic rest h e = cc
    if_proposer-IsProduced (err x) rest h e = cc
    if_proposer-IsProduced (ok false) rest h e = cc
    if_proposer-IsProduced (ok true) rest h e = h e

    pub produce_block-IsProduced :
        (produce_block p sign c slot index).1 ≡ ok envelope
        → IsProduced (produce_block p sign c slot index)
    unfolding produce_block
    produce_block-IsProduced =
        if_proposer-IsProduced (is_proposer index slot c.num_validators) _
          (finish_block-IsProduced (build_block p sign (at_slot c slot) slot index) refl)

-- The block that ProduceBlock returns is one that the state transition accepts, on the state stored
-- for the head that the store has at the block's slot; the block and the post-state of that
-- transition are then what the store holds under the block's root.
pub produce_block-IsAccepted :
    (p : Primitives) (sign : ℕ → Root → Option (List ℕ)) (c : Store) (slot index : ℕ)
    (envelope : SignedBlockWithAttestation)
    → (produce_block p sign c slot index).1 ≡ ok envelope
    → let block = envelope.message.block in
      let after = (produce_block p sign c slot index).0 in
      (final : State) × IsAccepted p sign (at_slot c slot) block final
      × (get_state after.storage (p.block_root block) ≡ some final)
      × (get_block after.storage (p.block_root block) ≡ some block)
produce_block-IsAccepted p sign c slot index envelope e =
    let made = produce_block-IsProduced p sign c slot index envelope e in
    let (at_state, at_block) = stored_state p sign (at_slot c slot) envelope made.final in
    (
      made.final,
      build_block-IsAccepted p sign (at_slot c slot) slot index envelope made.final made.built,
      rw made.store at_state,
      rw made.store at_block,
    )
