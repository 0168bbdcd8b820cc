-- ===== src/ForkChoice/Block/Correct.antt =====
-- What ProcessBlock does to the stored blocks and to the checkpoints.
use gean.Base.{
  Run-cases, ℕ, suc, ◌≤◌, ◌≡◌, ◌≢◌, ◌↔◌, refl, ap, ◌∙◌, inl, inr, List, [], ◌∷◌, true, false, arith,
  Bool-cases, Option, Option-cases, none, some, lookup-insert, bytes_eq, same_bytes, same_bytes_iff,
  Run, ok, err, panic, get_or,
}
use gean.Types.Containers.{
  Root, Checkpoint, Attestation, SignedAttestation, Block, SignedBlockWithAttestation, State,
  Primitives,
}
use gean.Storage.{get_block, put_block, put_signed_block, put_state}
use gean.ForkChoice.Store.{Store}
use gean.ForkChoice.Time.{update_head}
use gean.ForkChoice.Time.Ticks.{SameChain, SameChain-refl, SameChain-trans}
use gean.ForkChoice.Attestation.{process_attestation_locked, advance_to_now}
use gean.ForkChoice.Attestation.Rules.{
  process_attestation_locked-SameChain, advance_to_now-SameChain,
}
use gean.ForkChoice.Block.{check_block, store_block, on_chain_votes, apply_votes, process_block}

update_head-SameChain : (c : Store) → SameChain c (update_head c)
unfolding update_head
update_head-SameChain c = record {
  storage = refl;
  justified = refl;
  finalized = refl;
  genesis = refl;
  registry = refl;
}

on_chain_votes-SameChain :
    (p : Primitives) (c : Store) (atts : List Attestation) (sigs : List (List ℕ)) (i : ℕ)
    → SameChain c (on_chain_votes p c atts sigs i)
unfolding on_chain_votes
on_chain_votes-SameChain p c [] sigs i = SameChain-refl c
on_chain_votes-SameChain p c (att ∷ atts) sigs i =
    let sa : SignedAttestation = record {
      validator_id = att.validator_id;
      message = att.att_data;
      signature = get_or sigs i [];
    } in
    SameChain-trans c (process_attestation_locked p c sa true) _
      (process_attestation_locked-SameChain p c sa true)
      (on_chain_votes-SameChain p (process_attestation_locked p c sa true) atts sigs (suc i))

apply_votes-SameChain :
    (p : Primitives) (c : Store) (envelope : SignedBlockWithAttestation)
    → SameChain c (apply_votes p c envelope)
unfolding apply_votes
apply_votes-SameChain p c envelope =
    let atts = envelope.message.block.body.attestations in
    let voted = on_chain_votes p c atts envelope.signature 0 in
    let moved =
      SameChain-trans c voted (update_head voted)
        (on_chain_votes-SameChain p c atts envelope.signature 0) (update_head-SameChain voted) in
    elim (Option-cases envelope.message.proposer_attestation) [
      | inl e ↦ rw (e, apply_votes) moved
      | inr (att, e) ↦
          rw (e, apply_votes)
            (SameChain-trans c (update_head voted) _ moved
              (process_attestation_locked-SameChain p (update_head voted) _ false))
    ]

module _ (p : Primitives) (c₀ : Store) (now : Option ℕ)
    (envelope : SignedBlockWithAttestation) where
  -- The store when the block is looked at, and the block's root.
  abbrev pub current : Store
  current = advance_to_now p c₀ now

  abbrev pub hash : Root
  hash = p.block_root envelope.message.block

  abbrev pub grown : State → Store
  grown state = store_block p current hash envelope state

  -- The block is known, and nothing but time has passed; or a check fails, and nothing but time has
  -- passed; or the block is stored with its post-state, and its votes are applied.
  pub data Ends : Store × Run (Unit {0}) → Type 0 where
    known : (b : Block) → get_block current.storage hash ≡ some b → Ends (current, ok tt)
    refused :
        (r : Run (Unit {0}))
        → r ≢ ok tt
        → ((state : State) → check_block p current envelope ≢ ok state)
        → get_block current.storage hash ≡ none
        → Ends (current, r)
    stored :
        (state : State)
        → get_block current.storage hash ≡ none
        → check_block p current envelope ≡ ok state
        → Ends (apply_votes p (grown state) envelope, ok tt)

  pub process_block-Ends : Ends (process_block p c₀ now envelope)
  unfolding process_block
  process_block-Ends = elim (Option-cases (get_block current.storage hash)) [
    | inr (b, e) ↦ rw (e, process_block) (known b e)
    | inl e ↦ elim (Run-cases (check_block p current envelope)) [
      | inl (s, f) ↦ rw (e, process_block, f) (stored s e f)
      | inr (inl f) ↦ rw (e, process_block, f) (refused panic (λ q. cc) (λ s q. cc (f, q)) e)
      | inr (inr (x, f)) ↦ rw (e, process_block, f) (refused (err x) (λ q. cc) (λ s q. cc (f, q)) e)
    ]
  ]

-- The chain of the second store extends that of the first: no stored block or state is lost or
-- replaced, and the slots of the checkpoints do not fall.
pub record Extends (c d : Store) : Type 0 where
  pub blocks :
      (h : Root) (b : Block) → get_block c.storage h ≡ some b → get_block d.storage h ≡ some b
  pub justified : c.latest_justified.slot ≤ d.latest_justified.slot
  pub finalized : c.latest_finalized.slot ≤ d.latest_finalized.slot

pub SameChain-Extends : (c d : Store) → SameChain c d → Extends c d
SameChain-Extends c d s = record {
  blocks = λ h b e. ap (λ m. get_block m h) s.storage ∙ e;
  justified = omega (arith, ap (λ (k : Checkpoint). k.slot) s.justified);
  finalized = omega (arith, ap (λ (k : Checkpoint). k.slot) s.finalized);
}

pub Extends-trans : (c d e : Store) → Extends c d → Extends d e → Extends c e
Extends-trans c d e a b = record {
  blocks = λ h x q. b.blocks h x (a.blocks h x q);
  justified = omega (arith, a.justified, b.justified);
  finalized = omega (arith, a.finalized, b.finalized);
}

store_block-Extends :
    (p : Primitives) (c : Store) (hash : Root) (envelope : SignedBlockWithAttestation)
    (state : State)
    → get_block c.storage hash ≡ none
    → Extends c (store_block p c hash envelope state)
unfolding store_block put_block put_signed_block put_state get_block
store_block-Extends p c hash envelope state fresh = record {
  blocks = λ h b e. elim (Bool-cases (same_bytes hash h)) [
    | inl t ↦ let at : hash ≡ h = (same_bytes_iff hash h).0 t in cc (rw at at fresh, e)
    | inr t ↦ rw (lookup-insert hash h envelope.message.block c.storage.blocks, t) e
  ];
  justified = ground arith;
  finalized = ground arith;
}

stored_block :
    (p : Primitives) (c : Store) (hash : Root) (envelope : SignedBlockWithAttestation)
    (state : State)
    → get_block (store_block p c hash envelope state).storage hash ≡ some envelope.message.block
unfolding store_block put_block put_signed_block put_state get_block
stored_block p c hash envelope state = rw (
  lookup-insert hash hash envelope.message.block c.storage.blocks,
  (same_bytes_iff hash hash).1 refl,
)

-- Whatever ProcessBlock is given, it loses and replaces no stored block, and the slots of the
-- justified and of the finalized checkpoint do not fall.
pub process_block-Extends :
    (p : Primitives) (c : Store) (now : Option ℕ) (envelope : SignedBlockWithAttestation)
    → Extends c (process_block p c now envelope).0
process_block-Extends p c now envelope = by_end (process_block-Ends p c now envelope)
  where
    timely : Extends c (advance_to_now p c now)
    timely = SameChain-Extends c _ (advance_to_now-SameChain p c now)

    by_end : {r : Store × Run (Unit {0})} → Ends p c now envelope r → Extends c r.0
    by_end (known b e) = timely
    by_end (refused r bad no_state e) = timely
    by_end (stored state fresh good) =
        let voted = apply_votes-SameChain p (grown p c now envelope state) envelope in
        Extends-trans c (advance_to_now p c now) _ timely (
          Extends-trans (advance_to_now p c now) (grown p c now envelope state) _
            (store_block-Extends p (advance_to_now p c now) _ envelope state fresh)
            (SameChain-Extends (grown p c now envelope state) _ voted))

-- A block that is refused, with an error or by a panic, leaves nothing behind: the store is the one
-- that the passing of time alone gives.
pub process_block_atomic :
    (p : Primitives) (c : Store) (now : Option ℕ) (envelope : SignedBlockWithAttestation)
    → (process_block p c now envelope).1 ≢ ok tt
    → (process_block p c now envelope).0 ≡ advance_to_now p c now
process_block_atomic p c now envelope = by_end (process_block-Ends p c now envelope)
  where
    by_end :
        {r : Store × Run (Unit {0})}
        → Ends p c now envelope r
        → r.1 ≢ ok tt
        → r.0 ≡ advance_to_now p c now
    by_end (known b e) bad = refl
    by_end (refused r bad' no_state e) bad = refl
    by_end (stored state fresh good) bad = absurd (bad refl)

-- ProcessBlock ends without an error exactly when the block is stored afterwards.
pub process_block_stored :
    (p : Primitives) (c : Store) (now : Option ℕ) (envelope : SignedBlockWithAttestation)
    → let after = process_block p c now envelope in
      (after.1 ≡ ok tt)
      ↔ ((b : Block) × (get_block after.0.storage (p.block_root envelope.message.block) ≡ some b))
process_block_stored p c now envelope = by_end (process_block-Ends p c now envelope)
  where
    by_end :
        {r : Store × Run (Unit {0})}
        → Ends p c now envelope r
        → (r.1 ≡ ok tt)
          ↔ ((b : Block) × (get_block r.0.storage (p.block_root envelope.message.block) ≡ some b))
    by_end (known b e) = (λ good. (b, e), λ at. refl)
    by_end (refused r bad no_state e) = (λ good. absurd (bad good), λ (b, at). cc)
    by_end (stored state fresh good) =
        let voted = apply_votes-SameChain p (grown p c now envelope state) envelope in
        (
          λ _. (
            envelope.message.block,
            ap (λ m. get_block m (p.block_root envelope.message.block)) voted.storage
                ∙ stored_block p (advance_to_now p c now) _ envelope state,
          ),
          λ at. refl,
        )
