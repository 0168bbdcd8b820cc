-- ===== src/Node/Duties/Published.antt =====
-- Who publishes: the votes and the blocks of a slot.
use mathlib.Core.List.{Sublistᴰ}
use gean.Ssz.Codec.{ok_inj}
use gean.ForkChoice.Attestation.Rules.{
  process_attestation_locked-SameChain, advance_to_now-SameChain,
}
use gean.ForkChoice.Attestation.{advance_to_now}
use gean.Base.{
  ℕ, ◌≡◌, refl, sym, ap, ◌∙◌, List, [], ◌∷◌, ◌++◌, map, All, All-append, true, false, Bool-cases,
  inl, inr, Option, Option-cases, none, some, lookup, nat_eq, Run, ok, err, panic, >>=-eq-ok,
}
use gean.Types.Containers.{SignedAttestation, Primitives}
use gean.Storage.{get_block}
use gean.Transition.Slots.{is_proposer}
use gean.ForkChoice.Store.{Store}
use gean.ForkChoice.Time.{accept_new_attestations}
use gean.ForkChoice.Time.Ticks.{advance_time-SameChain}
use gean.ForkChoice.Attestation.{process_attestation}
use gean.ForkChoice.Produce.{at_slot, get_vote_target, signature_of, produce_attestation}
use gean.Node.Duties.{Signer, attested, attest_with, attest_one, attest_loop}

Sublistᴰ_append : {a b c d : List ℕ} → Sublistᴰ a b → Sublistᴰ c d → Sublistᴰ (a ++ c) (b ++ d)
Sublistᴰ_append Sublistᴰ.slnil s = s
Sublistᴰ_append (Sublistᴰ.cons r) s = Sublistᴰ.cons (Sublistᴰ_append r s)
Sublistᴰ_append (Sublistᴰ.cons-cons e r) s = Sublistᴰ.cons-cons e (Sublistᴰ_append r s)

-- The validators of votes.
unfoldable pub ids : List SignedAttestation → List ℕ
ids = map (λ sa. sa.validator_id)

ids-append : (xs ys : List SignedAttestation) → ids (xs ++ ys) ≡ ids xs ++ ids ys
unfolding ids
ids-append [] ys = refl
ids-append (x ∷ xs) ys = ap (◌∷◌ x.validator_id) (ids-append xs ys)

pub registry-at_slot : (c : Store) (slot : ℕ) → (at_slot c slot).num_validators ≡ c.num_validators
unfolding at_slot accept_new_attestations
registry-at_slot c slot = (advance_time-SameChain c _ true).registry

module _ (p : Primitives) where
  -- The vote is the validator's, for the slot, and the store is the advanced one.
  produce_attestation_lem :
      (kp : Signer) (c : Store) (slot idx : ℕ) (sa : SignedAttestation)
      → (produce_attestation p kp c slot idx).1 ≡ ok sa
      → (sa.validator_id ≡ idx) × (sa.message.slot ≡ slot)
  unfolding produce_attestation
  produce_attestation_lem kp c slot idx sa e =
      let d = at_slot c slot in
      elim (Option-cases (get_block d.storage d.head)) [
        | inl missing ↦ cc (rw (missing, produce_attestation) at e)
        | inr (b, found) ↦
            let (target, e₁, e₂) =
              >>=-eq-ok (get_vote_target p d) _ (rw (found, produce_attestation) at e) in
            let (sig, e₃, e₄) = >>=-eq-ok (signature_of p kp _) _ e₂ in
            rw (sym (ok_inj _ sa e₄)) (refl, refl)
      ]

  registry-produce_attestation :
      (kp : Signer) (c : Store) (slot idx : ℕ)
      → (produce_attestation p kp c slot idx).0.num_validators ≡ c.num_validators
  unfolding produce_attestation
  registry-produce_attestation kp c slot idx = registry-at_slot c slot

  registry-process_attestation :
      (c : Store) (now : Option ℕ) (sa : SignedAttestation)
      → (process_attestation p c now sa).num_validators ≡ c.num_validators
  unfolding process_attestation
  registry-process_attestation c now sa =
      (process_attestation_locked-SameChain p (advance_to_now p c now) sa false).registry
      ∙ (advance_to_now-SameChain p c now).registry

  -- A vote for the slot of a validator that is not its proposer.
  pub record IsVote (slot n : ℕ) (sa : SignedAttestation) : Type 0 where
    pub at_slot : sa.message.slot ≡ slot
    pub no_proposer : is_proposer sa.validator_id slot n ≡ ok false

  -- The store after a loop over `indices`, and what the loop published.
  pub record IsVoting (slot n : ℕ) (indices : List ℕ) (r : Store × List SignedAttestation)
      : Type 0 where
    pub registry : r.0.num_validators ≡ n
    pub votes : All (IsVote slot n) r.1
    pub in_turn : Sublistᴰ (ids r.1) indices

  skipped : (slot n idx : ℕ) (c : Store) → c.num_validators ≡ n → IsVoting slot n (idx ∷ []) (c, [])
  unfolding ids
  skipped slot n idx c e = record {
    registry = e;
    votes = tt;
    in_turn = Sublistᴰ.cons Sublistᴰ.slnil;
  }

  module _ (now : ℕ → Option ℕ) (keys : List (ℕ × Signer)) where
    attested-IsVoting :
        (slot n idx : ℕ) (r : Store × Run SignedAttestation) (out : Store × List SignedAttestation)
        → is_proposer idx slot n ≡ ok false
        → r.0.num_validators ≡ n
        → ((sa : SignedAttestation)
            → r.1 ≡ ok sa
            → (sa.validator_id ≡ idx) × (sa.message.slot ≡ slot))
        → attested p now idx r ≡ ok out
        → IsVoting slot n (idx ∷ []) out
    unfolding attested ids
    attested-IsVoting slot n idx (c, panic) out h same k e = cc
    attested-IsVoting slot n idx (c, err x) out h same k e =
        rw (sym (ok_inj _ out e)) (skipped slot n idx c same)
    attested-IsVoting slot n idx (c, ok sa) out h same k e =
        let (id, at) = k sa refl in
        rw (sym (ok_inj _ out e)) (record {
          registry = registry-process_attestation c (now idx) sa ∙ same;
          votes = (record { at_slot = at; no_proposer = rw id h }, tt);
          in_turn = Sublistᴰ.cons-cons id Sublistᴰ.slnil;
        })

    attest_with-IsVoting :
        (o : Option Signer) (c : Store) (slot idx : ℕ) (out : Store × List SignedAttestation)
        → is_proposer idx slot c.num_validators ≡ ok false
        → attest_with p now o c slot idx ≡ ok out
        → IsVoting slot c.num_validators (idx ∷ []) out
    unfolding attest_with
    attest_with-IsVoting none c slot idx out h e =
        rw (sym (ok_inj _ out e)) (skipped slot c.num_validators idx c refl)
    attest_with-IsVoting (some kp) c slot idx out h e =
        attested-IsVoting slot c.num_validators idx (produce_attestation p kp c slot idx) out h
          (registry-produce_attestation kp c slot idx) (produce_attestation_lem kp c slot idx) e

    attest_one-IsVoting :
        (c : Store) (slot idx : ℕ) (out : Store × List SignedAttestation)
        → attest_one p now keys c slot idx ≡ ok out
        → IsVoting slot c.num_validators (idx ∷ []) out
    unfolding attest_one
    attest_one-IsVoting c slot idx out e =
        let (proposes, h, e') = >>=-eq-ok (is_proposer idx slot c.num_validators) _ e in
        elim (Bool-cases proposes) [
          | inl due ↦
              rw (sym (ok_inj _ out (rw due at e'))) (skipped slot c.num_validators idx c refl)
          | inr other ↦
              attest_with-IsVoting (lookup idx keys) c slot idx out (rw other at h) (rw other at e')
        ]

    pub attest_loop-IsVoting :
        (slot : ℕ) (indices : List ℕ) (c : Store) (out : Store × List SignedAttestation)
        → attest_loop p now keys c slot indices ≡ ok out
        → IsVoting slot c.num_validators indices out
    unfolding attest_loop ids
    attest_loop-IsVoting slot [] c out e =
        rw (sym (ok_inj _ out e)) (record { registry = refl; votes = tt; in_turn = Sublistᴰ.slnil })
    attest_loop-IsVoting slot (idx ∷ indices) c out e =
        let (first, e₁, e₂) = >>=-eq-ok (attest_one p now keys c slot idx) _ e in
        let (rest, e₃, e₄) = >>=-eq-ok (attest_loop p now keys first.0 slot indices) _ e₂ in
        let a = attest_one-IsVoting c slot idx first e₁ in
        let b = attest_loop-IsVoting slot indices first.0 rest e₃ in
        rw (sym (ok_inj _ out e₄)) (record {
          registry = b.registry ∙ a.registry;
          votes =
              All-append (IsVote slot c.num_validators) first.1 rest.1 a.votes
                (rw a.registry at b.votes);
          in_turn = rw (ids-append first.1 rest.1) (Sublistᴰ_append a.in_turn b.in_turn);
        })
