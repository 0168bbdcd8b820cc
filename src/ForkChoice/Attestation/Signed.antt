-- ===== src/ForkChoice/Attestation/Signed.antt =====
-- When a vote counts as signed, and as newer than another.
use gean.Base.{
  ℕ, zero, suc, ◌%◌, ◌^◌, ◌<◌, ◌≡◌, refl, List, [], ◌∷◌, true, false, arith, leb, inl, inr, length,
  get_elem?, Option, Option-cases, none, some, ok,
}
use gean.Types.Containers.{SignedAttestation, State, Validator, Primitives}
use gean.Storage.{get_state}
use gean.ForkChoice.Store.{Store}
use gean.ForkChoice.Attestation.{verify_with_state, is_newer, verify_attestation_signature}

-- The vote is signed by a validator of the head's state: there is a hash of the vote, and the
-- signature is that of the hash at the low 32 bits of the slot under the key of the validator.
pub record IsSigned (p : Primitives) (c : Store) (sa : SignedAttestation) : Type 0 where
  pub head_state : State
  pub voter : Validator
  pub hash : List ℕ
  pub head_stored : get_state c.storage c.head ≡ some head_state
  pub registered : get_elem? head_state.validators sa.validator_id ≡ some voter
  pub hashed :
      p.attestation_root (record { validator_id = sa.validator_id; att_data = sa.message })
      ≡ some hash
  pub verified : p.verify voter.pubkey (sa.message.slot % 2 ^ 32) hash sa.signature ≡ true

get_elem?-lt {ℓ} : {A : Type ℓ} (l : List A) (i : ℕ) (a : A) → get_elem? l i ≡ some a → i < length l
get_elem?-lt [] i a e = cc
get_elem?-lt (x ∷ l) zero a e = omega arith
get_elem?-lt (x ∷ l) (suc i) a e = omega (arith, get_elem?-lt l i a e)

module _ (p : Primitives) (c : Store) (sa : SignedAttestation) where
  pub IsSigned-verifies : IsSigned p c sa → verify_attestation_signature p c sa ≡ ok tt
  unfolding verify_attestation_signature verify_with_state
  IsSigned-verifies g =
      let known : leb (length g.head_state.validators) sa.validator_id ≡ false =
        ground (arith, get_elem?-lt g.head_state.validators sa.validator_id g.voter g.registered) in
      rw (g.head_stored, verify_attestation_signature, known, g.registered, g.hashed, g.verified)

  pub verifies-IsSigned : verify_attestation_signature p c sa ≡ ok tt → IsSigned p c sa
  unfolding verify_attestation_signature verify_with_state
  verifies-IsSigned e = elim (Option-cases (get_state c.storage c.head)) [
    | inl no_state ↦ absurd (ground arith)
    | inr (state, at_state) ↦ elim (Option-cases (get_elem? state.validators sa.validator_id)) [
      | inl no_voter ↦ absurd (ground arith)
      | inr (voter, at_voter) ↦
          elim (Option-cases (
            p.attestation_root
              (record { validator_id = sa.validator_id; att_data = sa.message }))) [
                | inl no_hash ↦ absurd (ground arith)
                | inr (hash, at_hash) ↦ record {
                  head_state = state;
                  voter = voter;
                  hash = hash;
                  head_stored = at_state;
                  registered = at_voter;
                  hashed = at_hash;
                  verified = ground arith;
                }
              ]
    ]
  ]

-- The validator has no pending vote, or one of an earlier slot.
abbrev pub IsNewer : Option SignedAttestation → ℕ → Type 0
IsNewer none slot = Unit
IsNewer (some pending) slot = pending.message.slot < slot

pub IsNewer-is_newer :
    (p : Primitives) (o : Option SignedAttestation) (slot : ℕ)
    → IsNewer o slot
    → is_newer p o slot ≡ true
unfolding is_newer
IsNewer-is_newer p none slot h = refl
IsNewer-is_newer p (some pending) slot h = ground arith

pub is_newer-IsNewer :
    (p : Primitives) (o : Option SignedAttestation) (slot : ℕ)
    → is_newer p o slot ≡ true
    → IsNewer o slot
unfolding is_newer
is_newer-IsNewer p none slot h = tt
is_newer-IsNewer p (some pending) slot h = ground arith
