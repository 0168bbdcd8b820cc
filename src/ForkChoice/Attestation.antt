-- ===== src/ForkChoice/Attestation.antt =====
-- chain/forkchoice/attestation.go, with verifyAttestationSignatureWithState of block.go: votes from
-- blocks and from gossip. Logging and metrics are left out.
pub mod Signed
pub mod Rules
use gean.Base.{
  ℕ, ◌+◌, ◌/◌, ◌%◌, ◌^◌, List, Bool, true, false, not, ◌&&◌, Option, none, some, ltb, leb, ◌==◌,
  if◌then◌else◌, length, get_elem?, lookup, insert, delete, nat_eq, Run, ok, err, panic, ◌>>=◌,
  bad_validator, bad_signature, hash_failed, head_state_missing,
}
use gean.Types.Containers.{
  AttestationData, Attestation, SignedAttestation, State, Validator, Primitives, intervals_per_slot,
}
use gean.Storage.{get_block, get_state}
use gean.ForkChoice.Store.{Store}
use gean.ForkChoice.Time.{advance_time}
use gean.Types.Slot.{u64_mod}

pub data Rejection : Type 0 where
  source_unknown target_unknown head_unknown source_after_target : Rejection
  source_slot_mismatch target_slot_mismatch too_far_in_future : Rejection

-- None where the code returns the empty string.
unfoldable pub validate_attestation_data : Store → AttestationData → Option Rejection
validate_attestation_data c d = elim (get_block c.storage d.source.root) [
  | none ↦ some source_unknown
  | some source_block ↦ elim (get_block c.storage d.target.root) [
    | none ↦ some target_unknown
    | some target_block ↦ elim (get_block c.storage d.head.root) [
      | none ↦ some head_unknown
      | some _ ↦
          if ltb target_block.slot source_block.slot
          then some source_after_target
          else if ltb d.target.slot d.source.slot
          then some source_after_target
          else if not (source_block.slot == d.source.slot)
          then some source_slot_mismatch
          else if not (target_block.slot == d.target.slot)
          then some target_slot_mismatch
          else if ltb (c.time / intervals_per_slot + 1) d.slot
          then some too_far_in_future
          else none
    ]
  ]
]

module _ (p : Primitives) where
  -- `signingSlot` is the low half of the slot.
  unfoldable pub verify_with_state : State → Attestation → List ℕ → Run (Unit {0})
  verify_with_state state att sig =
      if leb (length state.validators) att.validator_id
      then err bad_validator
      else elim (get_elem? state.validators att.validator_id) [
        | none ↦ panic
        | some v ↦ elim (p.attestation_root att) [
          | none ↦ err hash_failed
          | some message_root ↦
              if p.verify v.pubkey (att.att_data.slot % 2 ^ 32) message_root sig
              then ok tt
              else err bad_signature
        ]
      ]

  unfoldable pub verify_attestation_signature : Store → SignedAttestation → Run (Unit {0})
  verify_attestation_signature c sa = elim (get_state c.storage c.head) [
    | none ↦ err head_state_missing
    | some head_state ↦
        verify_with_state head_state
          (record { validator_id = sa.validator_id; att_data = sa.message }) sa.signature
  ]

  -- `!ok || existing.Message.Slot < data.Slot`
  unfoldable pub is_newer : Option SignedAttestation → ℕ → Bool
  is_newer none slot = true
  is_newer (some existing) slot = ltb existing.message.slot slot

  -- `ok && newAtt.Message.Slot <= data.Slot`
  unfoldable pub is_superseded : Option SignedAttestation → ℕ → Bool
  is_superseded none slot = false
  is_superseded (some new_att) slot = leb new_att.message.slot slot

  -- The votes of a block that passed the checks.
  unfoldable pub record_on_chain : Store → SignedAttestation → Store
  record_on_chain c sa =
      let id = sa.validator_id in
      let known = c.latest_known_attestations in
      let new = c.latest_new_attestations in
      record c {
        latest_known_attestations =
            if is_newer (lookup id known) sa.message.slot then insert id sa known else known;
        latest_new_attestations =
            if is_superseded (lookup id new) sa.message.slot then delete id new else new;
      }

  -- A vote of the gossip network that passed the checks.
  unfoldable pub record_gossip : Store → SignedAttestation → Store
  record_gossip c sa =
      let id = sa.validator_id in
      let new = c.latest_new_attestations in
      if ltb (c.time / intervals_per_slot) sa.message.slot
      then c
      else if is_newer (lookup id new) sa.message.slot
      then record c { latest_new_attestations = insert id sa new }
      else c

  unfoldable pub process_attestation_locked : Store → SignedAttestation → Bool → Store
  process_attestation_locked c sa is_from_block = elim (validate_attestation_data c sa.message) [
    | some reason ↦ c
    | none ↦
        if is_from_block
        then record_on_chain c sa
        else if p.should_verify
        then (elim (verify_attestation_signature c sa) [
          | ok _ ↦ record_gossip c sa
          | err e ↦ c
          | panic ↦ c
        ])
        else record_gossip c sa
  ]

  -- `c.advanceTimeLocked(c.NowFn(), false)` where there is a clock.
  unfoldable pub advance_to_now : Store → Option ℕ → Store
  advance_to_now c none = c
  advance_to_now c (some now) = advance_time c now false

  unfoldable pub process_attestation : Store → Option ℕ → SignedAttestation → Store
  process_attestation c now sa = process_attestation_locked (advance_to_now c now) sa false
