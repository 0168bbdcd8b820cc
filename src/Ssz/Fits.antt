-- ===== src/Ssz/Fits.antt =====
-- The values that Go's fixed arrays and words hold, and the bytes that stand for them.
use gean.Base.{ℕ, ◌<◌, ◌≡◌, List, ◌++◌, length, le_bytes}
use gean.Types.Slot.{u64_mod}
use gean.Types.Containers.{
  Checkpoint, Validator, AttestationData, Attestation, SignedAttestation, BlockHeader,
}

-- Values that Go's fixed arrays and words hold.
pub record FitsCheckpoint (c : Checkpoint) : Type 0 where
  pub root : length c.root ≡ 32
  pub slot : c.slot < u64_mod

unfoldable pub checkpoint_bytes : Checkpoint → List ℕ
checkpoint_bytes c = c.root ++ le_bytes 8 c.slot

pub record FitsValidator (v : Validator) : Type 0 where
  pub pubkey : length v.pubkey ≡ 52
  pub index : v.index < u64_mod

pub record FitsAttestationData (a : AttestationData) : Type 0 where
  pub slot : a.slot < u64_mod
  pub head : FitsCheckpoint a.head
  pub target : FitsCheckpoint a.target
  pub source : FitsCheckpoint a.source

pub record FitsAttestation (a : Attestation) : Type 0 where
  pub validator_id : a.validator_id < u64_mod
  pub att_data : FitsAttestationData a.att_data

pub record FitsSignedAttestation (s : SignedAttestation) : Type 0 where
  pub validator_id : s.validator_id < u64_mod
  pub message : FitsAttestationData s.message
  pub signature : length s.signature ≡ 3112

unfoldable pub validator_bytes : Validator → List ℕ
validator_bytes v = v.pubkey ++ le_bytes 8 v.index

unfoldable pub attestation_data_bytes : AttestationData → List ℕ
attestation_data_bytes a =
    le_bytes 8 a.slot
    ++ (checkpoint_bytes a.head ++ (checkpoint_bytes a.target ++ checkpoint_bytes a.source))

unfoldable pub attestation_bytes : Attestation → List ℕ
attestation_bytes a = le_bytes 8 a.validator_id ++ attestation_data_bytes a.att_data

unfoldable pub signed_attestation_bytes : SignedAttestation → List ℕ
signed_attestation_bytes s =
    le_bytes 8 s.validator_id ++ (attestation_data_bytes s.message ++ s.signature)

pub record FitsHeader (h : BlockHeader) : Type 0 where
  pub slot : h.slot < u64_mod
  pub proposer_index : h.proposer_index < u64_mod
  pub parent_root : length h.parent_root ≡ 32
  pub state_root : length h.state_root ≡ 32
  pub body_root : length h.body_root ≡ 32

unfoldable pub header_bytes : BlockHeader → List ℕ
header_bytes h =
    le_bytes 8 h.slot
    ++ (le_bytes 8 h.proposer_index ++ (h.parent_root ++ (h.state_root ++ h.body_root)))
