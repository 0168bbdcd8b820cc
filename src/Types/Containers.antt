-- ===== src/Types/Containers.antt =====
-- types/checkpoint.go, config.go, vote.go, block.go, state.go and aggregated_attestation.go: the
-- consensus containers. Pointers to containers are never nil where the chain code reads them, so
-- a container stands for the pointer too, and a copy of a value is the value.
use gean.Base.{ℕ, List, Bool, Option, replicate}

-- `[32]byte`, as the list of its bytes.
abbrev pub Root : Type 0
Root = List ℕ

-- constants.go: `ZeroHash`
abbrev pub zero_hash : Root
zero_hash = replicate 32 0

abbrev pub seconds_per_slot : ℕ
seconds_per_slot = 4

abbrev pub intervals_per_slot : ℕ
intervals_per_slot = 4

-- `SecondsPerSlot / IntervalsPerSlot`
abbrev pub seconds_per_interval : ℕ
seconds_per_interval = 1

abbrev pub justification_lookback : ℕ
justification_lookback = 3

abbrev pub xmss_signature_size : ℕ
xmss_signature_size = 3112

pub record Checkpoint : Type 0 where
  pub root : Root
  pub slot : ℕ

pub record Config : Type 0 where
  pub genesis_time : ℕ

pub record Validator : Type 0 where
  pub pubkey : List ℕ
  pub index : ℕ

pub record AttestationData : Type 0 where
  pub slot : ℕ
  pub head : Checkpoint
  pub target : Checkpoint
  pub source : Checkpoint

pub record Attestation : Type 0 where
  pub validator_id : ℕ
  pub att_data : AttestationData

pub record SignedAttestation : Type 0 where
  pub validator_id : ℕ
  pub message : AttestationData
  pub signature : List ℕ

pub record AggregatedAttestation : Type 0 where
  pub att_data : AttestationData
  pub aggregation_bits : List ℕ
  pub aggregated_signature : List ℕ

pub record BlockHeader : Type 0 where
  pub slot : ℕ
  pub proposer_index : ℕ
  pub parent_root : Root
  pub state_root : Root
  pub body_root : Root

pub record BlockBody : Type 0 where
  pub attestations : List Attestation

pub record Block : Type 0 where
  pub slot : ℕ
  pub proposer_index : ℕ
  pub parent_root : Root
  pub state_root : Root
  pub body : BlockBody

-- `ProposerAttestation` may be nil.
pub record BlockWithAttestation : Type 0 where
  pub block : Block
  pub proposer_attestation : Option Attestation

pub record SignedBlockWithAttestation : Type 0 where
  pub message : BlockWithAttestation
  pub signature : List (List ℕ)

pub record State : Type 0 where
  pub config : Config
  pub slot : ℕ
  pub latest_block_header : BlockHeader
  pub latest_justified : Checkpoint
  pub latest_finalized : Checkpoint
  pub historical_block_hashes : List Root
  pub justified_slots : List ℕ
  pub validators : List Validator
  pub justifications_roots : List Root
  pub justifications_validators : List ℕ

-- What the chain code calls and does not implement: the SSZ hash tree roots of the external
-- hasher, `uint64(math.Sqrt(float64(n)))`, and the XMSS verification of the foreign library, which
-- takes a public key, a slot, a message root and a signature. `should_verify` is the build's choice.
pub record Primitives : Type 0 where
  pub block_root : Block → Root
  pub header_root : BlockHeader → Root
  pub body_root : BlockBody → Root
  pub state_root : State → Root
  pub attestation_root : Attestation → Option Root
  pub float_sqrt : ℕ → ℕ
  pub verify : List ℕ → ℕ → Root → List ℕ → Bool
  pub should_verify : Bool
