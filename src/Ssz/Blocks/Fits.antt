-- ===== src/Ssz/Blocks/Fits.antt =====
-- The blocks that Go's fixed arrays and words hold, within the limits of their lists, and the bytes
-- that stand for them.
use gean.Base.{ℕ, ◌+◌, ◌<◌, ◌≤◌, ◌≡◌, List, ◌++◌, All, length, some, le_bytes}
use gean.Types.Slot.{u64_mod}
use gean.Types.Containers.{BlockBody, Block, BlockWithAttestation, SignedBlockWithAttestation}
use gean.Ssz.Fits.{FitsAttestation, attestation_bytes}
use gean.Ssz.Lists.{joined}
use gean.Ssz.Blocks.{proposer_or_zero, size_block_with_attestation}

pub record FitsBody (b : BlockBody) : Type 0 where
  pub attestations : All FitsAttestation b.attestations
  pub few : length b.attestations ≤ 4096

pub record FitsBlock (b : Block) : Type 0 where
  pub slot : b.slot < u64_mod
  pub proposer_index : b.proposer_index < u64_mod
  pub parent_root : length b.parent_root ≡ 32
  pub state_root : length b.state_root ≡ 32
  pub body : FitsBody b.body

-- With a proposer attestation.
pub record FitsBlockWithAttestation (b : BlockWithAttestation) : Type 0 where
  pub block : FitsBlock b.block
  pub attestation : FitsAttestation (proposer_or_zero b.proposer_attestation)
  pub present : b.proposer_attestation ≡ some (proposer_or_zero b.proposer_attestation)

pub record FitsSignedBlock (s : SignedBlockWithAttestation) : Type 0 where
  pub message : FitsBlockWithAttestation s.message
  pub signatures : All (λ x. length x ≡ 3112) s.signature
  pub few : length s.signature ≤ 4096

unfoldable pub body_bytes : BlockBody → List ℕ
body_bytes b = le_bytes 4 4 ++ joined attestation_bytes b.attestations

unfoldable pub block_bytes : Block → List ℕ
block_bytes b =
    le_bytes 8 b.slot
    ++ (le_bytes 8 b.proposer_index
        ++ (b.parent_root ++ (b.state_root ++ (le_bytes 4 84 ++ body_bytes b.body))))

unfoldable pub block_with_attestation_bytes : BlockWithAttestation → List ℕ
block_with_attestation_bytes b =
    le_bytes 4 140
    ++ (attestation_bytes (proposer_or_zero b.proposer_attestation) ++ block_bytes b.block)

unfoldable pub signed_block_bytes : SignedBlockWithAttestation → List ℕ
signed_block_bytes s =
    le_bytes 4 8
    ++ (le_bytes 4 (8 + size_block_with_attestation s.message)
        ++ (block_with_attestation_bytes s.message ++ joined (λ x. x) s.signature))
