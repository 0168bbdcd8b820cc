-- ===== src/Ssz/Blocks.antt =====
-- types/block_encoding.go: block bodies, blocks, and the envelopes that carry the proposer's
-- attestation and the signatures. Their attestations and signatures are lists, so each has a fixed
-- part that ends in, or starts with, the offset of what follows it.
pub mod Fits
pub mod RoundTrip
pub mod Envelopes
pub mod Filled
use gean.Base.{
  ℕ, ◌+◌, ◌*◌, List, ◌++◌, ◌||◌, Option, none, some, not, length, ◌==◌, ltb, if◌then◌else◌,
  replicate, slice, Run, ok, err, ◌>>=◌, ssz_size, ssz_offset, ssz_variable_offset,
  ssz_list_too_big,
}
use gean.Types.Containers.{
  zero_hash, Checkpoint, AttestationData, Attestation, BlockBody, Block, BlockWithAttestation,
  SignedBlockWithAttestation,
}
use gean.Ssz.{Ssz}
use gean.Ssz.Items.{marshal_list, unmarshal_list, first_offset}
use gean.Ssz.Votes.{marshal_attestation, unmarshal_attestation}

-- `new(Attestation)`, which the encodings fill in.
abbrev pub zero_attestation : Attestation
zero_attestation =
    let zero_checkpoint : Checkpoint = record { root = zero_hash; slot = 0 } in
    record {
      validator_id = 0;
      att_data = record {
        slot = 0;
        head = zero_checkpoint;
        target = zero_checkpoint;
        source = zero_checkpoint;
      };
    }

-- `if b.ProposerAttestation == nil { b.ProposerAttestation = new(Attestation) }`.
unfoldable pub proposer_or_zero : Option Attestation → Attestation
proposer_or_zero none = zero_attestation
proposer_or_zero (some a) = a

-- What encoding leaves in the caller's envelope.
unfoldable pub fill : BlockWithAttestation → BlockWithAttestation
fill b = record {
  block = b.block;
  proposer_attestation = some (proposer_or_zero b.proposer_attestation);
}

unfoldable pub fill_signed : SignedBlockWithAttestation → SignedBlockWithAttestation
fill_signed s = record { message = fill s.message; signature = s.signature }

-- `size += len(b.Attestations) * 136`
unfoldable pub size_body : BlockBody → ℕ
size_body b = 4 + length b.attestations * 136

unfoldable pub size_block : Block → ℕ
size_block b = 84 + size_body b.body

unfoldable pub size_block_with_attestation : BlockWithAttestation → ℕ
size_block_with_attestation b = 140 + size_block b.block

unfoldable pub size_signed_block : SignedBlockWithAttestation → ℕ
size_signed_block s = 8 + size_block_with_attestation s.message + length s.signature * 3112

-- `dst = append(dst, s.Signature[ii][:]...)`
unfoldable pub marshal_signature : List ℕ → List ℕ → Run (List ℕ)
marshal_signature buf s = ok (buf ++ s)

-- `copy(s.Signature[ii][:], buf[ii*3112:(ii+1)*3112])`
unfoldable pub unmarshal_signature : List ℕ → Run (List ℕ)
unmarshal_signature buf = ok buf

module _ (z : Ssz) where
  unfoldable pub marshal_body : List ℕ → BlockBody → Run (List ℕ)
  marshal_body buf b =
      marshal_list (marshal_attestation z) 4096 (z.write_offset buf 4) b.attestations

  unfoldable pub unmarshal_body : List ℕ → Run BlockBody
  unmarshal_body buf =
      if ltb (length buf) 4
      then err ssz_size
      else first_offset z 4 (length buf) (slice 0 4 buf) >>= λ o.
          unmarshal_list z (unmarshal_attestation z) 136 4096 (slice o (length buf) buf)
          >>= λ attestations. ok (record { attestations = attestations })

  unfoldable pub marshal_block : List ℕ → Block → Run (List ℕ)
  marshal_block buf b =
      let words = z.marshal_uint64 (z.marshal_uint64 buf b.slot) b.proposer_index in
      marshal_body (z.write_offset (words ++ b.parent_root ++ b.state_root) 84) b.body

  unfoldable pub unmarshal_block : List ℕ → Run Block
  unmarshal_block buf =
      if ltb (length buf) 84
      then err ssz_size
      else first_offset z 84 (length buf) (slice 80 84 buf) >>= λ o.
          unmarshal_body (slice o (length buf) buf) >>= λ body. ok (record {
            slot = z.unmarshal_uint64 (slice 0 8 buf);
            proposer_index = z.unmarshal_uint64 (slice 8 16 buf);
            parent_root = slice 16 48 buf;
            state_root = slice 48 80 buf;
            body = body;
          })

  unfoldable pub marshal_block_with_attestation : List ℕ → BlockWithAttestation → Run (List ℕ)
  marshal_block_with_attestation buf b =
      marshal_attestation z (z.write_offset buf 140) (proposer_or_zero b.proposer_attestation)
      >>= λ dst. marshal_block dst b.block

  unfoldable pub unmarshal_block_with_attestation : List ℕ → Run BlockWithAttestation
  unmarshal_block_with_attestation buf =
      if ltb (length buf) 140
      then err ssz_size
      else first_offset z 140 (length buf) (slice 0 4 buf) >>= λ o.
          unmarshal_attestation z (slice 4 140 buf) >>= λ attestation.
          unmarshal_block (slice o (length buf) buf) >>= λ block.
          ok (record { block = block; proposer_attestation = some attestation })

  unfoldable pub marshal_signed_block : List ℕ → SignedBlockWithAttestation → Run (List ℕ)
  marshal_signed_block buf s =
      let offsets =
        z.write_offset (z.write_offset buf 8) (8 + size_block_with_attestation s.message) in
      marshal_block_with_attestation offsets s.message >>= λ dst.
      marshal_list marshal_signature 4096 dst s.signature

  unfoldable pub unmarshal_signed_block : List ℕ → Run SignedBlockWithAttestation
  unmarshal_signed_block buf =
      if ltb (length buf) 8
      then err ssz_size
      else first_offset z 8 (length buf) (slice 0 4 buf) >>= λ o₀.
          let o₁ = z.read_offset (slice 4 8 buf) in
          if ltb (length buf) o₁ || ltb o₁ o₀
          then err ssz_offset
          else unmarshal_block_with_attestation (slice o₀ o₁ buf) >>= λ message.
              unmarshal_list z unmarshal_signature 3112 4096 (slice o₁ (length buf) buf)
              >>= λ signature. ok (record { message = message; signature = signature })
