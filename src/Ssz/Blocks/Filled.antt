-- ===== src/Ssz/Blocks/Filled.antt =====
-- Envelopes without a proposer attestation, which the encodings fill with a zero attestation.
use gean.Base.{
  ℕ, ◌+◌, ◌≡◌, Bytes, refl, ap, ◌∙◌, List, [], none, false, length, ◌==◌, ok, err, ◌>>=◌, arith,
  inl, inr, Bool-cases, signature_count,
}
use gean.Types.Containers.{SignedBlockWithAttestation, Primitives}
use gean.Ssz.{Ssz, IsLawful}
use gean.Ssz.Blocks.{
  proposer_or_zero, fill, fill_signed, size_block_with_attestation, marshal_block_with_attestation,
  marshal_signed_block, unmarshal_signed_block,
}
use gean.Ssz.Blocks.Fits.{FitsSignedBlock}
use gean.Ssz.Blocks.Envelopes.{signed_block-IsCodec}
use gean.ForkChoice.Block.{check_signature_count}

module _ (z : Ssz) (lawful : IsLawful z) where
  pub marshal_fill :
      (buf : List ℕ) (s : SignedBlockWithAttestation)
      → marshal_signed_block z buf s ≡ marshal_signed_block z buf (fill_signed s)
  unfolding marshal_signed_block marshal_block_with_attestation size_block_with_attestation fill
      fill_signed proposer_or_zero
  marshal_fill buf s = refl

  -- A signed block that fits once its proposer attestation is filled in is encoded, and its bytes
  -- are decoded, with no error: to itself with the attestation filled in.
  pub unmarshal-marshal_signed_block :
      (s : SignedBlockWithAttestation)
      → FitsSignedBlock (fill_signed s)
      → (marshal_signed_block z [] s >>= unmarshal_signed_block z) ≡ ok (fill_signed s)
  unmarshal-marshal_signed_block s h =
      let c = signed_block-IsCodec z lawful in
      rw (marshal_fill [] s, c.appends [] (fill_signed s) h, c.reads (fill_signed s) h)

  -- An envelope without a proposer attestation whose number of signatures ProcessBlock accepts is
  -- refused for its number of signatures once it has been encoded and decoded, provided that it fits
  -- with the attestation filled in.
  pub check_signature_count-unmarshal :
      (p : Primitives) (s : SignedBlockWithAttestation)
      → s.message.proposer_attestation ≡ none
      → FitsSignedBlock (fill_signed s)
      → check_signature_count p s ≡ ok tt
      → ((marshal_signed_block z [] s >>= unmarshal_signed_block z) >>= check_signature_count p)
        ≡ err signature_count
  unfolding check_signature_count fill_signed fill
  check_signature_count-unmarshal p s e h k =
      let n = length s.signature in
      let m = length s.message.block.body.attestations in
      let k' = rw e at k in
      elim (Bool-cases (n == m)) [
        | inr other ↦ cc (rw other at k')
        | inl same ↦
            let more : (n == m + 1) ≡ false = ground arith in
            rw (unmarshal-marshal_signed_block s h) (rw more)
      ]

  -- Bytes that a signed block is decoded from are what that block is encoded to: no two encodings
  -- are decoded to one block.
  pub marshal-unmarshal_signed_block :
      (buf : List ℕ) (s : SignedBlockWithAttestation)
      → Bytes buf
      → unmarshal_signed_block z buf ≡ ok s
      → marshal_signed_block z [] s ≡ ok buf
  marshal-unmarshal_signed_block buf s h e =
      let c = signed_block-IsCodec z lawful in
      let (fits, same) = c.canonical buf s h e in c.appends [] s fits ∙ ap ok same
