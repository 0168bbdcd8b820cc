-- ===== src/Network/Gossip/Delivery.antt =====
-- What is published on a topic reaches the handlers of those who read it.
use gean.Base.{
  ℕ, ◌^◌, ◌<◌, ◌≤◌, ◌≡◌, ◌≢◌, ◌⊎◌, inl, inr, refl, [], ◌∷◌, Option, length, Run, Error, ok, err,
  panic, ◌>>=◌, arith,
}
use gean.Types.Containers.{SignedAttestation, SignedBlockWithAttestation, Primitives}
use gean.Ssz.{Ssz, IsLawful}
use gean.Ssz.Fits.{FitsSignedAttestation, signed_attestation_bytes}
use gean.Ssz.Votes.RoundTrip.{signed_attestation-IsCodec}
use gean.Ssz.Blocks.{
  fill_signed, size_body, size_block, size_block_with_attestation, size_signed_block,
}
use gean.Ssz.Blocks.Fits.{FitsSignedBlock, signed_block_bytes}
use gean.Ssz.Blocks.Envelopes.{signed_block-IsCodec}
use gean.Ssz.Blocks.Filled.{marshal_fill}
use gean.ForkChoice.Store.{Store}
use gean.ForkChoice.Attestation.{process_attestation}
use gean.ForkChoice.Block.{process_block}
use gean.Network.{Snappy, IsLossless}
use gean.Network.Gossip.{
  decompressed, publish_block, publish_attestation, read_block, read_attestation, on_block,
  read_block_messages, read_attestation_messages,
}

>>=-ok : (r : Run Store) → (r >>= λ c. ok c) ≡ r
>>=-ok (ok c) = refl
>>=-ok (err failure) = refl
>>=-ok panic = refl

Answer-cases : (r : Run (Unit {0})) → (r ≡ ok tt) ⊎ ((r ≡ panic) ⊎ ((e : Error) × (r ≡ err e)))
Answer-cases (ok tt) = inl refl
Answer-cases panic = inr (inl refl)
Answer-cases (err e) = inr (inr (e, refl))

pub size_signed_block-le :
    (s : SignedBlockWithAttestation) → FitsSignedBlock s → size_signed_block s ≤ 13304044
unfolding size_signed_block size_block_with_attestation size_block size_body
size_signed_block-le s h = omega (arith, h.few, h.message.block.body.few)

module _ (z : Ssz) (lawful : IsLawful z) (y : Snappy) (lossless : IsLossless y)
    (p : Primitives) where
  -- The handler of the node and ProcessBlock: it goes on with the store that ProcessBlock leaves,
  -- whether it accepts or refuses the block.
  on_block_cases :
      (c : Store) (now : Option ℕ) (sb : SignedBlockWithAttestation)
      → (((process_block p c now sb).1 ≡ panic) × (on_block z y p c now sb ≡ panic))
        ⊎ (((process_block p c now sb).1 ≢ panic)
            × (on_block z y p c now sb ≡ ok (process_block p c now sb).0))
  unfolding on_block
  on_block_cases c now sb = elim (Answer-cases (process_block p c now sb).1) [
    | inl e ↦ inr (λ bad. cc (e, bad), rw (e, on_block))
    | inr (inl e) ↦ inl (e, rw (e, on_block))
    | inr (inr (reason, e)) ↦ inr (λ bad. cc (e, bad), rw (e, on_block))
  ]

  read_block_messages-on_block :
      (c : Store) (now : Option ℕ) (s : SignedBlockWithAttestation)
      → FitsSignedBlock (fill_signed s)
      → (publish_block z y s >>= λ payload. read_block_messages z y p c ((now, payload) ∷ []))
        ≡ on_block z y p c now (fill_signed s)
  unfolding publish_block read_block_messages read_block decompressed
  read_block_messages-on_block c now s h =
      let k = signed_block-IsCodec z lawful in
      let t = fill_signed s in
      let small : length (signed_block_bytes t) < 2 ^ 32 =
        omega (arith, k.length-bytes t h, size_signed_block-le t h) in
      rw
        (
          marshal_fill z lawful [] s,
          k.appends [] t h,
          lossless.decode-encode (signed_block_bytes t) small,
          k.reads t h,
        )
        (>>=-ok (on_block z y p c now t))

  -- A signed block that fits once its proposer attestation is filled in, published and read by a
  -- node: where ProcessBlock panics on it, with the attestation filled in, so does the node; where
  -- it does not, whether it accepts or refuses the block, the node goes on with the store that it
  -- leaves.
  pub read_block_messages-publish_block :
      (c : Store) (now : Option ℕ) (s : SignedBlockWithAttestation)
      → FitsSignedBlock (fill_signed s)
      → let received =
          publish_block z y s >>= λ payload. read_block_messages z y p c ((now, payload) ∷ []) in
        let (after, answer) = process_block p c now (fill_signed s) in
        ((answer ≡ panic) × (received ≡ panic)) ⊎ ((answer ≢ panic) × (received ≡ ok after))
  read_block_messages-publish_block c now s h =
      rw (read_block_messages-on_block c now s h) (on_block_cases c now (fill_signed s))

  -- A signed attestation that fits, published and read by a node, is handled there as
  -- ProcessAttestation handles it.
  pub read_attestation_messages-publish_attestation :
      (c : Store) (now : Option ℕ) (s : SignedAttestation)
      → FitsSignedAttestation s
      → (publish_attestation z y s >>= λ payload.
          read_attestation_messages z y p c ((now, payload) ∷ []))
        ≡ ok (process_attestation p c now s)
  unfolding publish_attestation read_attestation_messages read_attestation decompressed
  read_attestation_messages-publish_attestation c now s h =
      let k = signed_attestation-IsCodec z lawful in
      let small : length (signed_attestation_bytes s) < 2 ^ 32 =
        omega (arith, k.length-bytes s h) in
      rw (k.appends [] s h, lossless.decode-encode (signed_attestation_bytes s) small, k.reads s h)
