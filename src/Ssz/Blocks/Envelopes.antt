-- ===== src/Ssz/Blocks/Envelopes.antt =====
-- Signed block envelopes are encoded without loss.
use mathlib.Core.List.{append_assoc}
use gean.Base.{
  ℕ, ◌+◌, ◌^◌, ◌<◌, ◌≤◌, ◌≡◌, refl, sym, ap, ◌∙◌, List, ◌++◌, ◌||◌, false, Bool-cases, inl, inr,
  length, length-append, ltb, if◌then◌else◌, Run, ok, err, >>=-eq-ok, arith, slice, slice_first,
  slice_whole, slice_behind, slice_past, slice_join, length-slice, slice-All, le_bytes,
  length-le_bytes, ssz_size, ssz_offset,
}
use gean.Types.Containers.{BlockWithAttestation}
use gean.Ssz.{Ssz, IsLawful}
use gean.Ssz.Codec.{IsCodec, ok_inj, slices-whole}
use gean.Ssz.Items.{first_offset, unmarshal_list}
use gean.Ssz.Lists.{
  joined, at_least_ok, at_least_inv, offset-reads, offset-canonical, first_offset-reads,
  first_offset-inv, list-IsCodec, IsItem,
}
use gean.Ssz.Fits.{attestation_bytes}
use gean.Ssz.Votes.{unmarshal_attestation}
use gean.Ssz.Votes.RoundTrip.{attestation-IsCodec}
use gean.Ssz.Blocks.{
  proposer_or_zero, size_body, size_block, size_block_with_attestation, size_signed_block,
  marshal_signature, unmarshal_signature, unmarshal_block, marshal_block_with_attestation,
  unmarshal_block_with_attestation, marshal_signed_block, unmarshal_signed_block,
}
use gean.Ssz.Blocks.Fits.{
  FitsBlockWithAttestation, FitsSignedBlock, block_bytes, block_with_attestation_bytes,
  signed_block_bytes,
}
use gean.Ssz.Blocks.RoundTrip.{block-IsCodec}

module _ (z : Ssz) (lawful : IsLawful z) where
  length-envelope_bytes :
      (b : BlockWithAttestation)
      → FitsBlockWithAttestation b
      → length (block_with_attestation_bytes b) ≡ 140 + length (block_bytes b.block)
  unfolding block_with_attestation_bytes
  length-envelope_bytes b h =
      let a = attestation_bytes (proposer_or_zero b.proposer_attestation) in
      omega (
        arith,
        length-append (le_bytes 4 140) (a ++ block_bytes b.block),
        length-append a (block_bytes b.block),
        length-le_bytes 4 140,
        (attestation-IsCodec z lawful).length-bytes _ h.attestation,
      )

  pub block_with_attestation-IsCodec :
      IsCodec
        (marshal_block_with_attestation z)
        (unmarshal_block_with_attestation z)
        FitsBlockWithAttestation
        size_block_with_attestation
        block_with_attestation_bytes
  unfolding marshal_block_with_attestation unmarshal_block_with_attestation
      size_block_with_attestation block_with_attestation_bytes proposer_or_zero
  block_with_attestation-IsCodec =
      let c = attestation-IsCodec z lawful in
      let d = block-IsCodec z lawful in
      let eo = length-le_bytes 4 140 in
      record {
        appends = λ buf b h.
            let a = proposer_or_zero b.proposer_attestation in
            rw
              (
                lawful.write_offset-exact buf 140,
                c.appends (buf ++ le_bytes 4 140) a h.attestation,
                d.appends (buf ++ le_bytes 4 140 ++ attestation_bytes a) b.block h.block,
              )
              (simp append_assoc);
        length-bytes =
            λ b h. omega (arith, length-envelope_bytes b h, d.length-bytes b.block h.block);
        reads = λ b h.
            let o = le_bytes 4 140 in
            let a = proposer_or_zero b.proposer_attestation in
            let x = attestation_bytes a in
            let y = block_bytes b.block in
            let ex = c.length-bytes a h.attestation in
            let size = length-envelope_bytes b h in
            at_least_ok ssz_size (length (block_with_attestation_bytes b)) 140 _
              (omega (arith, size))
            ∙ rw (
              slice_first 4 o (x ++ y) eo,
              first_offset-reads z lawful 140 (length (block_with_attestation_bytes b))
                  (omega arith) (omega (arith, size)),
              slice_behind 4 0 136 o (x ++ y) eo,
              slice_first 136 x y ex,
              c.reads a h.attestation,
              size,
              slice_past 4 136 (136 + length y) 140 (140 + length y) o (x ++ y) eo (omega arith)
                  (omega arith),
              slice_past 136 0 (length y) 136 (136 + length y) x y ex (omega arith) (omega arith),
              slice_whole (length y) y refl,
              d.reads b.block h.block,
              ← h.present,
            );
        canonical = λ buf b h e.
            let (size, e₀) = at_least_inv ssz_size (length buf) 140 _ e in
            let (o, e', e₁) = >>=-eq-ok (first_offset z 140 (length buf) (slice 0 4 buf)) _ e₀ in
            let (at, head) =
              first_offset-inv z lawful 140 (length buf) (slice 0 4 buf) (slice-All _ 0 4 buf h)
                (length-slice 0 4 buf (omega arith) (omega arith)) e' in
            let e₂ = rw at at e₁ in
            let (x, ex, e₃) = >>=-eq-ok (unmarshal_attestation z (slice 4 140 buf)) _ e₂ in
            let (y, ey, e₄) = >>=-eq-ok (unmarshal_block z (slice 140 (length buf) buf)) _ e₃ in
            let (fx, bx) = c.canonical (slice 4 140 buf) x (slice-All _ 4 140 buf h) ex in
            let (fy, by) =
              d.canonical (slice 140 (length buf) buf) y (slice-All _ 140 (length buf) buf h) ey in
            rw (sym (ok_inj _ b e₄)) (
              record { block = fy; attestation = fx; present = refl },
              rw (head, bx, by, slice_join 4 140 (length buf) buf (omega arith) size)
                  (slices-whole 4 (length buf) buf (omega arith) refl),
            );
      }

  -- The offsets fit in 32 bits.
  size-lt :
      (b : BlockWithAttestation)
      → FitsBlockWithAttestation b
      → 8 + size_block_with_attestation b < 256 ^ 4
  unfolding size_block_with_attestation size_block size_body
  size-lt b h = omega (arith, h.block.body.few)

  signature-IsItem :
      IsItem marshal_signature unmarshal_signature (λ s. length s ≡ 3112) 3112 (λ s. s)
  unfolding marshal_signature unmarshal_signature
  signature-IsItem = record {
    appends = λ buf s h. refl;
    length-bytes = λ s h. h;
    reads = λ s h. refl;
    canonical = λ buf s h e e'. rw (sym (ok_inj buf s e')) (e, refl);
  }

  -- The check of the second offset.
  second_offset :
      {A : Type 0} (n o : ℕ) (r : Run A) {a : A}
      → (if ltb n o || ltb o 8 then err ssz_offset else r) ≡ ok a
      → (8 ≤ o) × (o ≤ n) × (r ≡ ok a)
  second_offset n o r e = elim (Bool-cases (ltb n o)) [
    | inl beyond ↦ cc (rw beyond at e)
    | inr within ↦
        let e' = rw within at e in
        elim (Bool-cases (ltb o 8)) [
          | inl before ↦ cc (rw before at e')
          | inr behind ↦ (ground arith, ground arith, rw behind at e')
        ]
  ]

  -- Whose parts are `o`, `p`, `x` and `y`.
  length-parts :
      (o p x y : List ℕ) (n : ℕ)
      → length o ≡ 4
      → length p ≡ 4
      → length x ≡ n
      → length (o ++ (p ++ (x ++ y))) ≡ 8 + n + length y
  length-parts o p x y n eo ep ex = omega (
    arith,
    eo,
    ep,
    ex,
    length-append o (p ++ (x ++ y)),
    length-append p (x ++ y),
    length-append x y,
  )

  -- Signed blocks are encoded and decoded without loss: every envelope with a proposer attestation
  -- that fits Go's types and the limits of its lists is read back from its bytes, whose number is
  -- that of SizeSSZ, and any bytes that an envelope is read from are the bytes of that envelope,
  -- which fits: the offsets leave no other encoding.
  pub signed_block-IsCodec :
      IsCodec
        (marshal_signed_block z)
        (unmarshal_signed_block z)
        FitsSignedBlock
        size_signed_block
        signed_block_bytes
  unfolding marshal_signed_block unmarshal_signed_block size_signed_block signed_block_bytes
  signed_block-IsCodec =
      let c = block_with_attestation-IsCodec in
      let d = list-IsCodec z lawful 3112 signature-IsItem 4096 (omega arith) in
      let o = le_bytes 4 8 in
      let eo = length-le_bytes 4 8 in
      record {
        appends = λ buf s h.
            let p = le_bytes 4 (8 + size_block_with_attestation s.message) in
            rw
              (
                lawful.write_offset-exact buf 8,
                lawful.write_offset-exact (buf ++ o) (8 + size_block_with_attestation s.message),
                c.appends (buf ++ o ++ p) s.message h.message,
                d.appends (buf ++ o ++ p ++ block_with_attestation_bytes s.message) s.signature
                    (h.signatures, h.few),
              )
              (simp append_assoc);
        length-bytes = λ s h.
            let p = le_bytes 4 (8 + size_block_with_attestation s.message) in
            let ep = length-le_bytes 4 (8 + size_block_with_attestation s.message) in
            let x = block_with_attestation_bytes s.message in
            let y = joined (λ x. x) s.signature in
            omega (
              arith,
              length-parts o p x y _ eo ep (c.length-bytes s.message h.message),
              d.length-bytes s.signature (h.signatures, h.few),
            );
        reads = λ s h.
            let n = size_block_with_attestation s.message in
            let p = le_bytes 4 (8 + n) in
            let ep = length-le_bytes 4 (8 + n) in
            let x = block_with_attestation_bytes s.message in
            let ex = c.length-bytes s.message h.message in
            let y = joined (λ x. x) s.signature in
            let size : length (signed_block_bytes s) ≡ 8 + n + length y =
              length-parts o p x y n eo ep ex in
            let within : (ltb (8 + n + length y) (8 + n) || ltb (8 + n) 8) ≡ false = ground arith in
            at_least_ok ssz_size (length (signed_block_bytes s)) 8 _ (omega (arith, size))
            ∙ rw (
              slice_first 4 o (p ++ (x ++ y)) eo,
              first_offset-reads z lawful 8 (length (signed_block_bytes s)) (omega arith)
                  (omega (arith, size)),
              slice_behind 4 0 4 o (p ++ (x ++ y)) eo,
              slice_first 4 p (x ++ y) ep,
              offset-reads z lawful (8 + n) (size-lt s.message h.message),
              size,
              within,
              slice_past 4 4 (4 + n) 8 (8 + n) o (p ++ (x ++ y)) eo (omega arith) (omega arith),
              slice_past 4 0 n 4 (4 + n) p (x ++ y) ep (omega arith) (omega arith),
              slice_first n x y ex,
              c.reads s.message h.message,
              slice_past 4 (4 + n) (4 + n + length y) (8 + n) (8 + n + length y) o (p ++ (x ++ y))
                  eo (omega arith) (omega arith),
              slice_past 4 n (n + length y) (4 + n) (4 + n + length y) p (x ++ y) ep (omega arith)
                  (omega arith),
              slice_past n 0 (length y) n (n + length y) x y ex (omega arith) refl,
              slice_whole (length y) y refl,
              d.reads s.signature (h.signatures, h.few),
            );
        canonical = λ buf s h e.
            let (size, e₀) = at_least_inv ssz_size (length buf) 8 _ e in
            let (f, e', e₁) = >>=-eq-ok (first_offset z 8 (length buf) (slice 0 4 buf)) _ e₀ in
            let (at, head) =
              first_offset-inv z lawful 8 (length buf) (slice 0 4 buf) (slice-All _ 0 4 buf h)
                (length-slice 0 4 buf (omega arith) (omega arith)) e' in
            let e₂ = rw at at e₁ in
            let m = z.read_offset (slice 4 8 buf) in
            let (lo, hi, e₃) = second_offset (length buf) m _ e₂ in
            let (x, ex, e₄) = >>=-eq-ok (unmarshal_block_with_attestation z (slice 8 m buf)) _ e₃ in
            let (y, ey, e₅) =
              >>=-eq-ok (unmarshal_list z unmarshal_signature 3112 4096 (slice m (length buf) buf))
                _ e₄ in
            let (fx, bx) = c.canonical (slice 8 m buf) x (slice-All _ 8 m buf h) ex in
            let (fy, by) =
              d.canonical (slice m (length buf) buf) y (slice-All _ m (length buf) buf h) ey in
            let (first, second) : (8 + size_block_with_attestation x ≡ m)
                × (le_bytes 4 m ≡ slice 4 8 buf) =
              (
                omega (
                  arith,
                  sym (c.length-bytes x fx),
                  ap length bx,
                  length-slice 8 m buf lo hi,
                  lo,
                ),
                offset-canonical z lawful (slice 4 8 buf) (slice-All _ 4 8 buf h)
                    (length-slice 4 8 buf (omega arith) size),
              ) in
            rw (sym (ok_inj _ s e₅)) (
              record { message = fx; signatures = fy.0; few = fy.1 },
              rw
                  (
                    head,
                    first,
                    second,
                    bx,
                    by,
                    slice_join 8 m (length buf) buf lo hi,
                    slice_join 4 8 (length buf) buf (omega arith) size,
                  )
                  (slices-whole 4 (length buf) buf (omega arith) refl),
            );
      }
