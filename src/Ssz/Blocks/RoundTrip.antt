-- ===== src/Ssz/Blocks/RoundTrip.antt =====
-- Block bodies and blocks are encoded without loss.
use mathlib.Core.List.{append_assoc}
use gean.Base.{
  ℕ, ◌+◌, ◌-◌, ◌≤◌, ◌≡◌, refl, sym, ◌∙◌, List, ◌++◌, length, length-append, >>=-eq-ok, arith, slice,
  slice_first, slice_whole, slice_behind, slice_past, slice_join, length-slice, slice-All, le_bytes,
  length-le_bytes, ssz_size,
}
use gean.Types.Containers.{Block}
use gean.Ssz.{Ssz, IsLawful}
use gean.Ssz.Codec.{IsCodec, word-reads, word-canonical, ok_inj, slices-whole}
use gean.Ssz.Items.{first_offset, unmarshal_list}
use gean.Ssz.Lists.{
  joined, at_least_ok, at_least_inv, first_offset-reads, first_offset-inv, list-IsCodec, item,
}
use gean.Ssz.Fits.{attestation_bytes}
use gean.Ssz.Votes.{unmarshal_attestation}
use gean.Ssz.Votes.RoundTrip.{attestation-IsCodec}
use gean.Ssz.Blocks.{
  size_body, size_block, marshal_body, unmarshal_body, marshal_block, unmarshal_block,
}
use gean.Ssz.Blocks.Fits.{FitsBody, FitsBlock, body_bytes, block_bytes}

module _ (z : Ssz) (lawful : IsLawful z) where
  pub body-IsCodec : IsCodec (marshal_body z) (unmarshal_body z) FitsBody size_body body_bytes
  unfolding marshal_body unmarshal_body size_body body_bytes
  body-IsCodec =
      let c = list-IsCodec z lawful 136 (item (attestation-IsCodec z lawful)) 4096 (omega arith) in
      let ew = length-le_bytes 4 4 in
      record {
        appends = λ buf b h.
            rw
              (
                lawful.write_offset-exact buf 4,
                c.appends (buf ++ le_bytes 4 4) b.attestations (h.attestations, h.few),
              )
              (simp append_assoc);
        length-bytes = λ b h. omega (
          arith,
          ew,
          length-append (le_bytes 4 4) (joined attestation_bytes b.attestations),
          c.length-bytes b.attestations (h.attestations, h.few),
        );
        reads = λ b h.
            let x = joined attestation_bytes b.attestations in
            let ex = c.length-bytes b.attestations (h.attestations, h.few) in
            let size : length (body_bytes b) ≡ 4 + length x =
              omega (arith, ew, length-append (le_bytes 4 4) x) in
            at_least_ok ssz_size (length (body_bytes b)) 4 _ (omega (arith, size))
            ∙ rw (
              slice_first 4 (le_bytes 4 4) x ew,
              first_offset-reads z lawful 4 (length (body_bytes b)) (omega arith)
                  (omega (arith, size)),
              size,
              slice_behind 4 0 (length x) (le_bytes 4 4) x ew,
              slice_whole (length x) x refl,
              c.reads b.attestations (h.attestations, h.few),
            );
        canonical = λ buf b h e.
            let (size, e₀) = at_least_inv ssz_size (length buf) 4 _ e in
            let (o, eo, e₁) = >>=-eq-ok (first_offset z 4 (length buf) (slice 0 4 buf)) _ e₀ in
            let (at, head) =
              first_offset-inv z lawful 4 (length buf) (slice 0 4 buf) (slice-All _ 0 4 buf h)
                (length-slice 0 4 buf (omega arith) size) eo in
            let e₂ = rw at at e₁ in
            let (xs, ex, e₃) =
              >>=-eq-ok
                (unmarshal_list z (unmarshal_attestation z) 136 4096 (slice 4 (length buf) buf)) _
                e₂ in
            let (fx, bx) =
              c.canonical (slice 4 (length buf) buf) xs (slice-All _ 4 (length buf) buf h) ex in
            rw (sym (ok_inj _ b e₃)) (
              record { attestations = fx.0; few = fx.1 },
              rw (head, bx) (slices-whole 4 (length buf) buf size refl),
            );
      }

  length-block_bytes :
      (b : Block) → FitsBlock b → length (block_bytes b) ≡ 84 + length (body_bytes b.body)
  unfolding block_bytes
  length-block_bytes b h =
      let v = le_bytes 8 b.proposer_index in
      let o = le_bytes 4 84 in
      let x = body_bytes b.body in
      omega (
        arith,
        length-append (le_bytes 8 b.slot) (v ++ (b.parent_root ++ (b.state_root ++ (o ++ x)))),
        length-append v (b.parent_root ++ (b.state_root ++ (o ++ x))),
        length-append b.parent_root (b.state_root ++ (o ++ x)),
        length-append b.state_root (o ++ x),
        length-append o x,
        length-le_bytes 8 b.slot,
        length-le_bytes 8 b.proposer_index,
        length-le_bytes 4 84,
        h.parent_root,
        h.state_root,
      )

  -- The part behind the fixed part of a block.
  tail-block :
      (n : ℕ) (w v p s o x : List ℕ)
      → length w ≡ 8
      → length v ≡ 8
      → length p ≡ 32
      → length s ≡ 32
      → length o ≡ 4
      → length x ≡ n
      → slice 84 (84 + n) (w ++ (v ++ (p ++ (s ++ (o ++ x))))) ≡ x
  tail-block n w v p s o x ew ev ep es eo ex =
      let past = λ (m a i : ℕ) (e : i ≡ m + a) (xs ys : List ℕ) (e' : length xs ≡ m).
        slice_past m a (a + n) i (i + n) xs ys e' e (omega (arith, e)) in
      past 8 76 84 (omega arith) w (v ++ (p ++ (s ++ (o ++ x)))) ew
      ∙ past 8 68 76 (omega arith) v (p ++ (s ++ (o ++ x))) ev
      ∙ past 32 36 68 (omega arith) p (s ++ (o ++ x)) ep
      ∙ past 32 4 36 (omega arith) s (o ++ x) es
      ∙ past 4 0 4 (omega arith) o x eo
      ∙ slice_whole (0 + n) x (omega (arith, ex))

  pub block-IsCodec : IsCodec (marshal_block z) (unmarshal_block z) FitsBlock size_block block_bytes
  unfolding marshal_block unmarshal_block size_block block_bytes
  block-IsCodec =
      let c = body-IsCodec in
      record {
        appends = λ buf b h.
            let w = le_bytes 8 b.slot in
            let v = le_bytes 8 b.proposer_index in
            rw
              (
                lawful.marshal_uint64-exact buf b.slot,
                lawful.marshal_uint64-exact (buf ++ w) b.proposer_index,
                lawful.write_offset-exact (buf ++ w ++ v ++ b.parent_root ++ b.state_root) 84,
                c.appends (buf ++ w ++ v ++ b.parent_root ++ b.state_root ++ le_bytes 4 84) b.body
                    h.body,
              )
              (simp append_assoc);
        length-bytes = λ b h. omega (arith, length-block_bytes b h, c.length-bytes b.body h.body);
        reads = λ b h.
            let w = le_bytes 8 b.slot in
            let v = le_bytes 8 b.proposer_index in
            let p = b.parent_root in
            let s = b.state_root in
            let o = le_bytes 4 84 in
            let x = body_bytes b.body in
            let ew = length-le_bytes 8 b.slot in
            let ev = length-le_bytes 8 b.proposer_index in
            let eo = length-le_bytes 4 84 in
            let size = length-block_bytes b h in
            let end = length x in
            at_least_ok ssz_size (length (block_bytes b)) 84 _ (omega (arith, size))
            ∙ rw (
              slice_behind 8 72 76 w (v ++ (p ++ (s ++ (o ++ x)))) ew,
              slice_behind 8 64 68 v (p ++ (s ++ (o ++ x))) ev,
              slice_behind 32 32 36 p (s ++ (o ++ x)) h.parent_root,
              slice_behind 32 0 4 s (o ++ x) h.state_root,
              slice_first 4 o x eo,
              first_offset-reads z lawful 84 (length (block_bytes b)) (omega arith)
                  (omega (arith, size)),
              size,
              tail-block end w v p s o x ew ev h.parent_root h.state_root eo refl,
              c.reads b.body h.body,
              slice_first 8 w (v ++ (p ++ (s ++ (o ++ x)))) ew,
              word-reads z lawful b.slot h.slot,
              slice_behind 8 0 8 w (v ++ (p ++ (s ++ (o ++ x)))) ew,
              slice_first 8 v (p ++ (s ++ (o ++ x))) ev,
              word-reads z lawful b.proposer_index h.proposer_index,
              slice_behind 8 8 40 w (v ++ (p ++ (s ++ (o ++ x)))) ew,
              slice_behind 8 0 32 v (p ++ (s ++ (o ++ x))) ev,
              slice_first 32 p (s ++ (o ++ x)) h.parent_root,
              slice_behind 8 40 72 w (v ++ (p ++ (s ++ (o ++ x)))) ew,
              slice_behind 8 32 64 v (p ++ (s ++ (o ++ x))) ev,
              slice_behind 32 0 32 p (s ++ (o ++ x)) h.parent_root,
              slice_first 32 s (o ++ x) h.state_root,
            );
        canonical = λ buf b h e.
            let (size, e₀) = at_least_inv ssz_size (length buf) 84 _ e in
            let (o, eo, e₁) = >>=-eq-ok (first_offset z 84 (length buf) (slice 80 84 buf)) _ e₀ in
            let (at, head) =
              first_offset-inv z lawful 84 (length buf) (slice 80 84 buf) (slice-All _ 80 84 buf h)
                (length-slice 80 84 buf (omega arith) size) eo in
            let e₂ = rw at at e₁ in
            let (x, ex, e₃) = >>=-eq-ok (unmarshal_body z (slice 84 (length buf) buf)) _ e₂ in
            let (fx, bx) =
              c.canonical (slice 84 (length buf) buf) x (slice-All _ 84 (length buf) buf h) ex in
            let word = λ (a b : ℕ) (k : a ≤ b) (k' : b ≤ 84) (eight : b - a ≡ 8).
              word-canonical z lawful (slice a b buf) (slice-All _ a b buf h)
                (length-slice a b buf k (omega arith) ∙ eight) in
            let first = word 0 8 (omega arith) (omega arith) (omega arith) in
            let second = word 8 16 (omega arith) (omega arith) (omega arith) in
            rw (sym (ok_inj _ b e₃)) (
              record {
                slot = first.0;
                proposer_index = second.0;
                parent_root = length-slice 16 48 buf (omega arith) (omega arith);
                state_root = length-slice 48 80 buf (omega arith) (omega arith);
                body = fx;
              },
              rw
                  (
                    first.1,
                    second.1,
                    head,
                    bx,
                    slice_join 80 84 (length buf) buf (omega arith) size,
                    slice_join 48 80 (length buf) buf (omega arith) (omega arith),
                    slice_join 16 48 (length buf) buf (omega arith) (omega arith),
                    slice_join 8 16 (length buf) buf (omega arith) (omega arith),
                  )
                  (slices-whole 8 (length buf) buf (omega arith) refl),
            );
      }
