-- ===== src/Ssz/Votes/RoundTrip.antt =====
-- Attestations are encoded without loss.
use mathlib.Core.List.{append_assoc}
use gean.Base.{
  ◌≡◌, sym, ◌∙◌, ◌++◌, length, length-append, >>=-eq-ok, arith, slice, slice_first, slice_whole,
  slice_behind, slice_join, length-slice, slice-All, le_bytes, length-le_bytes,
}
use gean.Types.Containers.{AttestationData}
use gean.Ssz.{Ssz, IsLawful}
use gean.Ssz.Codec.{IsCodec, word-reads, word-canonical, sized_ok, sized_inv, ok_inj, slices-whole}
use gean.Ssz.Votes.{
  unmarshal_checkpoint, marshal_attestation_data, unmarshal_attestation_data, marshal_attestation,
  unmarshal_attestation, marshal_signed_attestation, unmarshal_signed_attestation,
}
use gean.Ssz.Fits.{
  FitsAttestationData, FitsAttestation, FitsSignedAttestation, checkpoint_bytes,
  attestation_data_bytes, attestation_bytes, signed_attestation_bytes,
}
use gean.Ssz.Votes.Small.{checkpoint-IsCodec}

module _ (z : Ssz) (lawful : IsLawful z) where
  length-attestation_data_bytes :
      (a : AttestationData) → FitsAttestationData a → length (attestation_data_bytes a) ≡ 128
  unfolding attestation_data_bytes
  length-attestation_data_bytes a h =
      let c = (checkpoint-IsCodec z lawful).length-bytes in
      omega (
        arith,
        length-append (le_bytes 8 a.slot)
            (checkpoint_bytes a.head ++ (checkpoint_bytes a.target ++ checkpoint_bytes a.source)),
        length-append (checkpoint_bytes a.head)
            (checkpoint_bytes a.target ++ checkpoint_bytes a.source),
        length-append (checkpoint_bytes a.target) (checkpoint_bytes a.source),
        length-le_bytes 8 a.slot,
        c a.head h.head,
        c a.target h.target,
        c a.source h.source,
      )

  pub attestation_data-IsCodec :
      IsCodec
        (marshal_attestation_data z)
        (unmarshal_attestation_data z)
        FitsAttestationData
        (λ a. 128)
        attestation_data_bytes
  unfolding marshal_attestation_data unmarshal_attestation_data attestation_data_bytes
  attestation_data-IsCodec =
      let c = checkpoint-IsCodec z lawful in
      record {
        appends = λ buf a h.
            let w = le_bytes 8 a.slot in
            rw
              (
                lawful.marshal_uint64-exact buf a.slot,
                c.appends (buf ++ w) a.head h.head,
                c.appends (buf ++ w ++ checkpoint_bytes a.head) a.target h.target,
                c.appends (buf ++ w ++ checkpoint_bytes a.head ++ checkpoint_bytes a.target)
                    a.source h.source,
              )
              (simp append_assoc);
        length-bytes = length-attestation_data_bytes;
        reads = λ a h.
            let w = le_bytes 8 a.slot in
            let x = checkpoint_bytes a.head in
            let y = checkpoint_bytes a.target in
            let v = checkpoint_bytes a.source in
            let ew = length-le_bytes 8 a.slot in
            let ex = c.length-bytes a.head h.head in
            let ey = c.length-bytes a.target h.target in
            let ev = c.length-bytes a.source h.source in
            sized_ok _ 128 _ (length-attestation_data_bytes a h)
            ∙ rw (
              slice_behind 8 0 40 w (x ++ (y ++ v)) ew,
              slice_first 40 x (y ++ v) ex,
              c.reads a.head h.head,
              slice_behind 8 40 80 w (x ++ (y ++ v)) ew,
              slice_behind 40 0 40 x (y ++ v) ex,
              slice_first 40 y v ey,
              c.reads a.target h.target,
              slice_behind 8 80 120 w (x ++ (y ++ v)) ew,
              slice_behind 40 40 80 x (y ++ v) ex,
              slice_behind 40 0 40 y v ey,
              slice_whole 40 v ev,
              c.reads a.source h.source,
              slice_first 8 w (x ++ (y ++ v)) ew,
              word-reads z lawful a.slot h.slot,
            );
        canonical = λ buf a h e.
            let (size, e₀) = sized_inv (length buf) 128 _ e in
            let (x, ex, e₁) = >>=-eq-ok (unmarshal_checkpoint z (slice 8 48 buf)) _ e₀ in
            let (y, ey, e₂) = >>=-eq-ok (unmarshal_checkpoint z (slice 48 88 buf)) _ e₁ in
            let (v, ev, e₃) = >>=-eq-ok (unmarshal_checkpoint z (slice 88 128 buf)) _ e₂ in
            let word =
              word-canonical z lawful (slice 0 8 buf) (slice-All _ 0 8 buf h)
                (length-slice 0 8 buf (omega arith) (omega (arith, size))) in
            let (fx, bx) = c.canonical (slice 8 48 buf) x (slice-All _ 8 48 buf h) ex in
            let (fy, by) = c.canonical (slice 48 88 buf) y (slice-All _ 48 88 buf h) ey in
            let (fv, bv) = c.canonical (slice 88 128 buf) v (slice-All _ 88 128 buf h) ev in
            rw (sym (ok_inj _ a e₃)) (
              record { slot = word.0; head = fx; target = fy; source = fv },
              rw
                  (
                    word.1,
                    bx,
                    by,
                    bv,
                    slice_join 48 88 128 buf (omega arith) (omega arith),
                    slice_join 8 48 128 buf (omega arith) (omega arith),
                  )
                  (slices-whole 8 128 buf (omega arith) size),
            );
      }

  -- A word in front of one part.
  pub attestation-IsCodec :
      IsCodec
        (marshal_attestation z)
        (unmarshal_attestation z)
        FitsAttestation
        (λ a. 136)
        attestation_bytes
  unfolding marshal_attestation unmarshal_attestation attestation_bytes
  attestation-IsCodec =
      let c = attestation_data-IsCodec in
      record {
        appends = λ buf a h.
            rw
              (
                lawful.marshal_uint64-exact buf a.validator_id,
                c.appends (buf ++ le_bytes 8 a.validator_id) a.att_data h.att_data,
              )
              (simp append_assoc);
        length-bytes = λ a h. omega (
          arith,
          length-append (le_bytes 8 a.validator_id) (attestation_data_bytes a.att_data),
          length-le_bytes 8 a.validator_id,
          c.length-bytes a.att_data h.att_data,
        );
        reads = λ a h.
            let w = le_bytes 8 a.validator_id in
            let x = attestation_data_bytes a.att_data in
            let ew = length-le_bytes 8 a.validator_id in
            let ex = c.length-bytes a.att_data h.att_data in
            sized_ok (length (attestation_bytes a)) 136 _ (omega (arith, length-append w x, ew, ex))
            ∙ rw (
              slice_behind 8 0 128 w x ew,
              slice_whole 128 x ex,
              c.reads a.att_data h.att_data,
              slice_first 8 w x ew,
              word-reads z lawful a.validator_id h.validator_id,
            );
        canonical = λ buf a h e.
            let (size, e₀) = sized_inv (length buf) 136 _ e in
            let (x, ex, e₁) = >>=-eq-ok (unmarshal_attestation_data z (slice 8 136 buf)) _ e₀ in
            let word =
              word-canonical z lawful (slice 0 8 buf) (slice-All _ 0 8 buf h)
                (length-slice 0 8 buf (omega arith) (omega (arith, size))) in
            let (fx, bx) = c.canonical (slice 8 136 buf) x (slice-All _ 8 136 buf h) ex in
            rw (sym (ok_inj _ a e₁)) (
              record { validator_id = word.0; att_data = fx },
              rw (word.1, bx) (slices-whole 8 136 buf (omega arith) size),
            );
      }

  -- Signed attestations are encoded and decoded without loss: every one that fits Go's types is
  -- read back from its bytes, whose number is that of SizeSSZ, and any bytes that an attestation is
  -- read from are the bytes of that attestation.
  pub signed_attestation-IsCodec :
      IsCodec
        (marshal_signed_attestation z)
        (unmarshal_signed_attestation z)
        FitsSignedAttestation
        (λ s. 3248)
        signed_attestation_bytes
  unfolding marshal_signed_attestation unmarshal_signed_attestation signed_attestation_bytes
  signed_attestation-IsCodec =
      let c = attestation_data-IsCodec in
      record {
        appends = λ buf s h.
            rw
              (
                lawful.marshal_uint64-exact buf s.validator_id,
                c.appends (buf ++ le_bytes 8 s.validator_id) s.message h.message,
              )
              (simp append_assoc);
        length-bytes = λ s h. omega (
          arith,
          length-append (le_bytes 8 s.validator_id)
              (attestation_data_bytes s.message ++ s.signature),
          length-append (attestation_data_bytes s.message) s.signature,
          length-le_bytes 8 s.validator_id,
          c.length-bytes s.message h.message,
          h.signature,
        );
        reads = λ s h.
            let w = le_bytes 8 s.validator_id in
            let x = attestation_data_bytes s.message in
            let y = s.signature in
            let ew = length-le_bytes 8 s.validator_id in
            let ex = c.length-bytes s.message h.message in
            sized_ok (length (signed_attestation_bytes s)) 3248 _
              (omega (arith, length-append w (x ++ y), length-append x y, ew, ex, h.signature))
            ∙ rw (
              slice_behind 8 0 128 w (x ++ y) ew,
              slice_first 128 x y ex,
              c.reads s.message h.message,
              slice_behind 8 128 3240 w (x ++ y) ew,
              slice_behind 128 0 3112 x y ex,
              slice_whole 3112 y h.signature,
              slice_first 8 w (x ++ y) ew,
              word-reads z lawful s.validator_id h.validator_id,
            );
        canonical = λ buf s h e.
            let (size, e₀) = sized_inv (length buf) 3248 _ e in
            let (x, ex, e₁) = >>=-eq-ok (unmarshal_attestation_data z (slice 8 136 buf)) _ e₀ in
            let word =
              word-canonical z lawful (slice 0 8 buf) (slice-All _ 0 8 buf h)
                (length-slice 0 8 buf (omega arith) (omega (arith, size))) in
            let (fx, bx) = c.canonical (slice 8 136 buf) x (slice-All _ 8 136 buf h) ex in
            rw (sym (ok_inj _ s e₁)) (
              record {
                validator_id = word.0;
                message = fx;
                signature = length-slice 136 3248 buf (omega arith) (omega (arith, size));
              },
              rw (word.1, bx, slice_join 8 136 3248 buf (omega arith) (omega arith))
                  (slices-whole 8 3248 buf (omega arith) size),
            );
      }
