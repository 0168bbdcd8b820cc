-- ===== src/Network/Gossip/RoundTrip.antt =====
-- What nodes publish arrives.
use mathlib.Core.List.{append_assoc}
use gean.Base.{
  ℕ, ◌+◌, ◌^◌, ◌<◌, ◌≤◌, ◌≡◌, refl, sym, ap, ◌∙◌, List, [], ◌++◌, length, length-append, ok,
  bits_missing, bits_too_long, message_short, data_too_long, ◌>>=◌, >>=-eq-ok, arith, Bytes, slice,
  slice_first, slice_whole, slice_behind, slice_past, slice_join, length-slice, slice-All, le_bytes,
  le_value, length-le_bytes, le_value-le_bytes, le_bytes-le_value, le_value-lt,
}
use gean.Types.Containers.{AttestationData, AggregatedAttestation}
use gean.Ssz.{Ssz, IsLawful}
use gean.Ssz.Codec.{ok_inj, slices-whole}
use gean.Ssz.Lists.{at_least_ok, at_least_inv}
use gean.Ssz.Fits.{FitsAttestationData, attestation_data_bytes}
use gean.Ssz.Votes.{unmarshal_attestation_data}
use gean.Ssz.Votes.RoundTrip.{attestation_data-IsCodec}
use gean.Network.Gossip.{encode_aggregated, decode_aggregated, decode_bits}

unfoldable pub aggregated_bytes : AggregatedAttestation → List ℕ
aggregated_bytes agg =
    le_bytes 4 128
    ++ (attestation_data_bytes agg.att_data
        ++ (le_bytes 4 (length agg.aggregation_bits)
            ++ (agg.aggregation_bits ++ agg.aggregated_signature)))

-- The lengths fit in 32 bits.
pub record FitsAggregated (agg : AggregatedAttestation) : Type 0 where
  pub att_data : FitsAttestationData agg.att_data
  pub bits : length agg.aggregation_bits < 2 ^ 32

module _ (z : Ssz) (lawful : IsLawful z) where
  pub encode_aggregated_lem :
      (agg : AggregatedAttestation)
      → FitsAggregated agg
      → encode_aggregated z agg ≡ ok (aggregated_bytes agg)
  unfolding encode_aggregated aggregated_bytes
  encode_aggregated_lem agg h =
      let c = attestation_data-IsCodec z lawful in
      rw (c.appends [] agg.att_data h.att_data, c.length-bytes agg.att_data h.att_data)
        (simp append_assoc)

  -- Where `l`, `d`, `m` and `b` are the lengths and what they count.
  length-parts :
      (l d m b s : List ℕ)
      → length l ≡ 4
      → length d ≡ 128
      → length m ≡ 4
      → length (l ++ (d ++ (m ++ (b ++ s)))) ≡ 136 + length b + length s
  length-parts l d m b s el ed em = omega (
    arith,
    el,
    ed,
    em,
    length-append l (d ++ (m ++ (b ++ s))),
    length-append d (m ++ (b ++ s)),
    length-append m (b ++ s),
    length-append b s,
  )

  decode_bits_lem :
      (l d m b s : List ℕ) (ad : AttestationData)
      → length l ≡ 4
      → length d ≡ 128
      → m ≡ le_bytes 4 (length b)
      → length b < 2 ^ 32
      → decode_bits z (l ++ (d ++ (m ++ (b ++ s)))) 132 ad
        ≡ ok (record { att_data = ad; aggregation_bits = b; aggregated_signature = s })
  unfolding decode_bits
  decode_bits_lem l d m b s ad el ed e h =
      let n = length b in
      let em : length m ≡ 4 = rw e (length-le_bytes 4 n) in
      let size = length-parts l d m b s el ed em in
      let whole = l ++ (d ++ (m ++ (b ++ s))) in
      let past = λ (i j a a' : ℕ) (e₀ : a ≡ 132 + i) (e₁ : a' ≡ 132 + j).
        slice_past 4 (128 + i) (128 + j) a a' l (d ++ (m ++ (b ++ s))) el (omega arith)
          (omega arith)
        ∙ slice_past 128 i j (128 + i) (128 + j) d (m ++ (b ++ s)) ed refl refl in
      let count : slice 132 136 whole ≡ m =
        past 0 4 132 136 refl refl ∙ slice_first 4 m (b ++ s) em in
      let value : le_value m ≡ n = rw e (le_value-le_bytes 4 n (omega arith)) in
      let bits : slice 136 (136 + n) whole ≡ b =
        past 4 (4 + n) 136 (136 + n) (omega arith) (omega arith)
        ∙ slice_past 4 0 n 4 (4 + n) m (b ++ s) em refl refl
        ∙ slice_first n b s refl in
      let rest : slice (136 + n) (136 + n + length s) whole ≡ s =
        past (4 + n) (4 + n + length s) (136 + n) (136 + n + length s) (omega arith) (omega arith)
        ∙ slice_past 4 n (n + length s) (4 + n) (4 + n + length s) m (b ++ s) em (omega arith)
            (omega arith)
        ∙ slice_past n 0 (length s) n (n + length s) b s refl (omega arith) refl
        ∙ slice_whole (length s) s refl in
      at_least_ok bits_missing (length whole) 136 _ (omega (arith, size))
      ∙ rw (count, value)
          (at_least_ok bits_too_long (length whole) (136 + n) _ (omega (arith, size))
            ∙ rw (bits, size, rest))

  pub decode_aggregated_lem :
      (agg : AggregatedAttestation)
      → FitsAggregated agg
      → decode_aggregated z (aggregated_bytes agg) ≡ ok agg
  unfolding decode_aggregated aggregated_bytes
  decode_aggregated_lem agg h =
      let c = attestation_data-IsCodec z lawful in
      let l = le_bytes 4 128 in
      let d = attestation_data_bytes agg.att_data in
      let b = agg.aggregation_bits in
      let m = le_bytes 4 (length b) in
      let s = agg.aggregated_signature in
      let el = length-le_bytes 4 128 in
      let ed = c.length-bytes agg.att_data h.att_data in
      let size = length-parts l d m b s el ed (length-le_bytes 4 (length b)) in
      at_least_ok message_short (length (aggregated_bytes agg)) 8 _ (omega (arith, size))
      ∙ rw (slice_first 4 l (d ++ (m ++ (b ++ s))) el, le_value-le_bytes 4 128 (omega arith))
          (at_least_ok data_too_long (length (aggregated_bytes agg)) 132 _ (omega (arith, size))
            ∙ rw
                (
                  slice_behind 4 0 128 l (d ++ (m ++ (b ++ s))) el,
                  slice_first 128 d (m ++ (b ++ s)) ed,
                  c.reads agg.att_data h.att_data,
                )
                (decode_bits_lem l d m b s agg.att_data el ed refl h.bits))

  decode_bits_inv :
      (bs : List ℕ) (offset : ℕ) (ad : AttestationData) (agg : AggregatedAttestation)
      → Bytes bs
      → decode_bits z bs offset ad ≡ ok agg
      → (agg.att_data ≡ ad)
        × (length agg.aggregation_bits < 2 ^ 32)
        × (offset ≤ length bs)
        × (le_bytes 4 (length agg.aggregation_bits)
              ++ (agg.aggregation_bits ++ agg.aggregated_signature)
            ≡ slice offset (length bs) bs)
  unfolding decode_bits
  decode_bits_inv bs offset ad agg h e =
      let len = length bs in
      let (le₁, e₁) = at_least_inv bits_missing len (offset + 4) _ e in
      let word = slice offset (offset + 4) bs in
      let four : length word ≡ 4 =
        length-slice offset (offset + 4) bs (omega arith) le₁ ∙ omega arith in
      let fits = le_value-lt word (slice-All _ offset (offset + 4) bs h) in
      let back = le_bytes-le_value word (slice-All _ offset (offset + 4) bs h) in
      let start = offset + 4 in
      let end = start + le_value word in
      let (le₂, e₂) = at_least_inv bits_too_long len end _ e₁ in
      let count : length (slice start end bs) ≡ le_value word =
        length-slice start end bs (omega arith) le₂ ∙ omega arith in
      rw (sym (ok_inj _ agg e₂)) (
        refl,
        omega (arith, count, rw four at fits),
        omega (arith, le₁),
        rw (
          count,
          rw four at back,
          slice_join start end len bs (omega arith) le₂,
          slice_join offset start len bs (omega arith) le₁,
        ),
      )

  pub decode_aggregated_inv :
      (bs : List ℕ) (agg : AggregatedAttestation)
      → Bytes bs
      → decode_aggregated z bs ≡ ok agg
      → FitsAggregated agg × (aggregated_bytes agg ≡ bs)
  unfolding decode_aggregated aggregated_bytes
  decode_aggregated_inv bs agg h e =
      let c = attestation_data-IsCodec z lawful in
      let len = length bs in
      let (le₁, e₁) = at_least_inv message_short len 8 _ e in
      let word = slice 0 4 bs in
      let four = length-slice 0 4 bs (omega arith) (omega arith) in
      let back = le_bytes-le_value word (slice-All _ 0 4 bs h) in
      let end = 4 + le_value word in
      let (le₂, e₂) = at_least_inv data_too_long len end _ e₁ in
      let (ad, ead, e₃) = >>=-eq-ok (unmarshal_attestation_data z (slice 4 end bs)) _ e₂ in
      let (fits, same) = c.canonical (slice 4 end bs) ad (slice-All _ 4 end bs h) ead in
      let count : le_value word ≡ 128 = omega (
        arith,
        sym (c.length-bytes ad fits),
        ap length same,
        length-slice 4 end bs (omega arith) le₂,
      ) in
      let (ea, bits, le₃, tail) = decode_bits_inv bs end ad agg h e₃ in
      let head : le_bytes 4 128 ≡ word = rw (← count) (rw four at back) in
      (
        record { att_data = rw ea fits; bits = bits },
        rw (ea, head, same, tail, slice_join 4 end len bs (omega arith) le₂)
            (slices-whole 4 len bs (omega arith) refl),
      )

  -- An aggregated attestation whose data fits Go's types and whose bits are fewer than 2^32 bytes is
  -- decoded from its encoding.
  pub decode-encode_aggregated :
      (agg : AggregatedAttestation)
      → FitsAggregated agg
      → (encode_aggregated z agg >>= decode_aggregated z) ≡ ok agg
  decode-encode_aggregated agg h = rw (encode_aggregated_lem agg h) (decode_aggregated_lem agg h)

  -- A message of bytes that is decoded to an aggregated attestation is what that attestation is
  -- encoded to: no two messages are decoded to one attestation.
  pub encode-decode_aggregated :
      (bs : List ℕ) (agg : AggregatedAttestation)
      → Bytes bs
      → decode_aggregated z bs ≡ ok agg
      → encode_aggregated z agg ≡ ok bs
  encode-decode_aggregated bs agg h e =
      let (fits, same) = decode_aggregated_inv bs agg h e in
      encode_aggregated_lem agg fits ∙ ap ok same
