-- ===== src/Ssz/States.antt =====
-- types/state_encoding.go: the consensus state, whose fixed part holds five offsets.
pub mod Parts
pub mod Places
pub mod RoundTrip
use gean.Base.{
  ℕ, ◌+◌, ◌*◌, List, ◌++◌, Bool, ◌||◌, length, ltb, if◌then◌else◌, slice, Run, ok, err, ◌>>=◌,
  ssz_size, ssz_offset, ssz_bitlist, ssz_bytes_length,
}
use gean.Types.Containers.{Root, State}
use gean.Ssz.{Ssz}
use gean.Ssz.Items.{marshal_list, unmarshal_list, first_offset}
use gean.Ssz.Votes.{
  marshal_checkpoint, unmarshal_checkpoint, marshal_config, unmarshal_config, marshal_validator,
  unmarshal_validator, marshal_header, unmarshal_header,
}

-- `offset` where the offsets of the lists are written.
unfoldable pub offset_slots : State → ℕ
offset_slots s = 228 + length s.historical_block_hashes * 32

unfoldable pub offset_validators : State → ℕ
offset_validators s = offset_slots s + length s.justified_slots

unfoldable pub offset_roots : State → ℕ
offset_roots s = offset_validators s + length s.validators * 60

unfoldable pub offset_votes : State → ℕ
offset_votes s = offset_roots s + length s.justifications_roots * 32

unfoldable pub size_state : State → ℕ
size_state s =
    228
    + length s.historical_block_hashes * 32
    + length s.justified_slots
    + length s.validators * 60
    + length s.justifications_roots * 32
    + length s.justifications_validators

-- `dst = append(dst, s.HistoricalBlockHashes[ii][:]...)`, and its `copy`.
unfoldable pub marshal_root : List ℕ → Root → Run (List ℕ)
marshal_root buf r = ok (buf ++ r)

unfoldable pub unmarshal_root : List ℕ → Run Root
unmarshal_root buf = ok buf

-- The check of a byte slice against its limit, and `append`.
unfoldable pub marshal_bytes : ℕ → List ℕ → List ℕ → Run (List ℕ)
marshal_bytes max buf bs = if ltb max (length bs) then err ssz_bytes_length else ok (buf ++ bs)

module _ (z : Ssz) where
  unfoldable pub unmarshal_bitlist : ℕ → List ℕ → Run (List ℕ)
  unmarshal_bitlist max bs = if z.validate_bitlist bs max then ok bs else err ssz_bitlist

  -- An offset behind the first: `if o = ssz.ReadOffset(bs); o > size || before > o`.
  unfoldable pub next_offset : ℕ → ℕ → List ℕ → Run ℕ
  next_offset size before bs =
      let o = z.read_offset bs in if ltb size o || ltb o before then err ssz_offset else ok o

  unfoldable pub marshal_state : List ℕ → State → Run (List ℕ)
  marshal_state buf s = marshal_config z buf s.config >>= λ d₀.
      marshal_header z (z.marshal_uint64 d₀ s.slot) s.latest_block_header >>= λ d₁.
      marshal_checkpoint z d₁ s.latest_justified >>= λ d₂.
      marshal_checkpoint z d₂ s.latest_finalized >>= λ d₃.
      let d₄ = z.write_offset (z.write_offset d₃ 228) (offset_slots s) in
      let d₅ = z.write_offset (z.write_offset d₄ (offset_validators s)) (offset_roots s) in
      marshal_list marshal_root 262144 (z.write_offset d₅ (offset_votes s))
        s.historical_block_hashes
      >>= λ d₆. marshal_bytes 262144 d₆ s.justified_slots >>= λ d₇.
          marshal_list (marshal_validator z) 4096 d₇ s.validators >>= λ d₈.
          marshal_list marshal_root 262144 d₈ s.justifications_roots >>= λ d₉.
          marshal_bytes 1073741824 d₉ s.justifications_validators

  unfoldable pub unmarshal_state : List ℕ → Run State
  unmarshal_state buf =
      let size = length buf in
      if ltb size 228
      then err ssz_size
      else unmarshal_config z (slice 0 8 buf) >>= λ config.
          unmarshal_header z (slice 16 128 buf) >>= λ header.
          unmarshal_checkpoint z (slice 128 168 buf) >>= λ justified.
          unmarshal_checkpoint z (slice 168 208 buf) >>= λ finalized.
          first_offset z 228 size (slice 208 212 buf) >>= λ o₅.
          next_offset size o₅ (slice 212 216 buf) >>= λ o₆.
          next_offset size o₆ (slice 216 220 buf) >>= λ o₇.
          next_offset size o₇ (slice 220 224 buf) >>= λ o₈.
          next_offset size o₈ (slice 224 228 buf) >>= λ o₉.
          unmarshal_list z unmarshal_root 32 262144 (slice o₅ o₆ buf) >>= λ hashes.
          unmarshal_bitlist 262144 (slice o₆ o₇ buf) >>= λ slots.
          unmarshal_list z (unmarshal_validator z) 60 4096 (slice o₇ o₈ buf) >>= λ validators.
          unmarshal_list z unmarshal_root 32 262144 (slice o₈ o₉ buf) >>= λ roots.
          unmarshal_bitlist 1073741824 (slice o₉ size buf) >>= λ votes. ok (record {
            config = config;
            slot = z.unmarshal_uint64 (slice 8 16 buf);
            latest_block_header = header;
            latest_justified = justified;
            latest_finalized = finalized;
            historical_block_hashes = hashes;
            justified_slots = slots;
            validators = validators;
            justifications_roots = roots;
            justifications_validators = votes;
          })
