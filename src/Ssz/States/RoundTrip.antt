-- ===== src/Ssz/States/RoundTrip.antt =====
-- States are encoded without loss.
use mathlib.Core.List.{append_assoc, append-nil}
use gean.Base.{
  ℕ, ◌^◌, ◌<◌, ◌≤◌, ◌≡◌, ◌∙◌, List, [], ◌++◌, ◌||◌, false, length, ltb, ok, ◌>>=◌, arith, le_bytes,
  ssz_size,
}
use gean.Types.Containers.{State}
use gean.Ssz.{Ssz, IsLawful}
use gean.Ssz.Codec.{word-reads}
use gean.Ssz.Lists.{at_least_ok, offset-reads, first_offset-reads, list-IsCodec, item}
use gean.Ssz.Votes.Small.{config-IsCodec, header-IsCodec, checkpoint-IsCodec, validator-IsCodec}
use gean.Ssz.States.{
  offset_slots, offset_validators, offset_roots, offset_votes, size_state, marshal_bytes,
  unmarshal_bitlist, next_offset, marshal_state, unmarshal_state,
}
use gean.Ssz.States.Parts.{FitsState, join, state_bytes}
use gean.Ssz.States.Places.{root-IsItem, length-state_bytes, places, ordered}

module _ (z : Ssz) (lawful : IsLawful z) where
  marshal_bytes_lem :
      (max : ℕ) (buf bs : List ℕ) → length bs ≤ max → marshal_bytes max buf bs ≡ ok (buf ++ bs)
  unfolding marshal_bytes
  marshal_bytes_lem max buf bs h =
      let small : ltb max (length bs) ≡ false = ground arith in rw small

  next_offset-reads :
      (n size before : ℕ)
      → n < 256 ^ 4
      → before ≤ n
      → n ≤ size
      → next_offset z size before (le_bytes 4 n) ≡ ok n
  unfolding next_offset
  next_offset-reads n size before h k k' =
      let within : (ltb size n || ltb n before) ≡ false = ground arith in
      rw (offset-reads z lawful n h, within)

  module _ (s : State) (h : FitsState s) where
    state_bytes_lem : marshal_state z [] s ≡ ok (state_bytes s)
    unfolding marshal_state state_bytes join
    state_bytes_lem =
        let g = config-IsCodec z lawful in
        let k = header-IsCodec z lawful in
        let c = checkpoint-IsCodec z lawful in
        let r = list-IsCodec z lawful 32 (root-IsItem z lawful) 262144 (omega arith) in
        let v = list-IsCodec z lawful 60 (item (validator-IsCodec z lawful)) 4096 (omega arith) in
        let word = lawful.marshal_uint64-exact in
        rw
          (
            g.appends [] s.config h.genesis_time,
            word _ s.slot,
            k.appends _ s.latest_block_header h.header,
            c.appends _ s.latest_justified h.justified,
            c.appends _ s.latest_finalized h.finalized,
            lawful.write_offset-exact _ 228,
            lawful.write_offset-exact _ (offset_slots s),
            lawful.write_offset-exact _ (offset_validators s),
            lawful.write_offset-exact _ (offset_roots s),
            lawful.write_offset-exact _ (offset_votes s),
            r.appends _ s.historical_block_hashes (h.hashes, h.few_hashes),
            marshal_bytes_lem 262144 _ s.justified_slots
                (omega (arith, h.slots-IsBitlist.size, h.few_slots)),
            v.appends _ s.validators (h.validators, h.few_validators),
            r.appends _ s.justifications_roots (h.roots, h.few_roots),
            marshal_bytes_lem 1073741824 _ s.justifications_validators
                (omega (arith, h.votes-IsBitlist.size, h.few_votes)),
          )
          (simp (append_assoc, append-nil))

    unmarshal-state_bytes : unmarshal_state z (state_bytes s) ≡ ok s
    unfolding unmarshal_state unmarshal_bitlist
    unmarshal-state_bytes =
        let g = config-IsCodec z lawful in
        let k = header-IsCodec z lawful in
        let c = checkpoint-IsCodec z lawful in
        let r = list-IsCodec z lawful 32 (root-IsItem z lawful) 262144 (omega arith) in
        let v = list-IsCodec z lawful 60 (item (validator-IsCodec z lawful)) 4096 (omega arith) in
        let at = places z lawful s h in
        let o = ordered z lawful s h in
        let size = length-state_bytes z lawful s h in
        let next = next_offset-reads in
        at_least_ok ssz_size (length (state_bytes s)) 228 _ (omega (arith, size, o))
        ∙ rw (
          size,
          at.config,
          g.reads s.config h.genesis_time,
          at.header,
          k.reads s.latest_block_header h.header,
          at.justified,
          c.reads s.latest_justified h.justified,
          at.finalized,
          c.reads s.latest_finalized h.finalized,
          at.first,
          first_offset-reads z lawful 228 (size_state s) (omega arith) (omega (arith, o)),
          at.second,
          next (offset_slots s) (size_state s) 228 (omega (arith, o)) o.slots (omega (arith, o)),
          at.third,
          next (offset_validators s) (size_state s) (offset_slots s) (omega (arith, o)) o.validators
              (omega (arith, o)),
          at.fourth,
          next (offset_roots s) (size_state s) (offset_validators s) (omega (arith, o)) o.roots
              (omega (arith, o)),
          at.fifth,
          next (offset_votes s) (size_state s) (offset_roots s) (omega (arith, o)) o.votes o.within,
          at.hashes,
          r.reads s.historical_block_hashes (h.hashes, h.few_hashes),
          at.slots,
          lawful.validate-IsBitlist h.slots s.justified_slots 262144 h.slots-IsBitlist h.few_slots,
          at.validators,
          v.reads s.validators (h.validators, h.few_validators),
          at.roots,
          r.reads s.justifications_roots (h.roots, h.few_roots),
          at.votes,
          lawful.validate-IsBitlist h.votes s.justifications_validators 1073741824 h.votes-IsBitlist
              h.few_votes,
          at.slot,
          word-reads z lawful s.slot h.slot,
        )

  -- A state that fits Go's types and the limits of its lists, and whose byte slices are bitlists of
  -- at most as many bits, is read back from its encoding, whose length is that of SizeSSZ.
  pub unmarshal-marshal_state :
      (s : State)
      → FitsState s
      → ((marshal_state z [] s >>= unmarshal_state z) ≡ ok s)
        × (length (state_bytes s) ≡ size_state s)
        × (marshal_state z [] s ≡ ok (state_bytes s))
  unmarshal-marshal_state s h =
      let written = state_bytes_lem s h in
      (rw written (unmarshal-state_bytes s h), length-state_bytes z lawful s h, written)
