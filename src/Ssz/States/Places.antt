-- ===== src/Ssz/States/Places.antt =====
-- Where the parts of a state stand in its bytes.
use gean.Base.{
  ℕ, ◌+◌, ◌*◌, ◌^◌, ◌<◌, ◌≤◌, ◌≡◌, refl, sym, ◌∙◌, List, [], ◌∷◌, ◌++◌, length, arith, slice,
  le_bytes, length-le_bytes,
}
use gean.Types.Containers.{State}
use gean.Ssz.{Ssz, IsLawful}
use gean.Ssz.Codec.{ok_inj}
use gean.Ssz.Lists.{joined, list-IsCodec, IsItem, item}
use gean.Ssz.Fits.{checkpoint_bytes, validator_bytes, header_bytes}
use gean.Ssz.Votes.Small.{header-IsCodec, checkpoint-IsCodec, validator-IsCodec}
use gean.Ssz.States.{
  offset_slots, offset_validators, offset_roots, offset_votes, size_state, marshal_root,
  unmarshal_root,
}
use gean.Ssz.States.Parts.{FitsState, total, state_parts, state_bytes, length-join, slice-join}

module _ (z : Ssz) (lawful : IsLawful z) where
  pub root-IsItem : IsItem marshal_root unmarshal_root (λ r. length r ≡ 32) 32 (λ r. r)
  unfolding marshal_root unmarshal_root
  root-IsItem = record {
    appends = λ buf r h. refl;
    length-bytes = λ r h. h;
    reads = λ r h. refl;
    canonical = λ buf r h e e'. rw (sym (ok_inj buf r e')) (e, refl);
  }

  module _ (s : State) (h : FitsState s) where
    -- The lengths of the parts.
    pub record Lengths : Type 0 where
      pub header : length (header_bytes s.latest_block_header) ≡ 112
      pub justified : length (checkpoint_bytes s.latest_justified) ≡ 40
      pub finalized : length (checkpoint_bytes s.latest_finalized) ≡ 40
      pub hashes :
          length (joined (λ r. r) s.historical_block_hashes) ≡ length s.historical_block_hashes * 32
      pub validators : length (joined validator_bytes s.validators) ≡ length s.validators * 60
      pub roots :
          length (joined (λ r. r) s.justifications_roots) ≡ length s.justifications_roots * 32

    pub lengths : Lengths
    lengths =
        let c = checkpoint-IsCodec z lawful in
        let r = list-IsCodec z lawful 32 root-IsItem 262144 (omega arith) in
        let v = list-IsCodec z lawful 60 (item (validator-IsCodec z lawful)) 4096 (omega arith) in
        record {
          header = (header-IsCodec z lawful).length-bytes s.latest_block_header h.header;
          justified = c.length-bytes s.latest_justified h.justified;
          finalized = c.length-bytes s.latest_finalized h.finalized;
          hashes = r.length-bytes s.historical_block_hashes (h.hashes, h.few_hashes);
          validators = v.length-bytes s.validators (h.validators, h.few_validators);
          roots = r.length-bytes s.justifications_roots (h.roots, h.few_roots);
        }

    pub length-state_bytes : length (state_bytes s) ≡ size_state s
    unfolding state_bytes size_state
    length-state_bytes =
        let l = lengths in
        let w = length-le_bytes 8 s.config.genesis_time in
        let u = length-le_bytes 8 s.slot in
        let a = length-le_bytes 4 228 in
        let b = length-le_bytes 4 (offset_slots s) in
        let c = length-le_bytes 4 (offset_validators s) in
        let d = length-le_bytes 4 (offset_roots s) in
        let e = length-le_bytes 4 (offset_votes s) in
        length-join (state_parts s) ∙ omega (arith, l, w, u, a, b, c, d, e)

    part :
        (before : List (List ℕ)) (x : List ℕ) (after : List (List ℕ)) (a b : ℕ)
        → state_parts s ≡ before ++ x ∷ after
        → total before ≡ a
        → a + length x ≡ b
        → slice a b (state_bytes s) ≡ x
    unfolding state_bytes
    part before x after a b e e₁ e₂ = rw e (slice-join before x after a b e₁ e₂)

    -- What stands at the places that the decoder reads.
    pub record Places : Type 0 where
      pub config : slice 0 8 (state_bytes s) ≡ le_bytes 8 s.config.genesis_time
      pub slot : slice 8 16 (state_bytes s) ≡ le_bytes 8 s.slot
      pub header : slice 16 128 (state_bytes s) ≡ header_bytes s.latest_block_header
      pub justified : slice 128 168 (state_bytes s) ≡ checkpoint_bytes s.latest_justified
      pub finalized : slice 168 208 (state_bytes s) ≡ checkpoint_bytes s.latest_finalized
      pub first : slice 208 212 (state_bytes s) ≡ le_bytes 4 228
      pub second : slice 212 216 (state_bytes s) ≡ le_bytes 4 (offset_slots s)
      pub third : slice 216 220 (state_bytes s) ≡ le_bytes 4 (offset_validators s)
      pub fourth : slice 220 224 (state_bytes s) ≡ le_bytes 4 (offset_roots s)
      pub fifth : slice 224 228 (state_bytes s) ≡ le_bytes 4 (offset_votes s)
      pub hashes :
          slice 228 (offset_slots s) (state_bytes s) ≡ joined (λ r. r) s.historical_block_hashes
      pub slots : slice (offset_slots s) (offset_validators s) (state_bytes s) ≡ s.justified_slots
      pub validators :
          slice (offset_validators s) (offset_roots s) (state_bytes s)
          ≡ joined validator_bytes s.validators
      pub roots :
          slice (offset_roots s) (offset_votes s) (state_bytes s)
          ≡ joined (λ r. r) s.justifications_roots
      pub votes :
          slice (offset_votes s) (size_state s) (state_bytes s) ≡ s.justifications_validators

    pub places : Places
    unfolding size_state offset_slots offset_validators offset_roots offset_votes
    places =
        let l = lengths in
        let lw = length-le_bytes 8 s.config.genesis_time in
        let lu = length-le_bytes 8 s.slot in
        let la = length-le_bytes 4 228 in
        let lb = length-le_bytes 4 (offset_slots s) in
        let lc = length-le_bytes 4 (offset_validators s) in
        let ld = length-le_bytes 4 (offset_roots s) in
        let le = length-le_bytes 4 (offset_votes s) in
        let w = le_bytes 8 s.config.genesis_time in
        let u = le_bytes 8 s.slot in
        let k = header_bytes s.latest_block_header in
        let j = checkpoint_bytes s.latest_justified in
        let f = checkpoint_bytes s.latest_finalized in
        let a = le_bytes 4 228 in
        let b = le_bytes 4 (offset_slots s) in
        let c = le_bytes 4 (offset_validators s) in
        let d = le_bytes 4 (offset_roots s) in
        let e = le_bytes 4 (offset_votes s) in
        let hs = joined (λ r. r) s.historical_block_hashes in
        let js = s.justified_slots in
        let vs = joined validator_bytes s.validators in
        let rs = joined (λ r. r) s.justifications_roots in
        let ts = s.justifications_validators in
        record {
          config =
              part ([]) w (u ∷ k ∷ j ∷ f ∷ a ∷ b ∷ c ∷ d ∷ e ∷ hs ∷ js ∷ vs ∷ rs ∷ ts ∷ []) 0 8 refl
                (omega (arith, l, lw, lu, la, lb, lc, ld, le))
                (omega (arith, l, lw, lu, la, lb, lc, ld, le));
          slot =
              part (w ∷ []) u (k ∷ j ∷ f ∷ a ∷ b ∷ c ∷ d ∷ e ∷ hs ∷ js ∷ vs ∷ rs ∷ ts ∷ []) 8 16
                refl (omega (arith, l, lw, lu, la, lb, lc, ld, le))
                (omega (arith, l, lw, lu, la, lb, lc, ld, le));
          header =
              part (w ∷ u ∷ []) k (j ∷ f ∷ a ∷ b ∷ c ∷ d ∷ e ∷ hs ∷ js ∷ vs ∷ rs ∷ ts ∷ []) 16 128
                refl (omega (arith, l, lw, lu, la, lb, lc, ld, le))
                (omega (arith, l, lw, lu, la, lb, lc, ld, le));
          justified =
              part (w ∷ u ∷ k ∷ []) j (f ∷ a ∷ b ∷ c ∷ d ∷ e ∷ hs ∷ js ∷ vs ∷ rs ∷ ts ∷ []) 128 168
                refl (omega (arith, l, lw, lu, la, lb, lc, ld, le))
                (omega (arith, l, lw, lu, la, lb, lc, ld, le));
          finalized =
              part (w ∷ u ∷ k ∷ j ∷ []) f (a ∷ b ∷ c ∷ d ∷ e ∷ hs ∷ js ∷ vs ∷ rs ∷ ts ∷ []) 168 208
                refl (omega (arith, l, lw, lu, la, lb, lc, ld, le))
                (omega (arith, l, lw, lu, la, lb, lc, ld, le));
          first =
              part (w ∷ u ∷ k ∷ j ∷ f ∷ []) a (b ∷ c ∷ d ∷ e ∷ hs ∷ js ∷ vs ∷ rs ∷ ts ∷ []) 208 212
                refl (omega (arith, l, lw, lu, la, lb, lc, ld, le))
                (omega (arith, l, lw, lu, la, lb, lc, ld, le));
          second =
              part (w ∷ u ∷ k ∷ j ∷ f ∷ a ∷ []) b (c ∷ d ∷ e ∷ hs ∷ js ∷ vs ∷ rs ∷ ts ∷ []) 212 216
                refl (omega (arith, l, lw, lu, la, lb, lc, ld, le))
                (omega (arith, l, lw, lu, la, lb, lc, ld, le));
          third =
              part (w ∷ u ∷ k ∷ j ∷ f ∷ a ∷ b ∷ []) c (d ∷ e ∷ hs ∷ js ∷ vs ∷ rs ∷ ts ∷ []) 216 220
                refl (omega (arith, l, lw, lu, la, lb, lc, ld, le))
                (omega (arith, l, lw, lu, la, lb, lc, ld, le));
          fourth =
              part (w ∷ u ∷ k ∷ j ∷ f ∷ a ∷ b ∷ c ∷ []) d (e ∷ hs ∷ js ∷ vs ∷ rs ∷ ts ∷ []) 220 224
                refl (omega (arith, l, lw, lu, la, lb, lc, ld, le))
                (omega (arith, l, lw, lu, la, lb, lc, ld, le));
          fifth =
              part (w ∷ u ∷ k ∷ j ∷ f ∷ a ∷ b ∷ c ∷ d ∷ []) e (hs ∷ js ∷ vs ∷ rs ∷ ts ∷ []) 224 228
                refl (omega (arith, l, lw, lu, la, lb, lc, ld, le))
                (omega (arith, l, lw, lu, la, lb, lc, ld, le));
          hashes =
              part (w ∷ u ∷ k ∷ j ∷ f ∷ a ∷ b ∷ c ∷ d ∷ e ∷ []) hs (js ∷ vs ∷ rs ∷ ts ∷ []) 228
                (offset_slots s) refl (omega (arith, l, lw, lu, la, lb, lc, ld, le))
                (omega (arith, l, lw, lu, la, lb, lc, ld, le));
          slots =
              part (w ∷ u ∷ k ∷ j ∷ f ∷ a ∷ b ∷ c ∷ d ∷ e ∷ hs ∷ []) js (vs ∷ rs ∷ ts ∷ [])
                (offset_slots s) (offset_validators s) refl
                (omega (arith, l, lw, lu, la, lb, lc, ld, le))
                (omega (arith, l, lw, lu, la, lb, lc, ld, le));
          validators =
              part (w ∷ u ∷ k ∷ j ∷ f ∷ a ∷ b ∷ c ∷ d ∷ e ∷ hs ∷ js ∷ []) vs (rs ∷ ts ∷ [])
                (offset_validators s) (offset_roots s) refl
                (omega (arith, l, lw, lu, la, lb, lc, ld, le))
                (omega (arith, l, lw, lu, la, lb, lc, ld, le));
          roots =
              part (w ∷ u ∷ k ∷ j ∷ f ∷ a ∷ b ∷ c ∷ d ∷ e ∷ hs ∷ js ∷ vs ∷ []) rs (ts ∷ [])
                (offset_roots s) (offset_votes s) refl
                (omega (arith, l, lw, lu, la, lb, lc, ld, le))
                (omega (arith, l, lw, lu, la, lb, lc, ld, le));
          votes =
              part (w ∷ u ∷ k ∷ j ∷ f ∷ a ∷ b ∷ c ∷ d ∷ e ∷ hs ∷ js ∷ vs ∷ rs ∷ []) ts ([])
                (offset_votes s) (size_state s) refl (omega (arith, l, lw, lu, la, lb, lc, ld, le))
                (omega (arith, l, lw, lu, la, lb, lc, ld, le));
        }

    -- The offsets are in order, and fit in 32 bits.
    pub record Ordered : Type 0 where
      pub slots : 228 ≤ offset_slots s
      pub validators : offset_slots s ≤ offset_validators s
      pub roots : offset_validators s ≤ offset_roots s
      pub votes : offset_roots s ≤ offset_votes s
      pub within : offset_votes s ≤ size_state s
      pub small : offset_votes s < 256 ^ 4

    pub ordered : Ordered
    unfolding size_state offset_slots offset_validators offset_roots offset_votes
    ordered = record {
      slots = omega arith;
      validators = omega arith;
      roots = omega arith;
      votes = omega arith;
      within = omega arith;
      small =
          omega (
            arith, h.few_hashes, h.slots-IsBitlist.size, h.few_slots, h.few_validators, h.few_roots,
          );
    }
