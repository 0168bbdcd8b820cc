-- ===== src/Ssz/Votes/Small.antt =====
-- Checkpoints, the configuration, validators and block headers are encoded without loss.
use mathlib.Core.List.{append_assoc}
use gean.Base.{
  ◌<◌, ◌≡◌, sym, ap, ◌∙◌, ◌++◌, length, length-append, ok, arith, slice, slice_first, slice_whole,
  slice_behind, slice_join, length-slice, slice-All, le_bytes, length-le_bytes,
}
use gean.Types.Slot.{u64_mod}
use gean.Types.Containers.{Config, BlockHeader}
use gean.Ssz.{Ssz, IsLawful}
use gean.Ssz.Codec.{IsCodec, word-reads, word-canonical, sized_ok, sized_inv, ok_inj, slices-whole}
use gean.Ssz.Votes.{
  marshal_checkpoint, unmarshal_checkpoint, marshal_config, unmarshal_config, marshal_validator,
  unmarshal_validator,
}
use gean.Ssz.Votes.{marshal_header, unmarshal_header}
use gean.Ssz.Fits.{
  FitsCheckpoint, FitsValidator, FitsHeader, checkpoint_bytes, validator_bytes, header_bytes,
}

module _ (z : Ssz) (lawful : IsLawful z) where
  pub checkpoint-IsCodec :
      IsCodec
        (marshal_checkpoint z)
        (unmarshal_checkpoint z)
        FitsCheckpoint
        (λ c. 40)
        checkpoint_bytes
  unfolding marshal_checkpoint unmarshal_checkpoint checkpoint_bytes
  checkpoint-IsCodec = record {
    appends = λ buf c h.
        ap ok (lawful.marshal_uint64-exact (buf ++ c.root) c.slot ∙ append_assoc buf c.root _);
    length-bytes = λ c h.
        omega (arith, length-append c.root (le_bytes 8 c.slot), h.root, length-le_bytes 8 c.slot);
    reads = λ c h.
        let size : length (c.root ++ le_bytes 8 c.slot) ≡ 40 =
          omega
            (arith, length-append c.root (le_bytes 8 c.slot), h.root, length-le_bytes 8 c.slot) in
        sized_ok _ 40 _ size
        ∙ rw (
          slice_first 32 c.root (le_bytes 8 c.slot) h.root,
          slice_behind 32 0 8 c.root (le_bytes 8 c.slot) h.root,
          slice_whole 8 (le_bytes 8 c.slot) (length-le_bytes 8 c.slot),
          word-reads z lawful c.slot h.slot,
        );
    canonical = λ buf c h e.
        let (size, e') = sized_inv (length buf) 40 _ e in
        let word =
          word-canonical z lawful (slice 32 40 buf) (slice-All _ 32 40 buf h)
            (length-slice 32 40 buf (omega arith) (omega (arith, size))) in
        rw (sym (ok_inj _ c e')) (
          record {
            root = length-slice 0 32 buf (omega arith) (omega (arith, size));
            slot = word.0;
          },
          rw word.1 (slices-whole 32 40 buf (omega arith) size),
        );
  }

  pub config-IsCodec :
      IsCodec
        (marshal_config z)
        (unmarshal_config z)
        (λ (c : Config). c.genesis_time < u64_mod)
        (λ c. 8)
        (λ c. le_bytes 8 c.genesis_time)
  unfolding marshal_config unmarshal_config
  config-IsCodec = record {
    appends = λ buf c h. ap ok (lawful.marshal_uint64-exact buf c.genesis_time);
    length-bytes = λ c h. length-le_bytes 8 c.genesis_time;
    reads = λ c h.
        sized_ok _ 8 _ (length-le_bytes 8 c.genesis_time)
        ∙ rw (
          slice_whole 8 (le_bytes 8 c.genesis_time) (length-le_bytes 8 c.genesis_time),
          word-reads z lawful c.genesis_time h,
        );
    canonical = λ buf c h e.
        let (size, e') = sized_inv (length buf) 8 _ e in
        let whole = slice_whole 8 buf size in
        let word = word-canonical z lawful buf h size in rw (sym (ok_inj _ c e'), whole) word;
  }

  pub validator-IsCodec :
      IsCodec (marshal_validator z) (unmarshal_validator z) FitsValidator (λ v. 60) validator_bytes
  unfolding marshal_validator unmarshal_validator validator_bytes
  validator-IsCodec = record {
    appends = λ buf v h.
        ap ok (lawful.marshal_uint64-exact (buf ++ v.pubkey) v.index ∙ append_assoc buf v.pubkey _);
    length-bytes = λ v h.
        omega
          (arith, length-append v.pubkey (le_bytes 8 v.index), h.pubkey, length-le_bytes 8 v.index);
    reads = λ v h.
        let size : length (v.pubkey ++ le_bytes 8 v.index) ≡ 60 = omega (
          arith,
          length-append v.pubkey (le_bytes 8 v.index),
          h.pubkey,
          length-le_bytes 8 v.index,
        ) in
        sized_ok _ 60 _ size
        ∙ rw (
          slice_first 52 v.pubkey (le_bytes 8 v.index) h.pubkey,
          slice_behind 52 0 8 v.pubkey (le_bytes 8 v.index) h.pubkey,
          slice_whole 8 (le_bytes 8 v.index) (length-le_bytes 8 v.index),
          word-reads z lawful v.index h.index,
        );
    canonical = λ buf v h e.
        let (size, e') = sized_inv (length buf) 60 _ e in
        let word =
          word-canonical z lawful (slice 52 60 buf) (slice-All _ 52 60 buf h)
            (length-slice 52 60 buf (omega arith) (omega (arith, size))) in
        rw (sym (ok_inj _ v e')) (
          record {
            pubkey = length-slice 0 52 buf (omega arith) (omega (arith, size));
            index = word.0;
          },
          rw word.1 (slices-whole 52 60 buf (omega arith) size),
        );
  }

  length-header_bytes : (b : BlockHeader) → FitsHeader b → length (header_bytes b) ≡ 112
  unfolding header_bytes
  length-header_bytes b h =
      let i = le_bytes 8 b.proposer_index in
      omega (
        arith,
        length-append (le_bytes 8 b.slot) (i ++ (b.parent_root ++ (b.state_root ++ b.body_root))),
        length-append i (b.parent_root ++ (b.state_root ++ b.body_root)),
        length-append b.parent_root (b.state_root ++ b.body_root),
        length-append b.state_root b.body_root,
        length-le_bytes 8 b.slot,
        length-le_bytes 8 b.proposer_index,
        h.parent_root,
        h.state_root,
        h.body_root,
      )

  pub header-IsCodec :
      IsCodec (marshal_header z) (unmarshal_header z) FitsHeader (λ h. 112) header_bytes
  unfolding marshal_header unmarshal_header header_bytes
  header-IsCodec = record {
    appends = λ buf b h.
        rw
          (
            lawful.marshal_uint64-exact buf b.slot,
            lawful.marshal_uint64-exact (buf ++ le_bytes 8 b.slot) b.proposer_index,
          )
          (simp append_assoc);
    length-bytes = length-header_bytes;
    reads = λ b h.
        let s = le_bytes 8 b.slot in
        let i = le_bytes 8 b.proposer_index in
        let x = b.parent_root in
        let y = b.state_root in
        let v = b.body_root in
        let es = length-le_bytes 8 b.slot in
        let ei = length-le_bytes 8 b.proposer_index in
        sized_ok (length (header_bytes b)) 112 _ (length-header_bytes b h)
        ∙ rw (
          slice_first 8 s (i ++ (x ++ (y ++ v))) es,
          slice_behind 8 0 8 s (i ++ (x ++ (y ++ v))) es,
          slice_first 8 i (x ++ (y ++ v)) ei,
          slice_behind 8 8 40 s (i ++ (x ++ (y ++ v))) es,
          slice_behind 8 0 32 i (x ++ (y ++ v)) ei,
          slice_first 32 x (y ++ v) h.parent_root,
          slice_behind 8 40 72 s (i ++ (x ++ (y ++ v))) es,
          slice_behind 8 32 64 i (x ++ (y ++ v)) ei,
          slice_behind 32 0 32 x (y ++ v) h.parent_root,
          slice_first 32 y v h.state_root,
          slice_behind 8 72 104 s (i ++ (x ++ (y ++ v))) es,
          slice_behind 8 64 96 i (x ++ (y ++ v)) ei,
          slice_behind 32 32 64 x (y ++ v) h.parent_root,
          slice_behind 32 0 32 y v h.state_root,
          slice_whole 32 v h.body_root,
          word-reads z lawful b.slot h.slot,
          word-reads z lawful b.proposer_index h.proposer_index,
        );
    canonical = λ buf b h e.
        let (size, e₀) = sized_inv (length buf) 112 _ e in
        let slot =
          word-canonical z lawful (slice 0 8 buf) (slice-All _ 0 8 buf h)
            (length-slice 0 8 buf (omega arith) (omega (arith, size))) in
        let index =
          word-canonical z lawful (slice 8 16 buf) (slice-All _ 8 16 buf h)
            (length-slice 8 16 buf (omega arith) (omega (arith, size))) in
        rw (sym (ok_inj _ b e₀)) (
          record {
            slot = slot.0;
            proposer_index = index.0;
            parent_root = length-slice 16 48 buf (omega arith) (omega (arith, size));
            state_root = length-slice 48 80 buf (omega arith) (omega (arith, size));
            body_root = length-slice 80 112 buf (omega arith) (omega (arith, size));
          },
          rw
              (
                slot.1,
                index.1,
                slice_join 48 80 112 buf (omega arith) (omega arith),
                slice_join 16 48 112 buf (omega arith) (omega arith),
                slice_join 8 16 112 buf (omega arith) (omega arith),
              )
              (slices-whole 8 112 buf (omega arith) size),
        );
  }
