-- ===== src/Network/ReqResp/Fetch.antt =====
-- Blocks that are asked for by their roots arrive.
use mathlib.Core.List.{append-nil, append_assoc}
use gean.Base.{
  ℕ, zero, suc, ◌+◌, ◌*◌, ◌/◌, ◌%◌, ◌<◌, ◌≤◌, ◌≡◌, refl, sym, ap, lookup, bytes_eq, List, [], ◌∷◌,
  ◌++◌, map, All, false, none, some, length, length-append, ltb, ok, arith, slice_middle,
}
use gean.Types.Containers.{Root, SignedBlockWithAttestation}
use gean.Storage.{get_signed_block}
use gean.ForkChoice.Store.{Store}
use gean.Ssz.{Ssz, IsLawful}
use gean.Ssz.Blocks.{fill_signed, size_signed_block}
use gean.Ssz.Blocks.Fits.{FitsSignedBlock, signed_block_bytes}
use gean.Ssz.Blocks.Envelopes.{signed_block-IsCodec}
use gean.Ssz.Blocks.Filled.{marshal_fill}
use gean.Network.{Snappy, IsLossless}
use gean.Network.Frames.{max_frame_size, write_snappy_frame, read-write_snappy_frame}
use gean.Network.ReqResp.{
  max_request_blocks, on_blocks_by_root, read_roots, roots_buf, read_blocks_by_root_request,
  write_blocks, handle_blocks_by_root, read_blocks, request_blocks_by_root,
}

abbrev pub IsRoot : Root → Type 0
IsRoot r = length r ≡ 32

-- Blocks whose encoding fits in a frame.
pub record Sendable (s : SignedBlockWithAttestation) : Type 0 where
  pub fits : FitsSignedBlock (fill_signed s)
  pub small : size_signed_block (fill_signed s) ≤ max_frame_size

-- The stored blocks under the roots, in the order of the roots; a root with none is left out.
pub data Served (c : Store) : List Root → List SignedBlockWithAttestation → Type 0 where
  end : Served c [] []
  stored :
      {roots : List Root} {sbs : List SignedBlockWithAttestation} (r : Root)
      (sb : SignedBlockWithAttestation)
      → lookup r c.storage.signed_blocks ≡ some sb
      → Served c roots sbs
      → Served c (r ∷ roots) (sb ∷ sbs)
  unknown :
      {roots : List Root} {sbs : List SignedBlockWithAttestation} (r : Root)
      → lookup r c.storage.signed_blocks ≡ none
      → Served c roots sbs
      → Served c (r ∷ roots) sbs

pub on_blocks_by_root-Served :
    (c : Store) {roots : List Root} {sbs : List SignedBlockWithAttestation}
    → Served c roots sbs
    → on_blocks_by_root c roots ≡ sbs
unfolding on_blocks_by_root get_signed_block
on_blocks_by_root-Served c end = refl
on_blocks_by_root-Served c (stored r sb e rest) =
    rw (e, on_blocks_by_root) (ap (◌∷◌ sb) (on_blocks_by_root-Served c rest))
on_blocks_by_root-Served c (unknown r e rest) =
    rw (e, on_blocks_by_root) (on_blocks_by_root-Served c rest)

length-roots_buf :
    (roots : List Root) → All IsRoot roots → length (roots_buf roots) ≡ length roots * 32
unfolding roots_buf
length-roots_buf [] h = refl
length-roots_buf (r ∷ roots) h =
    omega (arith, length-append r (roots_buf roots), h.0, length-roots_buf roots h.1)

-- Behind the roots of the rounds before.
read_roots-roots_buf :
    (i : ℕ) (before : List ℕ) (roots : List Root)
    → length before ≡ i * 32
    → All IsRoot roots
    → read_roots (length roots) i (before ++ roots_buf roots) ≡ roots
unfolding read_roots roots_buf
read_roots-roots_buf i before [] e h = refl
read_roots-roots_buf i before (r ∷ roots) e h =
    let rest =
      read_roots-roots_buf (i + 1) (before ++ r) roots
        (omega (arith, length-append before r, e, h.0)) h.1 in
    rw (
      slice_middle (i * 32) ((i + 1) * 32) before r (roots_buf roots) e (omega (arith, h.0)),
      ← append_assoc before r (roots_buf roots),
      rest,
    )

module _ (y : Snappy) (lossless : IsLossless y) where
  read_blocks_by_root_request_lem :
      (roots : List Root)
      → All IsRoot roots
      → length roots ≤ max_request_blocks
      → read_blocks_by_root_request y (write_snappy_frame y (roots_buf roots)) ≡ ok roots
  unfolding read_blocks_by_root_request
  read_blocks_by_root_request_lem roots h few =
      let size = length-roots_buf roots h in
      let whole : length roots * 32 % 32 ≡ 0 = omega arith in
      let count : length roots * 32 / 32 ≡ length roots = omega arith in
      let small : ltb max_request_blocks (length roots) ≡ false = ground arith in
      rw (
        sym (append-nil (write_snappy_frame y (roots_buf roots))),
        read-write_snappy_frame y lossless (roots_buf roots) [] (omega (arith, size)),
        size,
        whole,
        count,
        small,
        read_roots-roots_buf 0 [] roots (omega arith) h,
      )

  module _ (z : Ssz) (lawful : IsLawful z) where
    length-write_blocks :
        (sbs : List SignedBlockWithAttestation)
        → All Sendable sbs
        → length sbs ≤ length (write_blocks y z sbs)
    unfolding write_blocks
    length-write_blocks [] h = omega arith
    length-write_blocks (sb ∷ sbs) h =
        let c = signed_block-IsCodec z lawful in
        let bs = write_snappy_frame y (signed_block_bytes (fill_signed sb)) in
        rw (marshal_fill z lawful [] sb, c.appends [] (fill_signed sb) h.0.fits)
          (omega (arith, length-append bs (write_blocks y z sbs), length-write_blocks sbs h.1))

    read_blocks-write_blocks :
        (k : ℕ) (sbs acc : List SignedBlockWithAttestation)
        → All Sendable sbs
        → length sbs < k
        → read_blocks y z k (write_blocks y z sbs) acc
          ≡ some (record { blocks = acc ++ map fill_signed sbs; failure = none })
    unfolding write_blocks read_blocks
    read_blocks-write_blocks zero sbs acc h lt = absurd (omega arith)
    read_blocks-write_blocks (suc k) [] acc h lt = rw (append-nil acc)
    read_blocks-write_blocks (suc k) (sb ∷ sbs) acc h lt =
        let c = signed_block-IsCodec z lawful in
        let t = fill_signed sb in
        let small = c.length-bytes t h.0.fits in
        rw
          (
            marshal_fill z lawful [] sb,
            c.appends [] t h.0.fits,
            read-write_snappy_frame y lossless (signed_block_bytes t) (write_blocks y z sbs)
                (omega (arith, small, h.0.small)),
            c.reads t h.0.fits,
            read_blocks-write_blocks k sbs (acc ++ t ∷ []) h.1 (omega arith),
          )
          (rw (append_assoc acc (t ∷ []) (map fill_signed sbs)))

    -- A node that asks a node for the blocks of at most 1024 roots of 32 bytes is sent, in the order
    -- of the roots, exactly those that the other has stored under them, each with its proposer
    -- attestation filled in, and no error, provided that each then fits Go's types and its encoding
    -- a frame.
    pub request-handle_blocks_by_root :
        (c : Store) (roots : List Root) (sbs : List SignedBlockWithAttestation)
        → All IsRoot roots
        → length roots ≤ max_request_blocks
        → Served c roots sbs
        → All Sendable sbs
        → request_blocks_by_root y z (handle_blocks_by_root y z c) roots
          ≡ some (record { blocks = map fill_signed sbs; failure = none })
    unfolding request_blocks_by_root handle_blocks_by_root
    request-handle_blocks_by_root c roots sbs h few served sendable =
        rw
          (
            request_blocks_by_root,
            handle_blocks_by_root,
            read_blocks_by_root_request_lem roots h few,
            on_blocks_by_root-Served c served,
          )
          (read_blocks-write_blocks (suc (length (write_blocks y z sbs))) sbs [] sendable
            (omega (arith, length-write_blocks sbs sendable)))
