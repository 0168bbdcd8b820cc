-- ===== src/Network/ReqResp.antt =====
-- network/reqresp/: codec.go, server.go and client.go, with the handlers of node/handler.go. A stream
-- is the list of its bytes and ends where the peer closes it; no write to a stream fails. The
-- handlers are never nil.
pub mod Exchange
pub mod Fetch
use gean.Base.{
  ℕ, zero, suc, ◌+◌, ◌*◌, ◌/◌, ◌%◌, List, [], ◌∷◌, ◌++◌, Option, none, some, length, ltb, ◌==◌, not,
  if◌then◌else◌, slice, le_bytes, le_value, Run, Error, ok, err, panic, ◌>>=◌, status_length,
  roots_length, too_many_roots, no_response, response_refused,
}
use gean.Types.Containers.{Root, Checkpoint, SignedBlockWithAttestation}
use gean.Ssz.{Ssz}
use gean.Ssz.Blocks.{marshal_signed_block, unmarshal_signed_block}
use gean.Storage.{get_signed_block}
use gean.ForkChoice.Store.{Store, get_status}
use gean.Network.{Snappy}
use gean.Network.Frames.{read_snappy_frame, write_snappy_frame}

-- messages.go
pub record Status : Type 0 where
  pub finalized : Checkpoint
  pub head : Checkpoint

-- The code of a successful response; types/constants.go: `MaxRequestBlocks`.
abbrev pub response_success : ℕ
response_success = 0

abbrev pub max_request_blocks : ℕ
max_request_blocks = 1024

-- `OnStatus` of the node, which does not read the request.
unfoldable pub on_status : Store → Status → Status
on_status c req =
    let status = get_status c in
    record {
      finalized = record { root = status.finalized_root; slot = status.finalized_slot };
      head = record { root = status.head; slot = status.head_slot };
    }

-- `OnBlocksByRoot` of the node.
unfoldable pub on_blocks_by_root : Store → List Root → List SignedBlockWithAttestation
on_blocks_by_root c [] = []
on_blocks_by_root c (root ∷ roots) =
    let blocks = on_blocks_by_root c roots in
    elim (get_signed_block c.storage root) [ some sb ↦ sb ∷ blocks | none ↦ blocks ]

-- The 80 bytes of a status.
unfoldable pub status_bytes : Status → List ℕ
status_bytes s =
    s.finalized.root ++ (le_bytes 8 s.finalized.slot ++ (s.head.root ++ le_bytes 8 s.head.slot))

-- `ReadResponseCode`: none at the end of the stream.
unfoldable pub read_response_code : List ℕ → Option (ℕ × List ℕ)
read_response_code [] = none
read_response_code (b ∷ bs) = some (b, bs)

-- `for i := range roots`, with the rounds left counted.
unfoldable pub read_roots : ℕ → ℕ → List ℕ → List Root
read_roots zero i bs = []
read_roots (suc k) i bs = slice (i * 32) ((i + 1) * 32) bs ∷ read_roots k (i + 1) bs

-- `rootsBuf = append(rootsBuf, r[:]...)`
unfoldable pub roots_buf : List Root → List ℕ
roots_buf [] = []
roots_buf (r ∷ roots) = r ++ roots_buf roots

-- What RequestBlocksByRoot returns: the blocks, and an error where there is one.
pub record Answer : Type 0 where
  pub blocks : List SignedBlockWithAttestation
  pub failure : Option Error

module _ (y : Snappy) where
  unfoldable pub read_status : List ℕ → Run (Status × List ℕ)
  read_status r = read_snappy_frame y r >>= λ (bs, rest).
      if not (length bs == 80)
      then err status_length
      else ok (
        record {
          finalized = record { root = slice 0 32 bs; slot = le_value (slice 32 40 bs) };
          head = record { root = slice 40 72 bs; slot = le_value (slice 72 80 bs) };
        },
        rest,
      )

  unfoldable pub write_status : Status → List ℕ
  write_status s = write_snappy_frame y (status_bytes s)

  unfoldable pub read_blocks_by_root_request : List ℕ → Run (List Root)
  read_blocks_by_root_request r = read_snappy_frame y r >>= λ (bs, rest).
      if not (length bs % 32 == 0)
      then err roots_length
      else if ltb max_request_blocks (length bs / 32)
      then err too_many_roots
      else ok (read_roots (length bs / 32) 0 bs)

  -- What the server writes.
  unfoldable pub handle_status : Store → List ℕ → List ℕ
  handle_status c r = elim (read_status r) [
    | ok (req, _) ↦ response_success ∷ write_status (on_status c req)
    | err _ ↦ []
    | panic ↦ []
  ]

  -- What the client makes of what the server writes: `respond` is the server.
  unfoldable pub request_status : (List ℕ → List ℕ) → Status → Run Status
  request_status respond status = elim (read_response_code (respond (write_status status))) [
    | none ↦ err no_response
    | some (code, rest) ↦
        if not (code == response_success)
        then err response_refused
        else read_status rest >>= λ (resp, _). ok resp
  ]

  module _ (z : Ssz) where
    -- The loop of handleBlocksByRoot: it ends at a block that has no encoding, after its code.
    unfoldable pub write_blocks : List SignedBlockWithAttestation → List ℕ
    write_blocks [] = []
    write_blocks (sb ∷ blocks) =
        let rest = write_blocks blocks in
        response_success ∷ (elim (marshal_signed_block z [] sb) [
          | ok bs ↦ write_snappy_frame y bs ++ rest
          | err _ ↦ []
          | panic ↦ []
        ])

    unfoldable pub handle_blocks_by_root : Store → List ℕ → List ℕ
    handle_blocks_by_root c r = elim (read_blocks_by_root_request r) [
      | ok roots ↦ write_blocks (on_blocks_by_root c roots)
      | err _ ↦ []
      | panic ↦ []
    ]

    -- The loop of the client, with the rounds left counted: none where they run out. Each round reads
    -- a byte at least.
    unfoldable pub read_blocks : ℕ → List ℕ → List SignedBlockWithAttestation → Option Answer
    read_blocks zero r blocks = none
    read_blocks (suc k) [] blocks = some (record { blocks = blocks; failure = none })
    read_blocks (suc k) (code ∷ r) blocks =
        if not (code == response_success)
        then some (record { blocks = blocks; failure = none })
        else (elim (read_snappy_frame y r) [
          | err e ↦ some (record { blocks = blocks; failure = some e })
          | panic ↦ none
          | ok (bs, rest) ↦ elim (unmarshal_signed_block z bs) [
            | ok block ↦ read_blocks k rest (blocks ++ block ∷ [])
            | err _ ↦ read_blocks k rest blocks
            | panic ↦ none
          ]
        ])

    unfoldable pub request_blocks_by_root : (List ℕ → List ℕ) → List Root → Option Answer
    request_blocks_by_root respond roots =
        let r = respond (write_snappy_frame y (roots_buf roots)) in
        read_blocks (suc (length r)) r []
