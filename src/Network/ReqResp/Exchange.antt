-- ===== src/Network/ReqResp/Exchange.antt =====
-- A status request is answered.
use mathlib.Core.List.{append-nil}
use gean.Base.{
  ℕ, ◌≡◌, List, [], ◌∷◌, ◌++◌, length, length-append, ok, arith, slice_first, slice_whole,
  slice_behind, le_bytes, length-le_bytes, le_value-le_bytes,
}
use gean.ForkChoice.Store.{Store}
use gean.Ssz.Fits.{FitsCheckpoint}
use gean.Network.{Snappy, IsLossless}
use gean.Network.Frames.{read-write_snappy_frame}
use gean.Network.ReqResp.{
  Status, on_status, status_bytes, read_status, write_status, read_response_code, handle_status,
  request_status, response_success,
}

pub record FitsStatus (s : Status) : Type 0 where
  pub finalized : FitsCheckpoint s.finalized
  pub head : FitsCheckpoint s.head

module _ (y : Snappy) (lossless : IsLossless y) where
  read-write_status :
      (s : Status) (rest : List ℕ)
      → FitsStatus s
      → read_status y (write_status y s ++ rest) ≡ ok (s, rest)
  unfolding read_status write_status status_bytes
  read-write_status s rest h =
      let f = s.finalized.root in
      let u = le_bytes 8 s.finalized.slot in
      let g = s.head.root in
      let v = le_bytes 8 s.head.slot in
      let eu = length-le_bytes 8 s.finalized.slot in
      let ev = length-le_bytes 8 s.head.slot in
      let size : length (status_bytes s) ≡ 80 = omega (
        arith,
        eu,
        ev,
        h.finalized.root,
        h.head.root,
        length-append f (u ++ (g ++ v)),
        length-append u (g ++ v),
        length-append g v,
      ) in
      rw (
        read-write_snappy_frame y lossless (status_bytes s) rest (omega (arith, size)),
        size,
        slice_first 32 f (u ++ (g ++ v)) h.finalized.root,
        slice_behind 32 0 8 f (u ++ (g ++ v)) h.finalized.root,
        slice_first 8 u (g ++ v) eu,
        le_value-le_bytes 8 s.finalized.slot h.finalized.slot,
        slice_behind 32 8 40 f (u ++ (g ++ v)) h.finalized.root,
        slice_behind 8 0 32 u (g ++ v) eu,
        slice_first 32 g v h.head.root,
        slice_behind 32 40 48 f (u ++ (g ++ v)) h.finalized.root,
        slice_behind 8 32 40 u (g ++ v) eu,
        slice_behind 32 0 8 g v h.head.root,
        slice_whole 8 v ev,
        le_value-le_bytes 8 s.head.slot h.head.slot,
      )

  handled :
      (c : Store) (s : Status)
      → FitsStatus s
      → handle_status y c (write_status y s) ≡ response_success ∷ write_status y (on_status c s)
  unfolding handle_status
  handled c s h =
      let read : read_status y (write_status y s) ≡ ok (s, []) =
        rw (append-nil (write_status y s)) at (read-write_status s [] h) in
      rw (handle_status, read)

  -- A node that asks a node for its status, where both statuses fit Go's types, is told the status of
  -- that node's store.
  pub request-handle_status :
      (c : Store) (s : Status)
      → FitsStatus s
      → FitsStatus (on_status c s)
      → request_status y (handle_status y c) s ≡ ok (on_status c s)
  unfolding request_status read_response_code
  request-handle_status c s h k =
      let read : read_status y (write_status y (on_status c s)) ≡ ok (on_status c s, []) =
        rw (append-nil (write_status y (on_status c s))) at
          (read-write_status (on_status c s) [] k) in
      rw (request_status, handled c s h, read)
