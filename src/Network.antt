-- ===== src/Network.antt =====
-- network/: what nodes send each other. The snappy library is a parameter: `encode` and `decode` of
-- its block format, `frame` what a buffered writer writes for the data by its close, and `read_frame`
-- a new reader on a stream with io.ReadFull of so many bytes, which gives them and what is left of the
-- stream, none for an error. SHA-256 is a parameter too.
pub mod Gossip
pub mod Frames
pub mod ReqResp
use gean.Base.{ℕ, ◌^◌, ◌<◌, ◌≡◌, List, ◌++◌, Option, some, length}

pub record Snappy : Type 0 where
  pub encode : List ℕ → List ℕ
  pub decode : List ℕ → Option (List ℕ)
  pub frame : List ℕ → List ℕ
  pub read_frame : ℕ → List ℕ → Option (List ℕ × List ℕ)

-- What the library documents: both formats give back the data, the block format up to its limit.
pub record IsLossless (y : Snappy) : Type 0 where
  pub decode-encode : (bs : List ℕ) → length bs < 2 ^ 32 → y.decode (y.encode bs) ≡ some bs
  pub read-frame :
      (bs rest : List ℕ) → y.read_frame (length bs) (y.frame bs ++ rest) ≡ some (bs, rest)
