-- ===== src/Ssz.antt =====
-- types/*_encoding.go, which fastssz generates from the containers: what the encodings call in the
-- library, and the lawful library. A word is little-endian; `buf` is what is already written.
pub mod Items
pub mod Lists
pub mod Codec
pub mod Fits
pub mod Votes
pub mod Blocks
pub mod States
use gean.Base.{
  ℕ, ◌/◌, ◌%◌, ◌≤◌, ◌≡◌, List, ◌++◌, Bool, true, ◌&&◌, Option, some, none, length, leb, ◌==◌,
  if◌then◌else◌, le_bytes, le_value,
}
use gean.Transition.Bitlist.Laws.{IsBitlist}

pub record Ssz : Type 0 where
  pub marshal_uint64 : List ℕ → ℕ → List ℕ
  pub unmarshal_uint64 : List ℕ → ℕ
  pub write_offset : List ℕ → ℕ → List ℕ
  pub read_offset : List ℕ → ℕ
  -- `DivideInt2(a, b, max)`: none for an error.
  pub divide_int2 : ℕ → ℕ → ℕ → Option ℕ
  -- `ValidateBitlist(buf, limit)`: true for no error.
  pub validate_bitlist : List ℕ → ℕ → Bool

-- What the library documents of these functions.
pub record IsLawful (z : Ssz) : Type 0 where
  pub marshal_uint64-exact : (buf : List ℕ) (n : ℕ) → z.marshal_uint64 buf n ≡ buf ++ le_bytes 8 n
  pub unmarshal_uint64-exact : (bs : List ℕ) → length bs ≡ 8 → z.unmarshal_uint64 bs ≡ le_value bs
  pub write_offset-exact : (buf : List ℕ) (n : ℕ) → z.write_offset buf n ≡ buf ++ le_bytes 4 n
  pub read_offset-exact : (bs : List ℕ) → length bs ≡ 4 → z.read_offset bs ≡ le_value bs
  pub divide_int2-exact :
      (a b max : ℕ)
      → z.divide_int2 a b max ≡ (if a % b == 0 && leb (a / b) max then some (a / b) else none)
  pub validate-IsBitlist :
      (n : ℕ) (bl : List ℕ) (limit : ℕ)
      → IsBitlist n bl
      → n ≤ limit
      → z.validate_bitlist bl limit ≡ true
