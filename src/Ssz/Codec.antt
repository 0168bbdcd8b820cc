-- ===== src/Ssz/Codec.antt =====
-- What an encoding and its decoder owe each other.
use gean.Base.{
  ℕ, ◌<◌, ◌≤◌, ◌≡◌, ◌∙◌, List, ◌++◌, length, Run, ok, Bytes, slice, le_bytes, length-le_bytes,
  le_value-le_bytes, le_bytes-le_value, le_value-lt, slice_join, slice_whole, arith, inl, inr, ◌==◌,
  not, true, if◌then◌else◌, Bool-cases, err, ssz_size,
}
use gean.Types.Slot.{u64_mod}
use gean.Ssz.{Ssz, IsLawful}

-- `marshal` appends the `bytes` of every value that fits, as many as `size` says; `unmarshal` reads
-- the value back from them; and whatever bytes it reads a value from are those of that value, which
-- fits.
pub record IsCodec {T : Type 0} (marshal : List ℕ → T → Run (List ℕ)) (unmarshal : List ℕ → Run T)
    (Fits : T → Type 0) (size : T → ℕ) (bytes : T → List ℕ) : Type 0 where
  pub appends : (buf : List ℕ) (x : T) → Fits x → marshal buf x ≡ ok (buf ++ bytes x)
  pub length-bytes : (x : T) → Fits x → length (bytes x) ≡ size x
  pub reads : (x : T) → Fits x → unmarshal (bytes x) ≡ ok x
  pub canonical :
      (buf : List ℕ) (x : T) → Bytes buf → unmarshal buf ≡ ok x → Fits x × (bytes x ≡ buf)

module _ (z : Ssz) (lawful : IsLawful z) where
  -- A word of the buffer is read, and its bytes are the buffer's.
  pub word-reads : (n : ℕ) → n < u64_mod → z.unmarshal_uint64 (le_bytes 8 n) ≡ n
  word-reads n h =
      lawful.unmarshal_uint64-exact (le_bytes 8 n) (length-le_bytes 8 n) ∙ le_value-le_bytes 8 n h

  pub word-canonical :
      (bs : List ℕ)
      → Bytes bs
      → length bs ≡ 8
      → (z.unmarshal_uint64 bs < u64_mod) × (le_bytes 8 (z.unmarshal_uint64 bs) ≡ bs)
  word-canonical bs h e =
      let fits = le_value-lt bs h in
      let back = le_bytes-le_value bs h in
      rw (lawful.unmarshal_uint64-exact bs e) (rw e at fits, rw e at back)

-- The first check of a decoder.
pub sized_ok :
    {A : Type 0} (n m : ℕ) (r : Run A) → n ≡ m → (if not (n == m) then err ssz_size else r) ≡ r
sized_ok n m r e = let same : (n == m) ≡ true = ground arith in rw same

pub sized_inv :
    {A : Type 0} (n m : ℕ) (r : Run A) {a : A}
    → (if not (n == m) then err ssz_size else r) ≡ ok a
    → (n ≡ m) × (r ≡ ok a)
sized_inv n m r h = elim (Bool-cases (n == m)) [
  | inl same ↦ (ground arith, rw same at h)
  | inr other ↦ cc (rw other at h)
]

pub ok_inj : {A : Type 0} (a b : A) → ok a ≡ ok b → a ≡ b
ok_inj a b e = cc

-- Of a buffer of length `n`.
pub slices-whole :
    (b n : ℕ) (buf : List ℕ) → b ≤ n → length buf ≡ n → slice 0 b buf ++ slice b n buf ≡ buf
slices-whole b n buf h e = slice_join 0 b n buf (omega arith) h ∙ slice_whole n buf e
