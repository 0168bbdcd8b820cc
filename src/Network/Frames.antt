-- ===== src/Network/Frames.antt =====
-- network/reqresp/codec.go: ReadSnappyFrame and WriteSnappyFrame, with encoding/binary's varints. A
-- stream is the list of its bytes: what a reader gives is what it read and what is left.
use gean.Base.{
  ℕ, zero, suc, ◌+◌, ◌*◌, ◌/◌, ◌%◌, ◌^◌, ◌<◌, ◌≤◌, ◌≡◌, List, [], ◌∷◌, ◌++◌, true, false,
  Bool-cases, inl, inr, ◌&&◌, Option, none, some, length, ltb, ◌==◌, if◌then◌else◌, Run, ok, err,
  ◌>>=◌, arith, bad_snappy, bad_varint, frame_too_large,
}
use mathlib.Core.List.{append_assoc}
use gean.Network.{Snappy, IsLossless}

-- `binary.PutUvarint`, with the rounds left counted: ten bytes hold 64 bits.
unfoldable pub put_uvarint : ℕ → ℕ → List ℕ
put_uvarint zero n = n ∷ []
put_uvarint (suc k) n =
    let more = put_uvarint k (n / 128) in if ltb n 128 then n ∷ [] else (128 + n % 128) ∷ more

-- `binary.ReadUvarint`, with the rounds left counted; the tenth byte is the top bit at most.
unfoldable pub read_uvarint : ℕ → List ℕ → Run (ℕ × List ℕ)
read_uvarint zero bs = err bad_varint
read_uvarint (suc k) [] = err bad_varint
read_uvarint (suc k) (b ∷ bs) =
    let more = read_uvarint k bs in
    if ltb b 128
    then (if k == 0 && ltb 1 b then err bad_varint else ok (b, bs))
    else more >>= λ (high, rest). ok (b % 128 + 128 * high, rest)

abbrev pub max_frame_size : ℕ
max_frame_size = 10485760

unfoldable pub or_snappy : Option (List ℕ × List ℕ) → Run (List ℕ × List ℕ)
or_snappy none = err bad_snappy
or_snappy (some r) = ok r

module _ (y : Snappy) where
  unfoldable pub read_snappy_frame : List ℕ → Run (List ℕ × List ℕ)
  read_snappy_frame r = read_uvarint 10 r >>= λ (len, rest).
      if ltb max_frame_size len then err frame_too_large else or_snappy (y.read_frame len rest)

  unfoldable pub write_snappy_frame : List ℕ → List ℕ
  write_snappy_frame bs = put_uvarint 9 (length bs) ++ y.frame bs

read_uvarint-put_uvarint :
    (k n : ℕ) (rest : List ℕ)
    → n < 2 * 128 ^ k
    → read_uvarint (suc k) (put_uvarint k n ++ rest) ≡ ok (n, rest)
unfolding put_uvarint read_uvarint
read_uvarint-put_uvarint zero n rest h =
    let small : ltb n 128 ≡ true = ground arith in
    let top : ltb 1 n ≡ false = ground arith in rw (small, top)
read_uvarint-put_uvarint (suc k) n rest h = elim (Bool-cases (ltb n 128)) [
  | inl small ↦ let more : (suc k == 0) ≡ false = ground arith in rw (small, small, more)
  | inr large ↦
      let power : 128 ^ suc k ≡ 128 * 128 ^ k = omega arith in
      let more = read_uvarint-put_uvarint k (n / 128) rest (omega arith) in
      let top : ltb (128 + n % 128) 128 ≡ false = ground arith in
      let low : (128 + n % 128) % 128 + 128 * (n / 128) ≡ n = omega arith in
      rw (large, top, more, low)
]

module _ (y : Snappy) (lossless : IsLossless y) where
  -- A frame of at most 10 MiB is read back, and what follows it in the stream is left.
  pub read-write_snappy_frame :
      (bs rest : List ℕ)
      → length bs ≤ max_frame_size
      → read_snappy_frame y (write_snappy_frame y bs ++ rest) ≡ ok (bs, rest)
  unfolding read_snappy_frame write_snappy_frame or_snappy
  read-write_snappy_frame bs rest h =
      let small : ltb max_frame_size (length bs) ≡ false = ground arith in
      rw (
        append_assoc (put_uvarint 9 (length bs)) (y.frame bs) rest,
        read_uvarint-put_uvarint 9 (length bs) (y.frame bs ++ rest) (omega arith),
        small,
        lossless.read-frame bs rest,
      )
