-- ===== src/Transition/Bitlist.antt =====
-- chain/statetransition/bitlist.go: SSZ bitlists, lists of bytes with the bits packed from the low
-- end and a sentinel bit behind the last one. An update returns the new slice; no caller keeps the
-- old one. Lengths are those of slices in memory, so `int` does not overflow.
pub mod Byte
pub mod Laws
pub mod Append
use gean.Base.{
  ℕ, zero, suc, ◌+◌, ◌-◌, ◌*◌, ◌/◌, ◌%◌, ◌^◌, List, [], ◌∷◌, ◌++◌, Bool, true, false, not, bit_and,
  bit_or, length, get_or, set, take, replicate, ltb, leb, ◌==◌, if◌then◌else◌,
}
use Byte.{msb_loop, test_bit, put_bit}

-- The last byte is read only when there is one.
unfoldable pub bitlist_len : List ℕ → ℕ
bitlist_len bl =
    if length bl == 0
    then 0
    else let last_byte = get_or bl (length bl - 1) 0 in
      if last_byte == 0 then 0 else (length bl - 1) * 8 + msb_loop 8 last_byte 0 - 1

unfoldable pub get_bit : List ℕ → ℕ → Bool
get_bit bl idx =
    if leb (length bl) (idx / 8) then false else test_bit (get_or bl (idx / 8) 0) (idx % 8)

-- `bl[i] |= 1 << b` and `bl[i] &^= 1 << b`, for an index that is in range.
unfoldable pub put_at : List ℕ → ℕ → Bool → List ℕ
put_at bl pos val = set bl (pos / 8) (put_bit (get_or bl (pos / 8) 0) (pos % 8) val)

unfoldable pub set_bit : List ℕ → ℕ → Bool → List ℕ
unfolding put_at
set_bit bl idx val = if leb (length bl) (idx / 8) then bl else put_at bl idx val

-- `for len(bl) < neededBytes { bl = append(bl, 0) }`, with the rounds left counted.
unfoldable pub grow : ℕ → List ℕ → ℕ → List ℕ
grow zero bl needed = bl
grow (suc k) bl needed = grow k (if ltb (length bl) needed then bl ++ 0 ∷ [] else bl) needed

unfoldable pub append_bit : List ℕ → Bool → List ℕ
append_bit bl val =
    let n = bitlist_len bl in
    let new_len = n + 1 in
    let needed = (new_len + 1 + 7) / 8 in
    let grown = take needed (grow needed bl needed) in
    let cleared =
      if ltb 0 n
      then (if ltb (n / 8) (length grown) then put_at grown n false else grown)
      else grown in
    put_at (put_at cleared n val) new_len true

unfoldable pub make_bitlist : ℕ → List ℕ
make_bitlist num_bits =
    if num_bits == 0 then 1 ∷ [] else put_at (replicate ((num_bits + 1 + 7) / 8) 0) num_bits true
