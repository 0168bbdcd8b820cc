-- ===== src/Transition/Bitlist/Append.antt =====
-- What `AppendBit`, `SetBit` and `MakeBitlist` do to the bits of a bitlist.
use gean.Base.{
  IsByte, Bytes, ℕ, zero, suc, ◌+◌, ◌/◌, ◌%◌, ◌<◌, ◌≡◌, refl, List, [], ◌∷◌, ◌++◌, Bool, true,
  false, inl, inr, arith, ltb, leb, ◌==◌, if◌then◌else◌, Bool-cases, length, get_or, take_all,
  replicate, length-replicate, All-replicate,
}
use gean.Transition.Bitlist.{bitlist_len, get_bit, put_at, set_bit, grow, append_bit, make_bitlist}
use gean.Transition.Bitlist.Byte.{test_bit, put_bit, test_bit-zero}
use gean.Transition.Bitlist.Laws.{
  IsBitlist, get_bit_lem, length-put_at, put_at-Bytes, get_bit-put_at, length-grow, grow-Bytes,
  get_bit-grow, bitlist_len-IsBitlist,
}

module _ (n : ℕ) (bl : List ℕ) (v : Bool) (valid : IsBitlist n bl) where
  abbrev needed : ℕ
  needed = (n + 1 + 1 + 7) / 8

  abbrev grown : List ℕ
  grown = grow needed bl needed

  abbrev cleared : List ℕ
  cleared = if ltb 0 n then put_at grown n false else grown

  length-grown : length grown ≡ needed
  length-grown = length-grow needed bl needed (omega (arith, valid.size)) (omega arith)

  append_bit_exact : append_bit bl v ≡ put_at (put_at cleared n v) (n + 1) true
  unfolding append_bit
  append_bit_exact =
      let e : ltb (n / 8) (length grown) ≡ true = ground (arith, length-grown) in
      rw (bitlist_len-IsBitlist n bl valid, take_all needed grown (omega (arith, length-grown)), e)

  length-cleared : length cleared ≡ needed
  length-cleared = ground (arith, length-grown, length-put_at grown n false)

  grown-Bytes : Bytes grown
  grown-Bytes = grow-Bytes needed bl needed valid.bytes

  cleared-Bytes : Bytes cleared
  cleared-Bytes = elim (Bool-cases (ltb 0 n)) [
    | inl e ↦ rw e (put_at-Bytes grown n false grown-Bytes)
    | inr e ↦ rw e grown-Bytes
  ]

  get_bit-cleared :
      (j : ℕ) → get_bit cleared j ≡ (if n == j then get_bit cleared n else get_bit bl j)
  get_bit-cleared j = ground (
    arith,
    get_bit-put_at grown n j false grown-Bytes,
    get_bit-grow needed bl needed j,
    length-grown,
  )

  get_bit-append_bit_lem :
      (j : ℕ)
      → get_bit (append_bit bl v) j
        ≡ (if n == j then v else if n + 1 == j then true else get_bit bl j)
  get_bit-append_bit_lem j = ground (
    arith,
    append_bit_exact,
    get_bit-cleared j,
    get_bit-put_at cleared n j v cleared-Bytes,
    get_bit-put_at (put_at cleared n v) (n + 1) j true (put_at-Bytes cleared n v cleared-Bytes),
    length-put_at cleared n v,
    length-cleared,
  )

  append_bit-IsBitlist_lem : IsBitlist (n + 1) (append_bit bl v)
  append_bit-IsBitlist_lem = record {
    bytes = rw append_bit_exact (put_at-Bytes _ _ true (put_at-Bytes cleared n v cleared-Bytes));
    size = rw (append_bit_exact, length-put_at, length-put_at) (omega (arith, length-cleared));
    sentinel = ground (arith, get_bit-append_bit_lem (n + 1));
    above = λ j h. ground (arith, get_bit-append_bit_lem j, valid.above j);
  }

-- Appending to a bitlist of `n` bits gives one of `n + 1`.
pub append_bit-IsBitlist :
    (n : ℕ) (bl : List ℕ) (v : Bool) → IsBitlist n bl → IsBitlist (n + 1) (append_bit bl v)
append_bit-IsBitlist = append_bit-IsBitlist_lem

-- The appended bit is read at `n`, the sentinel above it, and every other bit as before.
pub get_bit-append_bit :
    (n : ℕ) (bl : List ℕ) (v : Bool)
    → IsBitlist n bl
    → (j : ℕ)
    → get_bit (append_bit bl v) j
      ≡ (if n == j then v else if n + 1 == j then true else get_bit bl j)
get_bit-append_bit = get_bit-append_bit_lem

-- On a well-formed bitlist `SetBit` inside the data bits is read back and keeps every other bit.
pub get_bit-set_bit :
    (n : ℕ) (bl : List ℕ) (i : ℕ) (v : Bool)
    → IsBitlist n bl
    → i < n
    → (j : ℕ) → get_bit (set_bit bl i v) j ≡ (if i == j then v else get_bit bl j)
unfolding set_bit
get_bit-set_bit n bl i v valid h j = ground (arith, valid.size, get_bit-put_at bl i j v valid.bytes)

set_bit-Bytes : (bl : List ℕ) (i : ℕ) (v : Bool) → Bytes bl → Bytes (set_bit bl i v)
unfolding set_bit
set_bit-Bytes bl i v h = elim (Bool-cases (leb (length bl) (i / 8))) [
  | inl e ↦ rw e h
  | inr e ↦ rw e (put_at-Bytes bl i v h)
]

length-set_bit : (bl : List ℕ) (i : ℕ) (v : Bool) → length (set_bit bl i v) ≡ length bl
unfolding set_bit
length-set_bit bl i v = ground (arith, length-put_at bl i v)

pub set_bit-IsBitlist :
    (n : ℕ) (bl : List ℕ) (i : ℕ) (v : Bool) → IsBitlist n bl → i < n → IsBitlist n (set_bit bl i v)
set_bit-IsBitlist n bl i v valid h = record {
  bytes = set_bit-Bytes bl i v valid.bytes;
  size = omega (arith, valid.size, length-set_bit bl i v);
  sentinel = ground (arith, get_bit-set_bit n bl i v valid h n, valid.sentinel);
  above = λ j lt. ground (arith, get_bit-set_bit n bl i v valid h j, valid.above j);
}

get_or-replicate_zero : (n i : ℕ) → get_or {A = ℕ} (replicate n 0) i 0 ≡ 0
get_or-replicate_zero zero i = refl
get_or-replicate_zero (suc n) zero = refl
get_or-replicate_zero (suc n) (suc i) = get_or-replicate_zero n i

module _ (n : ℕ) where
  abbrev blank : List ℕ
  blank = replicate ((n + 1 + 7) / 8) 0

  blank-Bytes : Bytes blank
  blank-Bytes = All-replicate IsByte ((n + 1 + 7) / 8) 0 (omega arith)

  length-blank : length blank ≡ n / 8 + 1
  length-blank = omega (arith, length-replicate {A = ℕ} ((n + 1 + 7) / 8) 0)

  get_bit-put_blank : (j : ℕ) → get_bit (put_at blank n true) j ≡ (n == j)
  get_bit-put_blank j = ground (
    arith,
    get_bit-put_at blank n j true blank-Bytes,
    length-blank,
    get_bit_lem blank j,
    get_or-replicate_zero ((n + 1 + 7) / 8) (j / 8),
    test_bit-zero (j % 8),
  )

  blank-IsBitlist : IsBitlist n (put_at blank n true)
  blank-IsBitlist = record {
    bytes = put_at-Bytes blank n true blank-Bytes;
    size = omega (arith, length-put_at blank n true, length-blank);
    sentinel = ground (arith, get_bit-put_blank n);
    above = λ j h. ground (arith, get_bit-put_blank j);
  }

make_bitlist_exact : (n : ℕ) → make_bitlist n ≡ put_at (blank n) n true
unfolding make_bitlist put_at test_bit put_bit
make_bitlist_exact zero = refl
make_bitlist_exact (suc n) = ground arith

-- A new bitlist has the requested number of data bits, all of them clear.
pub make_bitlist-IsBitlist : (n : ℕ) → IsBitlist n (make_bitlist n)
make_bitlist-IsBitlist n = rw make_bitlist_exact (blank-IsBitlist n)

pub get_bit-make_bitlist : (n j : ℕ) → get_bit (make_bitlist n) j ≡ (n == j)
get_bit-make_bitlist n j = rw make_bitlist_exact (get_bit-put_blank n j)

-- The data bits of a bitlist, lowest first.
pub data_bits : ℕ → List ℕ → List Bool
data_bits zero bl = []
data_bits (suc n) bl = data_bits n bl ++ get_bit bl n ∷ []

abbrev pub to_bools : List ℕ → List Bool
to_bools bl = data_bits (bitlist_len bl) bl

data_bits_agree :
    (n : ℕ) (a b : List ℕ)
    → ((j : ℕ) → j < n → get_bit a j ≡ get_bit b j)
    → data_bits n a ≡ data_bits n b
unfolding data_bits
data_bits_agree zero a b h = refl
data_bits_agree (suc n) a b h =
    rw (data_bits_agree n a b (λ j lt. h j (omega arith)), h n (omega arith))

-- A bitlist stands for the list of its data bits, and on a well-formed one `AppendBit` adds one bit
-- at the end of it.
pub to_bools-append_bit :
    (n : ℕ) (bl : List ℕ) (v : Bool)
    → IsBitlist n bl
    → to_bools (append_bit bl v) ≡ to_bools bl ++ v ∷ []
unfolding data_bits
to_bools-append_bit n bl v valid =
    let e : bitlist_len (append_bit bl v) ≡ suc n =
      omega (arith, bitlist_len-IsBitlist _ _ (append_bit-IsBitlist n bl v valid)) in
    let last : get_bit (append_bit bl v) n ≡ v =
      ground (arith, get_bit-append_bit n bl v valid n) in
    rw (
      e,
      bitlist_len-IsBitlist n bl valid,
      last,
      data_bits_agree n (append_bit bl v) bl
          λ j lt. ground (arith, get_bit-append_bit n bl v valid j),
    )
