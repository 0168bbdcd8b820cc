-- ===== src/Transition/Bitlist/Laws.antt =====
-- The bit view of a bitlist: what a read sees after a write, a growth or a reset.
use gean.Base.{
  IsByte, Bytes, ℕ, zero, suc, ◌+◌, ◌-◌, ◌*◌, ◌/◌, ◌%◌, ◌≤◌, ◌<◌, ◌≡◌, refl, List, [], ◌∷◌, ◌++◌,
  Bool, true, false, inl, inr, arith, ltb, ◌==◌, if◌then◌else◌, Bool-cases, length, get_or, set,
  length-append, length-set, get_or-set, get_or_beyond, All-get_or, All-set, All-append,
}
use gean.Transition.Bitlist.{bitlist_len, get_bit, put_at, grow}
use gean.Transition.Bitlist.Byte.{
  msb_loop, test_bit, put_bit, test_bit-put_bit, put_bit-lt, test_bit-zero, msb_loop_top,
}

-- `bl` holds `n` data bits: the sentinel stands at `n`, in the last byte, and nothing above it.
pub record IsBitlist (n : ℕ) (bl : List ℕ) : Type 0 where
  pub bytes : Bytes bl
  pub size : length bl ≡ n / 8 + 1
  pub sentinel : get_bit bl n ≡ true
  pub above : (j : ℕ) → n < j → get_bit bl j ≡ false

pub get_bit_lem : (bl : List ℕ) (j : ℕ) → get_bit bl j ≡ test_bit (get_or bl (j / 8) 0) (j % 8)
unfolding get_bit
get_bit_lem bl j = ground (arith, get_or_beyond bl (j / 8) 0, test_bit-zero (j % 8) (omega arith))

byte_at : (bl : List ℕ) (i : ℕ) → Bytes bl → get_or bl i 0 < 256
byte_at bl i h = All-get_or IsByte bl i 0 h (omega arith)

pub length-put_at : (bl : List ℕ) (i : ℕ) (v : Bool) → length (put_at bl i v) ≡ length bl
unfolding put_at
length-put_at bl i v = length-set bl (i / 8) _

pub put_at-Bytes : (bl : List ℕ) (i : ℕ) (v : Bool) → Bytes bl → Bytes (put_at bl i v)
unfolding put_at
put_at-Bytes bl i v h =
    All-set IsByte bl (i / 8) _ h (put_bit-lt _ (i % 8) v (byte_at bl (i / 8) h) (omega arith))

pub get_bit-put_at :
    (bl : List ℕ) (i j : ℕ) (v : Bool)
    → Bytes bl
    → i / 8 < length bl
    → get_bit (put_at bl i v) j ≡ (if i == j then v else get_bit bl j)
unfolding put_at
get_bit-put_at bl i j v h range =
    let b = put_bit (get_or bl (i / 8) 0) (i % 8) v in
    ground (
      arith,
      get_bit_lem (set bl (i / 8) b) j,
      get_bit_lem bl j,
      get_or-set bl (i / 8) (j / 8) b 0,
      test_bit-put_bit (get_or bl (i / 8) 0) (i % 8) (j % 8) v (byte_at bl (i / 8) h),
    )

pub length-grow :
    (k : ℕ) (bl : List ℕ) (needed : ℕ)
    → length bl ≤ needed
    → needed ≤ length bl + k
    → length (grow k bl needed) ≡ needed
unfolding grow
length-grow zero bl needed h h' = omega arith
length-grow (suc k) bl needed h h' = ground (
  arith,
  length-append bl (0 ∷ []),
  length-grow k (if ltb (length bl) needed then bl ++ 0 ∷ [] else bl) needed,
)

pub grow-Bytes : (k : ℕ) (bl : List ℕ) (needed : ℕ) → Bytes bl → Bytes (grow k bl needed)
unfolding grow
grow-Bytes zero bl needed h = h
grow-Bytes (suc k) bl needed h = elim (Bool-cases (ltb (length bl) needed)) [
  | inl e ↦ rw e (grow-Bytes k _ needed (All-append IsByte bl _ h (omega arith, tt)))
  | inr e ↦ rw e (grow-Bytes k bl needed h)
]

get_or-append_zero : (bl : List ℕ) (j : ℕ) → get_or (bl ++ 0 ∷ []) j 0 ≡ get_or bl j 0
get_or-append_zero [] zero = refl
get_or-append_zero [] (suc j) = refl
get_or-append_zero (x ∷ bl) zero = refl
get_or-append_zero (x ∷ bl) (suc j) = get_or-append_zero bl j

get_or-grow : (k : ℕ) (bl : List ℕ) (needed j : ℕ) → get_or (grow k bl needed) j 0 ≡ get_or bl j 0
unfolding grow
get_or-grow zero bl needed j = refl
get_or-grow (suc k) bl needed j = ground (
  arith,
  get_or-append_zero bl j,
  get_or-grow k (if ltb (length bl) needed then bl ++ 0 ∷ [] else bl) needed j,
)

-- Growth adds zero bytes, in which no bit is set.
pub get_bit-grow :
    (k : ℕ) (bl : List ℕ) (needed j : ℕ) → get_bit (grow k bl needed) j ≡ get_bit bl j
get_bit-grow k bl needed j =
    ground
      (arith, get_bit_lem (grow k bl needed) j, get_bit_lem bl j, get_or-grow k bl needed (j / 8))

last_byte_top :
    (n : ℕ) (bl : List ℕ)
    → IsBitlist n bl
    → (msb_loop 8 (get_or bl (length bl - 1) 0) 0 ≡ n % 8 + 1) × (0 < get_or bl (length bl - 1) 0)
last_byte_top n bl v =
    let e : length bl - 1 ≡ n / 8 = omega (arith, v.size) in
    rw e (
      msb_loop_top _ (n % 8) (byte_at bl (n / 8) v.bytes) (omega arith)
        (rw get_bit_lem at v.sentinel)
        λ j lt small.
          let k = n / 8 * 8 + j in
          let p : k / 8 ≡ n / 8 = omega arith in
          let q : k % 8 ≡ j = omega arith in rw (get_bit_lem, p, q) at (v.above k (omega arith)))

-- `BitlistLen` finds the sentinel.
pub bitlist_len-IsBitlist : (n : ℕ) (bl : List ℕ) → IsBitlist n bl → bitlist_len bl ≡ n
unfolding bitlist_len
bitlist_len-IsBitlist n bl v = ground (arith, last_byte_top n bl v, v.size)
