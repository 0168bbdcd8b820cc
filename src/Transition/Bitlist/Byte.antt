-- ===== src/Transition/Bitlist/Byte.antt =====
-- One byte of a bitlist. The laws are tables over the 256 bytes and 8 bits, checked by evaluation.
use gean.Base.{
  ℕ, zero, suc, ◌+◌, ◌-◌, ◌/◌, ◌^◌, ◌<◌, ◌≡◌, refl, Bool, true, false, not, ◌&&◌, bit_and, bit_or,
  arith, ltb, ◌==◌, ltb→lt, Bool-cases, inl, inr, if◌then◌else◌,
}

-- `for b := lastByte; b > 0; b >>= 1 { msb++ }`; a byte is 0 after 8 rounds.
unfoldable pub msb_loop : ℕ → ℕ → ℕ → ℕ
msb_loop zero b msb = msb
msb_loop (suc k) b msb = let rest = msb_loop k (b / 2) (msb + 1) in if ltb 0 b then rest else msb

-- `(b & (1 << i)) != 0`
unfoldable pub test_bit : ℕ → ℕ → Bool
test_bit b i = not (bit_and b (2 ^ i) == 0)

-- `b |= 1 << i` or `b &^= 1 << i`
unfoldable pub put_bit : ℕ → ℕ → Bool → ℕ
put_bit b i val = if val then bit_or b (2 ^ i) else bit_and b (255 - 2 ^ i)

holds_below : ℕ → (ℕ → Bool) → Bool
holds_below zero row = true
holds_below (suc bound) row = if row bound then holds_below bound row else false

holds_below_at :
    (bound : ℕ) (row : ℕ → Bool) (entry : ℕ)
    → holds_below bound row ≡ true
    → entry < bound
    → row entry ≡ true
unfolding holds_below
holds_below_at zero row entry all inside = absurd (omega arith)
holds_below_at (suc bound) row entry all inside = ground (arith, holds_below_at bound row entry)

iff : Bool → Bool → Bool
iff true b = b
iff false b = not b

iff_eq : (a b : Bool) → iff a b ≡ true → a ≡ b
unfolding iff
iff_eq true b h = ground arith
iff_eq false b h = ground arith

abbrev put_row : Bool → ℕ → ℕ → ℕ → Bool
put_row v b i j = iff (test_bit (put_bit b i v) j) (if i == j then v else test_bit b j)

put_table :
    (v : Bool) → holds_below 256 (λ b. holds_below 8 (λ i. holds_below 8 (put_row v b i))) ≡ true
unfolding holds_below test_bit put_bit iff
put_table true = refl
put_table false = refl

-- A write of one bit is read back, and changes no other bit.
pub test_bit-put_bit :
    (b i j : ℕ) (v : Bool)
    → b < 256
    → i < 8
    → j < 8
    → test_bit (put_bit b i v) j ≡ (if i == j then v else test_bit b j)
test_bit-put_bit b i j v hb hi hj = iff_eq _ _ (
    holds_below_at 8 (put_row v b i) j
      (holds_below_at 8 (λ i. holds_below 8 (put_row v b i)) i
        (holds_below_at 256 _ b (put_table v) hb) hi)
      hj)

put_bound_table :
    (v : Bool) → holds_below 256 (λ b. holds_below 8 (λ i. ltb (put_bit b i v) 256)) ≡ true
unfolding holds_below put_bit
put_bound_table true = refl
put_bound_table false = refl

pub put_bit-lt : (b i : ℕ) (v : Bool) → b < 256 → i < 8 → put_bit b i v < 256
put_bit-lt b i v hb hi =
    let e =
      holds_below_at 8 (λ i. ltb (put_bit b i v) 256) i
        (holds_below_at 256 (λ b. holds_below 8 (λ i. ltb (put_bit b i v) 256)) b
          (put_bound_table v) hb)
        hi in
    ground arith

zero_table : holds_below 8 (λ i. not (test_bit 0 i)) ≡ true
unfolding holds_below test_bit
zero_table = refl

pub test_bit-zero : (i : ℕ) → i < 8 → test_bit 0 i ≡ false
test_bit-zero i h =
    let e = holds_below_at 8 (λ i. not (test_bit 0 i)) i zero_table h in ground arith

-- `b` has bit `i`, and none above it.
top_at : ℕ → ℕ → Bool
top_at b i = test_bit b i && holds_below 8 (λ j. if ltb i j then not (test_bit b j) else true)

abbrev msb_row : ℕ → ℕ → Bool
msb_row b i = if top_at b i then msb_loop 8 b 0 == (i + 1) && ltb 0 b else true

msb_table : holds_below 256 (λ b. holds_below 8 (msb_row b)) ≡ true
unfolding holds_below test_bit top_at msb_loop
msb_table = refl

holds_below_intro : (n : ℕ) (p : ℕ → Bool) → ((x : ℕ) → x < n → p x ≡ true) → holds_below n p ≡ true
unfolding holds_below
holds_below_intro zero p h = refl
holds_below_intro (suc n) p h =
    ground (arith, h n (omega arith), holds_below_intro n p (λ x l. h x (omega arith)))

-- The loop of `BitlistLen` counts up to the highest bit.
pub msb_loop_top :
    (b i : ℕ)
    → b < 256
    → i < 8
    → test_bit b i ≡ true
    → ((j : ℕ) → i < j → j < 8 → test_bit b j ≡ false)
    → (msb_loop 8 b 0 ≡ i + 1) × (0 < b)
unfolding top_at
msb_loop_top b i hb hi top above =
    let clear : holds_below 8 (λ j. if ltb i j then not (test_bit b j) else true) ≡ true =
      holds_below_intro 8 _ λ j lt. elim (Bool-cases (ltb i j)) [
        | inl e ↦ rw (e, above j (ltb→lt i j e) lt)
        | inr e ↦ rw e
      ] in
    let row = holds_below_at 8 (msb_row b) i (holds_below_at 256 _ b msb_table hb) hi in
    ground arith
