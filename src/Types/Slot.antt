-- ===== src/Types/Slot.antt =====
-- types/slot.go: which slots may be justified. Every operation on uint64 keeps its wrap-around.
use gean.Base.{
  ℕ, zero, suc, ◌+◌, ◌-◌, ◌*◌, ◌%◌, ◌^◌, ◌≤◌, ◌<◌, ◌≡◌, ◌↔◌, ◌⊎◌, inl, inr, Bool, true, false,
  arith, ltb, leb, ◌==◌, if◌then◌else◌, Bool-cases,
}
use native.Mathlib.Nat.{mod-eq_of_lt}

abbrev pub u64_mod : ℕ
u64_mod = 2 ^ 64

-- `isqrt`, where `float_sqrt n` is `uint64(math.Sqrt(float64(n)))`. `x - 1` is reached with `0 < x`.
unfoldable pub isqrt : (ℕ → ℕ) → ℕ → ℕ
isqrt float_sqrt n =
    if n == 0
    then 0
    else let x = float_sqrt n in
      let up = (x + 1) % u64_mod in
      if leb (up * up % u64_mod) n then up else if ltb n (x * x % u64_mod) then x - 1 else x

unfoldable pub is_justifiable_after : (ℕ → ℕ) → ℕ → ℕ → Bool
unfolding isqrt
is_justifiable_after float_sqrt slot finalized =
    if ltb slot finalized
    then false
    else let delta = slot - finalized in
      if leb delta 5
      then true
      else let s = isqrt float_sqrt delta in
        if s * s % u64_mod == delta then true else s * ((s + 1) % u64_mod) % u64_mod == delta

-- The square root in floating point is off by at most one.
abbrev pub IsClose : (ℕ → ℕ) → Type 0
IsClose f =
    (n : ℕ) → n < u64_mod → 0 < n → ((f n - 1) * (f n - 1) ≤ n) × (n < (f n + 2) * (f n + 2))

-- (2^32 - 2)^2: below it no product of `isqrt` wraps around.
abbrev pub exact_limit : ℕ
exact_limit = (2 ^ 32 - 2) * (2 ^ 32 - 2)

square_lt : (a b : ℕ) → a * a < b * b → a < b
square_lt a b h = grind arith

square_le : (a b : ℕ) → a ≤ b → a * a ≤ b * b
square_le a b h = grind arith

module _ (f : ℕ → ℕ) (n : ℕ) (close : IsClose f) (h : n < exact_limit) (pos : 0 < n) where
  float_sqrt-le : f n ≤ 2 ^ 32 - 2
  float_sqrt-le = omega (arith, square_lt (f n - 1) (2 ^ 32 - 2) (omega (arith, close n)))

  isqrt_exact : isqrt f n ≡ (
      if leb ((f n + 1) * (f n + 1)) n then f n + 1 else if ltb n (f n * f n) then f n - 1 else f n)
  unfolding isqrt
  isqrt_exact =
      let small = float_sqrt-le in
      let e : (f n + 1) % u64_mod ≡ f n + 1 = omega arith in
      let p : (f n + 1) * (f n + 1) < u64_mod =
        omega (arith, square_le (f n + 1) (2 ^ 32 - 1) (omega arith)) in
      let q : f n * f n < u64_mod = omega (arith, square_le (f n) (2 ^ 32 - 2) small) in
      let e' : n == 0 ≡ false = ground arith in rw (e', e, mod-eq_of_lt p, mod-eq_of_lt q)

  isqrt_floor_pos : (isqrt f n * isqrt f n ≤ n) × (n < (isqrt f n + 1) * (isqrt f n + 1))
  isqrt_floor_pos = rw isqrt_exact (grind (arith, close n))

-- Where no product wraps, isqrt is the floor of the square root.
pub isqrt_floor :
    (f : ℕ → ℕ) (n : ℕ)
    → IsClose f
    → n < exact_limit
    → (isqrt f n * isqrt f n ≤ n) × (n < (isqrt f n + 1) * (isqrt f n + 1))
unfolding isqrt
isqrt_floor f zero close h = (omega arith, omega arith)
isqrt_floor f (suc n) close h = isqrt_floor_pos f (suc n) close h (omega arith)

-- The specification: the distance is at most 5, a perfect square or a pronic number.
abbrev pub IsJustifiable : ℕ → ℕ → Type 0
IsJustifiable slot finalized =
    (finalized ≤ slot)
    × ((slot - finalized ≤ 5)
        ⊎ (((n : ℕ) × (n * n ≡ slot - finalized)) ⊎ ((n : ℕ) × (n * (n + 1) ≡ slot - finalized))))

module _ (s n d : ℕ) (low : s * s ≤ d) (high : d < (s + 1) * (s + 1)) where
  square_root_unique : n * n ≡ d → n ≡ s
  square_root_unique e =
      omega (arith, square_lt s (n + 1) (grind arith), square_lt n (s + 1) (omega arith))

  pronic_root_unique : n * (n + 1) ≡ d → n ≡ s
  pronic_root_unique e =
      omega (arith, square_lt s (n + 1) (grind arith), square_lt n (s + 1) (grind arith))

-- The rule with exact arithmetic, for a root `s` of the distance.
abbrev justifiable_with : ℕ → ℕ → ℕ → Bool
justifiable_with slot finalized s =
    let d = slot - finalized in
    if ltb slot finalized
    then false
    else if leb d 5
    then true
    else if s * s == d
    then true
    else s * (s + 1) == d

justifiable_with_sound :
    (slot finalized s : ℕ) → justifiable_with slot finalized s ≡ true → IsJustifiable slot finalized
justifiable_with_sound slot finalized s h = elim (Bool-cases (leb (slot - finalized) 5)) [
  | inl near ↦ (ground arith, inl (ground arith))
  | inr far ↦ elim (Bool-cases (s * s == slot - finalized)) [
    | inl square ↦ (ground arith, inr (inl (s, ground arith)))
    | inr other ↦ (ground arith, inr (inr (s, ground arith)))
  ]
]

justifiable_with_complete :
    (slot finalized s : ℕ)
    → s * s ≤ slot - finalized
    → slot - finalized < (s + 1) * (s + 1)
    → IsJustifiable slot finalized
    → justifiable_with slot finalized s ≡ true
justifiable_with_complete slot finalized s low high (after, inl near) = ground arith
justifiable_with_complete slot finalized s low high (after, inr (inl (n, e))) =
    let same = square_root_unique s n _ low high e in
    let e' : s * s ≡ slot - finalized = rw (← same) e in ground arith
justifiable_with_complete slot finalized s low high (after, inr (inr (n, e))) =
    let same = pronic_root_unique s n _ low high e in
    let e' : s * (s + 1) ≡ slot - finalized = rw (← same) e in ground arith

module _ (f : ℕ → ℕ) (slot finalized : ℕ) (close : IsClose f)
    (h : slot - finalized < exact_limit) where
  root_exact : isqrt f (slot - finalized) < 2 ^ 32 - 2
  root_exact = square_lt _ _ (omega (arith, isqrt_floor f (slot - finalized) close h))

  justifiable_exact :
      is_justifiable_after f slot finalized
      ≡ justifiable_with slot finalized (isqrt f (slot - finalized))
  unfolding is_justifiable_after
  justifiable_exact =
      let s = isqrt f (slot - finalized) in
      let e : (s + 1) % u64_mod ≡ s + 1 = omega (arith, root_exact) in
      let p : s * s % u64_mod ≡ s * s =
        mod-eq_of_lt (omega (arith, isqrt_floor f (slot - finalized) close h)) in
      let q : s * (s + 1) % u64_mod ≡ s * (s + 1) =
        mod-eq_of_lt (omega (arith, root_exact, isqrt_floor f (slot - finalized) close h)) in
      rw (e, p, q)

-- Where the square root is off by at most one below 2^64 and the distance is below (2^32 - 2)^2, a
-- slot is justifiable exactly when it is not before the finalized slot and the distance is at most
-- 5, a perfect square or a pronic number.
pub is_justifiable_after_iff :
    (f : ℕ → ℕ) (slot finalized : ℕ)
    → IsClose f
    → slot - finalized < exact_limit
    → (is_justifiable_after f slot finalized ≡ true) ↔ IsJustifiable slot finalized
is_justifiable_after_iff f slot finalized close h =
    let floor = isqrt_floor f (slot - finalized) close h in
    rw (justifiable_exact f slot finalized close h) (
      justifiable_with_sound slot finalized _,
      justifiable_with_complete slot finalized _ floor.0 floor.1,
    )

-- Near the top of uint64 the rule is not the documented one: at the distance (2^32 - 1)^2, a
-- perfect square, where the floating-point root is exact, `isqrt` wraps around, and the slot is
-- refused.
pub is_justifiable_after_wraps :
    (f : ℕ → ℕ) (finalized : ℕ)
    → f ((2 ^ 32 - 1) * (2 ^ 32 - 1)) ≡ 2 ^ 32 - 1
    → let slot = finalized + (2 ^ 32 - 1) * (2 ^ 32 - 1) in
      (is_justifiable_after f slot finalized ≡ false) × IsJustifiable slot finalized
unfolding is_justifiable_after isqrt
is_justifiable_after_wraps f finalized e =
    let d : finalized + (2 ^ 32 - 1) * (2 ^ 32 - 1) - finalized ≡ (2 ^ 32 - 1) * (2 ^ 32 - 1) =
      omega arith in
    (rw (d, e) (ground arith), (omega arith, inr (inl (2 ^ 32 - 1, omega arith))))
