-- ===== src/Base/Slices.antt =====
-- Go's `buf[a:b]`, where `a <= b <= len(buf)`.
use Prim.Native.Nat.{ℕ, zero, suc, ◌+◌, ◌-◌, ◌≤◌}
use mathlib.Core.Path.{◌≡◌, refl, ap}
use mathlib.Core.List.{List, [], ◌∷◌, ◌++◌}
use native.Mathlib.Omega.{arith}
use gean.Base.Lists.{length, take, drop, take_all, All}

module _ {A : Type 0} where
  unfoldable pub slice : ℕ → ℕ → List A → List A
  slice a b xs = take (b - a) (drop a xs)

  take_front : (n : ℕ) (xs ys : List A) → length xs ≡ n → take n (xs ++ ys) ≡ xs
  take_front zero [] ys e = refl
  take_front zero (x ∷ xs) ys e = absurd (omega (arith, e))
  take_front (suc n) [] ys e = absurd (omega (arith, e))
  take_front (suc n) (x ∷ xs) ys e = ap (◌∷◌ x) (take_front n xs ys (omega (arith, e)))

  drop_front : (m a : ℕ) (xs ys : List A) → m ≡ length xs + a → drop m (xs ++ ys) ≡ drop a ys
  drop_front m a [] ys e = ap (λ k. drop k ys) (omega (arith, e))
  drop_front zero a (x ∷ xs) ys e = absurd (omega (arith, e))
  drop_front (suc m) a (x ∷ xs) ys e = drop_front m a xs ys (omega (arith, e))

  -- The part in front.
  pub slice_first : (n : ℕ) (xs ys : List A) → length xs ≡ n → slice 0 n (xs ++ ys) ≡ xs
  unfolding slice
  slice_first n xs ys e = take_front (n - 0) xs ys (omega (arith, e))

  pub slice_whole : (n : ℕ) (xs : List A) → length xs ≡ n → slice 0 n xs ≡ xs
  unfolding slice
  slice_whole n xs e = take_all (n - 0) xs (omega (arith, e))

  pub slice_none : (a b : ℕ) (xs : List A) → b ≤ a → slice a b xs ≡ []
  unfolding slice
  slice_none a b xs h = let empty : b - a ≡ 0 = omega arith in rw empty

  -- The part behind `xs`, of length `n`.
  pub slice_behind :
      (n a b : ℕ) (xs ys : List A) → length xs ≡ n → slice (n + a) (n + b) (xs ++ ys) ≡ slice a b ys
  unfolding slice
  slice_behind n a b xs ys e =
      let same : n + b - (n + a) ≡ b - a = omega arith in
      rw (same, drop_front (n + a) a xs ys (omega (arith, e)))

  pub slice_past :
      (n a b i j : ℕ) (xs ys : List A)
      → length xs ≡ n
      → i ≡ n + a
      → j ≡ n + b
      → slice i j (xs ++ ys) ≡ slice a b ys
  slice_past n a b i j xs ys e ei ej = rw (ei, ej) (slice_behind n a b xs ys e)

  -- The part between `xs` and `zs`.
  pub slice_middle :
      (a b : ℕ) (xs ys zs : List A)
      → length xs ≡ a
      → a + length ys ≡ b
      → slice a b (xs ++ (ys ++ zs)) ≡ ys
  unfolding slice
  slice_middle a b xs ys zs e e' =
      rw (drop_front a 0 xs (ys ++ zs) (omega (arith, e)))
        (take_front (b - a) ys zs (omega (arith, e')))

  take-take : (i j k : ℕ) (xs : List A) → k ≡ i + j → take i xs ++ take j (drop i xs) ≡ take k xs
  take-take zero j k xs e = ap (λ m. take m xs) (omega (arith, e))
  take-take (suc i) j zero xs e = absurd (omega (arith, e))
  take-take (suc i) zero (suc k) [] e = refl
  take-take (suc i) (suc j) (suc k) [] e = refl
  take-take (suc i) j (suc k) (x ∷ xs) e = ap (◌∷◌ x) (take-take i j k xs (omega (arith, e)))

  pub drop-drop : (i j k : ℕ) (xs : List A) → k ≡ i + j → drop j (drop i xs) ≡ drop k xs
  drop-drop zero j k xs e = ap (λ m. drop m xs) (omega (arith, e))
  drop-drop (suc i) j zero xs e = absurd (omega (arith, e))
  drop-drop (suc i) zero (suc k) [] e = refl
  drop-drop (suc i) (suc j) (suc k) [] e = refl
  drop-drop (suc i) j (suc k) (x ∷ xs) e = drop-drop i j k xs (omega (arith, e))

  pub take-append-drop : (n : ℕ) (xs : List A) → take n xs ++ drop n xs ≡ xs
  take-append-drop zero xs = refl
  take-append-drop (suc n) [] = refl
  take-append-drop (suc n) (x ∷ xs) = ap (◌∷◌ x) (take-append-drop n xs)

  pub drop_all : (n : ℕ) (xs : List A) → length xs ≤ n → drop n xs ≡ []
  drop_all zero [] h = refl
  drop_all zero (x ∷ xs) h = absurd (omega arith)
  drop_all (suc n) [] h = refl
  drop_all (suc n) (x ∷ xs) h = drop_all n xs (omega arith)

  -- Slices that meet join.
  pub slice_join :
      (a b c : ℕ) (xs : List A) → a ≤ b → b ≤ c → slice a b xs ++ slice b c xs ≡ slice a c xs
  unfolding slice
  slice_join a b c xs h k =
      let behind : drop (b - a) (drop a xs) ≡ drop b xs = drop-drop a (b - a) b xs (omega arith) in
      rw (← behind) (take-take (b - a) (c - b) (c - a) (drop a xs) (omega arith))

  pub length-drop : (n : ℕ) (xs : List A) → length (drop n xs) ≡ length xs - n
  length-drop zero xs = omega arith
  length-drop (suc n) [] = omega arith
  length-drop (suc n) (x ∷ xs) = omega (arith, length-drop n xs)

  length-take_le : (n : ℕ) (xs : List A) → n ≤ length xs → length (take n xs) ≡ n
  length-take_le zero xs h = refl
  length-take_le (suc n) [] h = absurd (omega arith)
  length-take_le (suc n) (x ∷ xs) h = ap suc (length-take_le n xs (omega arith))

  pub length-slice : (a b : ℕ) (xs : List A) → a ≤ b → b ≤ length xs → length (slice a b xs) ≡ b - a
  unfolding slice
  length-slice a b xs h k = length-take_le (b - a) (drop a xs) (omega (arith, length-drop a xs))

  take-All : (P : A → Type 0) (n : ℕ) (xs : List A) → All P xs → All P (take n xs)
  take-All P zero xs h = tt
  take-All P (suc n) [] h = tt
  take-All P (suc n) (x ∷ xs) h = (h.0, take-All P n xs h.1)

  drop-All : (P : A → Type 0) (n : ℕ) (xs : List A) → All P xs → All P (drop n xs)
  drop-All P zero xs h = h
  drop-All P (suc n) [] h = tt
  drop-All P (suc n) (x ∷ xs) h = drop-All P n xs h.1

  pub slice-All : (P : A → Type 0) (a b : ℕ) (xs : List A) → All P xs → All P (slice a b xs)
  unfolding slice
  slice-All P a b xs h = take-All P (b - a) (drop a xs) (drop-All P a xs h)
