-- ===== src/ForkChoice/Ghost/Order.antt =====
-- The order by which a child is chosen: weight, then slot, then hash. It is a strict total order.
use gean.Base.{
  ℕ, ◌≡◌, ◌<◌, refl, ◌⊎◌, inl, inr, [], ◌∷◌, true, false, arith, ltb, ◌==◌, ◌&&◌, Bool-cases,
}
use gean.Types.Containers.{Root}
use gean.ForkChoice.Ghost.{BlockMap, Weights, weight_of, slot_of, hash_greater, better}

hash_greater_irrefl : (a : Root) → hash_greater a a ≡ false
unfolding hash_greater
hash_greater_irrefl [] = refl
hash_greater_irrefl (x ∷ a) = ground (arith, hash_greater_irrefl a)

hash_greater_trans :
    (a b c : Root) → hash_greater a b ≡ true → hash_greater b c ≡ true → hash_greater a c ≡ true
unfolding hash_greater
hash_greater_trans [] b c h k = cc
hash_greater_trans (x ∷ a) [] c h k = cc
hash_greater_trans (x ∷ a) (y ∷ b) [] h k = refl
hash_greater_trans (x ∷ a) (y ∷ b) (z ∷ c) h k = ground (arith, hash_greater_trans a b c)

hash_greater_total :
    (a b : Root) → (a ≡ b) ⊎ ((hash_greater a b ≡ true) ⊎ (hash_greater b a ≡ true))
unfolding hash_greater
hash_greater_total [] [] = inl refl
hash_greater_total [] (y ∷ b) = inr (inr refl)
hash_greater_total (x ∷ a) [] = inr (inl refl)
hash_greater_total (x ∷ a) (y ∷ b) = ground (arith, hash_greater_total a b)

-- The lexicographic order of hashes, as a relation.
abbrev pub HashGreater : Root → Root → Type 0
HashGreater [] b = ⊥
HashGreater (x ∷ a) [] = Unit
HashGreater (x ∷ a) (y ∷ b) = (y < x) ⊎ ((x ≡ y) × HashGreater a b)

hash_greater-HashGreater : (a b : Root) → hash_greater a b ≡ true → HashGreater a b
unfolding hash_greater
hash_greater-HashGreater [] b h = cc
hash_greater-HashGreater (x ∷ a) [] h = tt
hash_greater-HashGreater (x ∷ a) (y ∷ b) h = elim (Bool-cases (ltb y x)) [
  | inl above ↦ inl (ground arith)
  | inr below ↦ inr (ground arith, hash_greater-HashGreater a b (ground arith))
]

HashGreater-hash_greater : (a b : Root) → HashGreater a b → hash_greater a b ≡ true
unfolding hash_greater
HashGreater-hash_greater [] b h = absurd h
HashGreater-hash_greater (x ∷ a) [] h = refl
HashGreater-hash_greater (x ∷ a) (y ∷ b) (inl above) = ground arith
HashGreater-hash_greater (x ∷ a) (y ∷ b) (inr (same, rest)) =
    ground (arith, HashGreater-hash_greater a b rest)

-- A block of weight `n` and slot `s` under the hash `a` is chosen before one of weight `m` and slot
-- `t` under the hash `b`: it is heavier, or as heavy and of a later slot, or as heavy and of the same
-- slot and of a greater hash.
abbrev pub Precedes : ℕ → ℕ → Root → ℕ → ℕ → Root → Type 0
Precedes n s a m t b = (m < n) ⊎ (((n ≡ m) × (t < s)) ⊎ ((n ≡ m) × (s ≡ t) × HashGreater a b))

module _ (blocks : BlockMap) (w : Weights) where
  abbrev pub Beats : Root → Root → Type 0
  Beats a b = better blocks w a b ≡ true

  -- The test of the code is this order, for blocks that are stored.
  pub Beats-Precedes :
      (a b : Root) (n s m t : ℕ)
      → weight_of w a ≡ n
      → slot_of blocks a ≡ s
      → weight_of w b ≡ m
      → slot_of blocks b ≡ t
      → Beats a b
      → Precedes n s a m t b
  unfolding better
  Beats-Precedes a b n s m t n' s' m' t' h = elim (Bool-cases (ltb m n)) [
    | inl heavier ↦ inl (ground arith)
    | inr lighter ↦ elim (Bool-cases (n == m && ltb t s)) [
      | inl later ↦ inr (inl (ground arith, ground arith))
      | inr other ↦
          inr (inr (ground arith, ground arith, hash_greater-HashGreater a b (ground arith)))
    ]
  ]

  pub Precedes-Beats :
      (a b : Root) (n s m t : ℕ)
      → weight_of w a ≡ n
      → slot_of blocks a ≡ s
      → weight_of w b ≡ m
      → slot_of blocks b ≡ t
      → Precedes n s a m t b
      → Beats a b
  unfolding better
  Precedes-Beats a b n s m t n' s' m' t' (inl heavier) = ground arith
  Precedes-Beats a b n s m t n' s' m' t' (inr (inl (same, later))) = ground arith
  Precedes-Beats a b n s m t n' s' m' t' (inr (inr (same, level, greater))) =
      ground (arith, HashGreater-hash_greater a b greater)

  pub Beats-irrefl : (a : Root) → Beats a a → ⊥
  unfolding better
  Beats-irrefl a h = ground (arith, hash_greater_irrefl a)

  pub Beats-trans : (a b c : Root) → Beats a b → Beats b c → Beats a c
  unfolding better
  Beats-trans a b c h k = ground (arith, hash_greater_trans a b c)

  pub Beats-total : (a b : Root) → (a ≡ b) ⊎ (Beats a b ⊎ Beats b a)
  unfolding better
  Beats-total a b = ground (arith, hash_greater_total a b)

  -- `a` is `b` or is chosen before it.
  abbrev pub AtLeast : Root → Root → Type 0
  AtLeast a b = (a ≡ b) ⊎ Beats a b
