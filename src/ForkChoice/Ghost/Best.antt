-- ===== src/ForkChoice/Ghost/Best.antt =====
-- The children of a block, and the one that the walk descends to.
use gean.Base.{
  Distinct, subst, refl, sym, ◌↔◌, ◌&&◌, ℕ, ◌≤◌, ◌≡◌, ◌⊎◌, inl, inr, List, [], ◌∷◌, ◌++◌, true,
  false, arith, leb, if◌then◌else◌, Bool-cases, some, none, IsIn, same_bytes, same_bytes_iff,
  lookup, insert, lookup-insert, bytes_eq,
}
use mathlib.Core.List.{append-nil, append_assoc}
use gean.Types.Containers.{Root, Block}
use gean.ForkChoice.Ghost.{
  BlockMap, Weights, weight_of, children_of, children_loop, better, best_child,
}
use gean.ForkChoice.Ghost.Order.{Beats-irrefl, Beats-trans, Beats-total, AtLeast}

-- `c` is a stored child of `parent` whose weight reaches the minimum.
abbrev pub Child : BlockMap → Weights → ℕ → Root → Root → Type 0
Child blocks w min_score parent c =
    (b : Block) × (lookup c blocks ≡ some b)
    × (b.parent_root ≡ parent)
    × (min_score ≤ weight_of w c)

lookup_behind :
    (h c : Root) (b b' : Block) (blocks : BlockMap)
    → lookup h blocks ≡ none
    → lookup c blocks ≡ some b'
    → lookup c ((h, b) ∷ blocks) ≡ some b'
unfolding lookup
lookup_behind h c b b' blocks none_h some_c = elim (Bool-cases (same_bytes h c)) [
  | inl e ↦ let at : h ≡ c = (same_bytes_iff h c).0 e in cc (rw at at none_h, some_c)
  | inr e ↦ rw e some_c
]

lookup_front :
    (h c : Root) (b : Block) (blocks : BlockMap) → h ≡ c → lookup c ((h, b) ∷ blocks) ≡ some b
unfolding lookup
lookup_front h c b blocks e = rw ((same_bytes_iff h c).1 e)

module _ (w : Weights) (min_score : ℕ) where
  -- The children of `p`, in the order of the visit.
  abbrev child_list : BlockMap → Root → List Root
  child_list [] p = []
  child_list ((h, b) ∷ blocks) p =
      if leb min_score (weight_of w h) && same_bytes b.parent_root p
      then h ∷ child_list blocks p
      else child_list blocks p

  children_of-insert :
      (m : List (Root × List Root)) (q p : Root) (hs : List Root)
      → children_of (insert q hs m) p ≡ (if same_bytes q p then hs else children_of m p)
  unfolding children_of
  children_of-insert m q p hs = ground (arith, lookup-insert q p hs m)

  children_loop_lists :
      (blocks : BlockMap) (m : List (Root × List Root)) (p : Root)
      → children_of (children_loop w min_score blocks m) p ≡ children_of m p ++ child_list blocks p
  unfolding children_loop
  children_loop_lists [] m p = rw append-nil
  children_loop_lists ((h, b) ∷ blocks) m p = elim (Bool-cases (leb min_score (weight_of w h))) [
    | inl e ↦
        let m' = insert b.parent_root (children_of m b.parent_root ++ h ∷ []) m in
        elim (Bool-cases (same_bytes b.parent_root p)) [
          | inl q ↦ rw (
            e,
            q,
            children_loop_lists blocks m' p,
            children_of-insert m b.parent_root p (children_of m b.parent_root ++ h ∷ []),
            q,
            (same_bytes_iff b.parent_root p).0 q,
            append_assoc,
          )
          | inr q ↦ rw (
            e,
            q,
            children_loop_lists blocks m' p,
            children_of-insert m b.parent_root p (children_of m b.parent_root ++ h ∷ []),
            q,
          )
        ]
    | inr e ↦ rw (e, children_loop_lists blocks m p)
  ]

  child_list_sound :
      (blocks : BlockMap) (p c : Root)
      → Distinct blocks
      → IsIn c (child_list blocks p)
      → Child blocks w min_score p c
  child_list_sound [] p c d h = absurd h
  child_list_sound ((h, b) ∷ blocks) p c d i =
      sound (child_list_sound blocks p c d.1)
        (Bool-cases (leb min_score (weight_of w h) && same_bytes b.parent_root p))
    where
      sound :
          (IsIn c (child_list blocks p) → Child blocks w min_score p c)
          → ((leb min_score (weight_of w h) && same_bytes b.parent_root p) ≡ true)
            ⊎ ((leb min_score (weight_of w h) && same_bytes b.parent_root p) ≡ false)
          → Child ((h, b) ∷ blocks) w min_score p c
      sound ih (inl e) = elim (rw e at i) [
        | inl at ↦ (
          b,
          lookup_front h c b blocks at,
          (same_bytes_iff b.parent_root p).0 (ground arith),
          rw (← at) (ground arith),
        )
        | inr j ↦ let (b', f, q, m) = ih j in (b', lookup_behind h c b b' blocks d.0 f, q, m)
      ]
      sound ih (inr e) =
          let (b', f, q, m) = ih (rw e at i) in (b', lookup_behind h c b b' blocks d.0 f, q, m)

  child_list_complete :
      (blocks : BlockMap) (p c : Root) → Child blocks w min_score p c → IsIn c (child_list blocks p)
  unfolding lookup
  child_list_complete [] p c (b, e, q, m) = cc
  child_list_complete ((h, b') ∷ blocks) p c (b, e, q, m) = elim (Bool-cases (same_bytes h c)) [
    | inl t ↦
        let at : h ≡ c = (same_bytes_iff h c).0 t in
        let e' : some b' ≡ some b = rw t at e in
        let same : b' ≡ b = cc in
        let yes_child : (leb min_score (weight_of w h) && same_bytes b'.parent_root p) ≡ true =
          rw (at, same, (same_bytes_iff b.parent_root p).1 q) (ground arith) in
        rw yes_child (inl at)
    | inr t ↦
        let rest = child_list_complete blocks p c (b, rw t at e, q, m) in
        elim (Bool-cases (leb min_score (weight_of w h) && same_bytes b'.parent_root p)) [
          | inl u ↦ rw u (inr rest)
          | inr u ↦ rw u rest
        ]
  ]

  children_of-nil : (p : Root) → children_of [] p ≡ []
  unfolding children_of lookup
  children_of-nil p = refl

  -- `childrenMap[p]` holds exactly the stored children of `p` that reach the minimum.
  pub children_exact :
      (blocks : BlockMap) (p : Root)
      → Distinct blocks
      → (c : Root)
      → IsIn c (children_of (children_loop w min_score blocks []) p) ↔ Child blocks w min_score p c
  children_exact blocks p d c =
      rw (children_loop_lists blocks [] p, children_of-nil p)
        (child_list_sound blocks p c d, child_list_complete blocks p c)

module _ (blocks : BlockMap) (w : Weights) where
  AtLeast-trans :
      (a b c : Root) → AtLeast blocks w a b → AtLeast blocks w b c → AtLeast blocks w a c
  AtLeast-trans a b c (inl e) k = rw e k
  AtLeast-trans a b c (inr h) (inl e) = inr (rw (← e) h)
  AtLeast-trans a b c (inr h) (inr k) = inr (Beats-trans blocks w a b c h k)

  pub AtLeast-antisymm : (a b : Root) → AtLeast blocks w a b → AtLeast blocks w b a → a ≡ b
  AtLeast-antisymm a b (inl e) k = e
  AtLeast-antisymm a b (inr h) (inl e) = sym e
  AtLeast-antisymm a b (inr h) (inr k) =
      absurd (Beats-irrefl blocks w a (Beats-trans blocks w a b a h k))

  -- `r` is one of the candidates, and none of them is chosen before it.
  abbrev pub Chosen : Root → List Root → Type 0
  Chosen r cs = IsIn r cs × ((c : Root) → IsIn c cs → AtLeast blocks w r c)

  not_better : (c best : Root) → better blocks w c best ≡ false → AtLeast blocks w best c
  not_better c best e = elim (Beats-total blocks w c best) [
    | inl same ↦ inl (sym same)
    | inr (inl beats) ↦ cc (beats, e)
    | inr (inr beaten) ↦ inr beaten
  ]

  replaced :
      (r best c : Root) (cs : List Root)
      → better blocks w c best ≡ true
      → Chosen r (c ∷ cs)
      → Chosen r (best ∷ c ∷ cs)
  replaced r best c cs e (at, top) = (inr at, over)
    where
      over : (x : Root) → IsIn x (best ∷ c ∷ cs) → AtLeast blocks w r x
      over x (inl same) = AtLeast-trans r c x (top c (inl refl)) (rw (← same) (inr e))
      over x (inr h) = top x h

  retained :
      (r best c : Root) (cs : List Root)
      → better blocks w c best ≡ false
      → Chosen r (best ∷ cs)
      → Chosen r (best ∷ c ∷ cs)
  retained r best c cs e (at, top) = (still at, over)
    where
      still : IsIn r (best ∷ cs) → IsIn r (best ∷ c ∷ cs)
      still (inl same) = inl same
      still (inr h) = inr (inr h)

      over : (x : Root) → IsIn x (best ∷ c ∷ cs) → AtLeast blocks w r x
      over x (inl same) = top x (inl same)
      over x (inr (inl same)) =
          AtLeast-trans r best x (top best (inl refl)) (rw (← same) (not_better c best e))
      over x (inr (inr h)) = top x (inr h)

  best_child_cons :
      (best c r : Root) (cs : List Root)
      → (if better blocks w c best then c else best) ≡ r
      → best_child blocks w best (c ∷ cs) ≡ best_child blocks w r cs
  unfolding best_child
  best_child_cons best c r cs e = rw e

  best_child-nil : (best : Root) → best_child blocks w best [] ≡ best
  unfolding best_child
  best_child-nil best = refl

  -- The scan over the children ends with the first choice among them.
  pub best_child-Chosen :
      (best : Root) (cs : List Root) → Chosen (best_child blocks w best cs) (best ∷ cs)
  best_child-Chosen best [] = rw best_child-nil (inl refl, only)
    where
      only : (c : Root) → IsIn c (best ∷ []) → AtLeast blocks w best c
      only c (inl e) = inl e
      only c (inr h) = absurd h
  best_child-Chosen best (c ∷ cs) = elim (Bool-cases (better blocks w c best)) [
    | inl e ↦
        subst (λ r. Chosen r (best ∷ c ∷ cs)) (sym (best_child_cons best c c cs (rw e)))
          (replaced _ best c cs e (best_child-Chosen c cs))
    | inr e ↦
        subst (λ r. Chosen r (best ∷ c ∷ cs)) (sym (best_child_cons best c best cs (rw e)))
          (retained _ best c cs e (best_child-Chosen best cs))
  ]
