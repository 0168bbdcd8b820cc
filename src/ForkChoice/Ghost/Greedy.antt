-- ===== src/ForkChoice/Ghost/Greedy.antt =====
-- Greedy walks down the tree of blocks: what they are, and that each has one end.
use gean.Base.{ℕ, ◌≡◌, refl, sym, subst, ◌∙◌, ◌⊎◌, inl, inr, some, lookup, bytes_eq}
use gean.Types.Containers.{Root, Block}
use gean.ForkChoice.Ghost.{BlockMap, Weights, weight_of, slot_of}
use gean.ForkChoice.Ghost.Order.{AtLeast, Precedes, Beats-Precedes, Precedes-Beats}
use gean.ForkChoice.Ghost.Best.{Child, AtLeast-antisymm}

-- Of two stored children, the first is the second or is chosen before it, for its weight, then for
-- the slot of its block, then for its hash.
abbrev pub First :
    (blocks : BlockMap) (w : Weights) (min_score : ℕ) (r c d : Root)
    → Child blocks w min_score r c
    → Child blocks w min_score r d
    → Type 0
First blocks w min_score r c d child other =
    (c ≡ d) ⊎ Precedes (weight_of w c) child.0.slot c (weight_of w d) other.0.slot d

-- From `r` the walk goes down to the child that every other child is not chosen before, as long as
-- there is a child that reaches the minimum, and ends at `e`.
pub data GhostPath (blocks : BlockMap) (w : Weights) (min_score : ℕ) : Root → Root → Type 0 where
  leaf :
      (r e : Root)
      → r ≡ e
      → ((c : Root) → ¬ Child blocks w min_score r c)
      → GhostPath blocks w min_score r e
  down :
      (r c e : Root)
      → (child : Child blocks w min_score r c)
      → ((d : Root) (other : Child blocks w min_score r d)
          → First blocks w min_score r c d child other)
      → GhostPath blocks w min_score c e
      → GhostPath blocks w min_score r e

slot_of-stored :
    (blocks : BlockMap) (h : Root) (b : Block)
    → lookup h blocks ≡ some b
    → slot_of blocks h ≡ b.slot
unfolding slot_of
slot_of-stored blocks h b e = rw (e, slot_of)

-- The comparison of the code and the order are the same on the children.
module _ (blocks : BlockMap) (w : Weights) (min_score : ℕ) (r c d : Root)
    (child : Child blocks w min_score r c) (other : Child blocks w min_score r d) where
  pub AtLeast-First : AtLeast blocks w c d → First blocks w min_score r c d child other
  AtLeast-First (inl e) = inl e
  AtLeast-First (inr beats) = inr (
      Beats-Precedes blocks w c d _ _ _ _ refl (slot_of-stored blocks c child.0 child.1) refl
        (slot_of-stored blocks d other.0 other.1) beats)

  pub First-AtLeast : First blocks w min_score r c d child other → AtLeast blocks w c d
  First-AtLeast (inl e) = inl e
  First-AtLeast (inr over) = inr (
      Precedes-Beats blocks w c d _ _ _ _ refl (slot_of-stored blocks c child.0 child.1) refl
        (slot_of-stored blocks d other.0 other.1) over)

-- Two visits of the same blocks with the same weights.
module _ (blocks blocks' : BlockMap) (w w' : Weights) (min_score : ℕ)
    (same_blocks : (h : Root) → lookup h blocks ≡ lookup h blocks')
    (same_weights : (h : Root) → weight_of w h ≡ weight_of w' h) where
  same-Child : (r c : Root) → Child blocks w min_score r c → Child blocks' w' min_score r c
  same-Child r c (b, e, q, m) = (b, sym (same_blocks c) ∙ e, q, rw (← same_weights c) m)

  same_First :
      (r c d : Root) (child : Child blocks w min_score r c) (other : Child blocks w min_score r d)
      → First blocks w min_score r c d child other
      → First blocks' w' min_score r c d (same-Child r c child) (same-Child r d other)
  unfolding same-Child
  same_First r c d child other f = rw (← same_weights c, ← same_weights d) f

-- So a greedy walk over the one is a greedy walk over the other.
pub GhostPath-transfer :
    (blocks blocks' : BlockMap) (w w' : Weights) (min_score : ℕ)
    → ((h : Root) → lookup h blocks ≡ lookup h blocks')
    → ((h : Root) → weight_of w h ≡ weight_of w' h)
    → {r e : Root} → GhostPath blocks w min_score r e
    → GhostPath blocks' w' min_score r e
unfolding same-Child
GhostPath-transfer blocks blocks' w w' min_score sb sw (leaf r e same none_left) =
    leaf r e same λ c child.
      none_left c
        (same-Child blocks' blocks w' w min_score (λ h. sym (sb h)) (λ h. sym (sw h)) r c child)
GhostPath-transfer blocks blocks' w w' min_score sb sw (down r c e child top rest) =
    down r c e (same-Child blocks blocks' w w' min_score sb sw r c child)
      (λ d other.
        let back =
          same-Child blocks' blocks w' w min_score (λ h. sym (sb h)) (λ h. sym (sw h)) r d other in
        same_First blocks blocks' w w' min_score sb sw r c d child back (top d back))
      (GhostPath-transfer blocks blocks' w w' min_score sb sw rest)

-- A greedy walk has one end.
pub GhostPath-unique :
    (blocks : BlockMap) (w : Weights) (min_score : ℕ) (r e e' : Root)
    → GhostPath blocks w min_score r e
    → GhostPath blocks w min_score r e'
    → e ≡ e'
GhostPath-unique blocks w min_score r e e' (leaf _ _ same none_left) (leaf _ _ same' none_left') =
    sym same ∙ same'
GhostPath-unique blocks w min_score r e e' (leaf _ _ same none_left) (down _ c _ child top rest) =
    absurd (none_left c child)
GhostPath-unique blocks w min_score r e e' (down _ c _ child top rest) (leaf _ _ same none_left) =
    absurd (none_left c child)
GhostPath-unique blocks w min_score r e e' (down _ c _ child top rest)
      (down _ c' _ child' top' rest') =
    let same =
      AtLeast-antisymm blocks w c c'
        (First-AtLeast blocks w min_score r c c' child child' (top c' child'))
        (First-AtLeast blocks w min_score r c' c child' child (top' c child)) in
    GhostPath-unique blocks w min_score c e e' rest
      (subst (λ d. GhostPath blocks w min_score d e') (sym same) rest')
