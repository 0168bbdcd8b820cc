-- ===== src/ForkChoice/Ghost/Path.antt =====
-- The head is the end of the greedy walk down the tree, for every order of iteration.
use gean.Base.{
  Distinct, ◌≢◌, insert, ℕ, zero, suc, ◌+◌, ◌≤◌, ◌<◌, ◌≡◌, refl, sym, ap, subst, ◌∙◌, ◌⊎◌, inl, inr,
  List, [], ◌∷◌, false, arith, Bool-cases, Option-cases, some, IsIn, same_bytes, same_bytes_iff,
  lookup, bytes_eq, Perm,
}
use gean.Types.Containers.{Root, zero_hash, Block}
use gean.ForkChoice.Ghost.{
  BlockMap, Weights, AttestationMap, weight_of, climb, count_vote, count_votes, children_of,
  children_loop, best_child, walk, highest_slot, head_from, get_fork_choice_head,
}
use gean.ForkChoice.Ghost.Greedy.{
  GhostPath, leaf, down, AtLeast-First, GhostPath-transfer, GhostPath-unique,
}
use gean.ForkChoice.Ghost.Best.{children_exact, best_child-Chosen}
use gean.ForkChoice.Ghost.Votes.{Falls, Counted, count_votes-Counted, weight_of-count_votes_perm}

highest_slot-le :
    (blocks : BlockMap) (h : Root) (b : Block)
    → lookup h blocks ≡ some b
    → b.slot ≤ highest_slot blocks
unfolding highest_slot lookup
highest_slot-le [] h b e = cc
highest_slot-le ((j, c) ∷ blocks) h b e = ground (arith, highest_slot-le blocks h b)

module _ (blocks : BlockMap) (w : Weights) (min_score : ℕ) (distinct : Distinct blocks)
    (falls : Falls blocks) where
  abbrev children : List (Root × List Root)
  children = children_loop w min_score blocks []

  walk-nil : (k : ℕ) (r : Root) → children_of children r ≡ [] → walk (suc k) blocks w children r ≡ r
  unfolding walk
  walk-nil k r e = rw (e, walk)

  walk-cons :
      (k : ℕ) (r best : Root) (cs : List Root)
      → children_of children r ≡ best ∷ cs
      → walk (suc k) blocks w children r ≡ walk k blocks w children (best_child blocks w best cs)
  unfolding walk
  walk-cons k r best cs e = rw (e, walk)

  List-cases : {A : Type 0} (l : List A) → (l ≡ []) ⊎ ((a : A) × (r : List A) × (l ≡ a ∷ r))
  List-cases [] = inl refl
  List-cases (a ∷ r) = inr (a, r, refl)

  -- With a round for each slot above the current block's, and two more, the walk ends at a leaf.
  walk-GhostPath :
      (k : ℕ) (r : Root) (b : Block)
      → lookup r blocks ≡ some b
      → highest_slot blocks < b.slot + k
      → GhostPath blocks w min_score r (walk k blocks w children r)
  walk-GhostPath zero r b e lt = absurd (omega (arith, highest_slot-le blocks r b e))
  walk-GhostPath (suc k) r b e lt = elim (List-cases (children_of children r)) [
    | inl none_left ↦ leaf r _ (sym (walk-nil k r none_left)) (λ c child.
        subst (IsIn c) none_left ((children_exact w min_score blocks r distinct c).1 child))
    | inr (best, cs, es) ↦
        let next = best_child blocks w best cs in
        let (at, top) = best_child-Chosen blocks w best cs in
        let exact = children_exact w min_score blocks r distinct in
        let child = (exact next).0 (subst (IsIn next) (sym es) at) in
        let (c, stored, parent, heavy) = child in
        let rises = falls next c b stored (rw parent e) in
        let rest = walk-GhostPath k next c stored (omega (arith, rises, lt)) in
        subst (GhostPath blocks w min_score r) (sym (walk-cons k r best cs es)) (
          down r next _ child
            (λ d other.
              AtLeast-First blocks w min_score r next d child other
                (top d (subst (IsIn d) es ((exact d).1 other))))
            rest)
  ]

head_from-GhostPath :
    (blocks : BlockMap) (r : Root) (b : Block) (atts : AttestationMap) (min_score : ℕ)
    → Distinct blocks
    → Falls blocks
    → lookup r blocks ≡ some b
    → GhostPath blocks
        (count_votes blocks b.slot atts [])
        min_score
        r
        (head_from blocks r b.slot atts min_score)
unfolding head_from
head_from-GhostPath blocks r b atts min_score distinct falls e =
    walk-GhostPath blocks (count_votes blocks b.slot atts []) min_score distinct falls
      (suc (suc (highest_slot blocks))) r b e (omega arith)

known_start :
    (blocks : BlockMap) (r : Root) (b : Block) (atts : AttestationMap) (min_score : ℕ)
    → r ≢ zero_hash
    → lookup r blocks ≡ some b
    → get_fork_choice_head blocks r atts min_score ≡ head_from blocks r b.slot atts min_score
unfolding get_fork_choice_head
known_start blocks r b atts min_score nonzero e =
    let t : same_bytes r zero_hash ≡ false = elim (Bool-cases (same_bytes r zero_hash)) [
      | inl yes_zero ↦ absurd (nonzero ((same_bytes_iff r zero_hash).0 yes_zero))
      | inr no_zero ↦ no_zero
    ] in
    ground (arith, t)

known-GhostPath :
    (blocks : BlockMap) (r : Root) (b : Block) (atts : AttestationMap) (min_score : ℕ)
    → Distinct blocks
    → Falls blocks
    → r ≢ zero_hash
    → lookup r blocks ≡ some b
    → GhostPath blocks
        (count_votes blocks b.slot atts [])
        min_score
        r
        (get_fork_choice_head blocks r atts min_score)
known-GhostPath blocks r b atts min_score distinct falls nonzero e =
    rw (known_start blocks r b atts min_score nonzero e)
      (head_from-GhostPath blocks r b atts min_score distinct falls e)

-- From a stored root that is not the zero hash, on distinct blocks whose slots fall towards their
-- parents, the head is the end of the greedy walk: at each block it goes to the child of highest
-- weight, then slot, then hash, among those whose weight reaches the minimum, and it stops where
-- there is none. The weight of a block is the number of attestations whose head is that block or one
-- under it, counting only stored blocks above the root's slot.
pub get_fork_choice_head-GhostPath :
    (blocks : BlockMap) (r : Root) (b : Block) (atts : AttestationMap) (min_score : ℕ)
    → Distinct blocks
    → Falls blocks
    → r ≢ zero_hash
    → lookup r blocks ≡ some b
    → (w : Weights) × ((h : Root) → Counted blocks b.slot h atts (weight_of w h))
      × GhostPath blocks w min_score r (get_fork_choice_head blocks r atts min_score)
get_fork_choice_head-GhostPath blocks r b atts min_score distinct falls nonzero e = (
  count_votes blocks b.slot atts [],
  λ h. count_votes-Counted blocks b.slot h falls atts,
  known-GhostPath blocks r b atts min_score distinct falls nonzero e,
)

-- The climb only looks blocks up.
climb-same :
    (blocks blocks' : BlockMap) (root_slot : ℕ)
    → ((h : Root) → lookup h blocks ≡ lookup h blocks')
    → (k : ℕ) (h : Root) (w : Weights)
    → climb k blocks root_slot h w ≡ climb k blocks' root_slot h w
unfolding climb
climb-same blocks blocks' root_slot same zero h w = refl
climb-same blocks blocks' root_slot same (suc k) h w = elim (Option-cases (lookup h blocks')) [
  | inl e ↦ let e₀ = same h ∙ e in ground arith
  | inr (b, e) ↦
      let e₀ = same h ∙ e in
      ground (
        arith,
        climb-same blocks blocks' root_slot same k b.parent_root (insert h (suc (weight_of w h)) w),
      )
]

count_vote-same :
    (blocks blocks' : BlockMap) (root_slot : ℕ)
    → ((h : Root) → lookup h blocks ≡ lookup h blocks')
    → (h : Root) (w : Weights) → count_vote blocks root_slot h w ≡ count_vote blocks' root_slot h w
unfolding count_vote
count_vote-same blocks blocks' root_slot same h w = elim (Option-cases (lookup h blocks')) [
  | inl e ↦ let e₀ = same h ∙ e in ground arith
  | inr (b, e) ↦
      let e₀ = same h ∙ e in
      ground (arith, climb-same blocks blocks' root_slot same (suc b.slot) h w)
]

count_votes-same :
    (blocks blocks' : BlockMap) (root_slot : ℕ)
    → ((h : Root) → lookup h blocks ≡ lookup h blocks')
    → (atts : AttestationMap) (w : Weights)
    → count_votes blocks root_slot atts w ≡ count_votes blocks' root_slot atts w
unfolding count_votes
count_votes-same blocks blocks' root_slot same [] w = refl
count_votes-same blocks blocks' root_slot same ((id, sa) ∷ atts) w =
    rw (count_vote-same blocks blocks' root_slot same sa.message.head.root w)
      (count_votes-same blocks blocks' root_slot same atts _)

-- The head does not depend on the order in which the maps of blocks and of attestations are
-- visited: two lists of distinct blocks that hold the same blocks, with slots that fall towards the
-- parents, and two that hold the same attestations, give the same head from a stored root that is
-- not the zero hash.
pub get_fork_choice_head_order :
    (blocks blocks' : BlockMap) (r : Root) (b : Block) (atts atts' : AttestationMap) (min_score : ℕ)
    → Distinct blocks
    → Distinct blocks'
    → Falls blocks
    → ((h : Root) → lookup h blocks ≡ lookup h blocks')
    → Perm atts atts'
    → r ≢ zero_hash
    → lookup r blocks ≡ some b
    → get_fork_choice_head blocks r atts min_score ≡ get_fork_choice_head blocks' r atts' min_score
get_fork_choice_head_order blocks blocks' r b atts atts' min_score d d' falls same p nonzero e =
    let e' : lookup r blocks' ≡ some b = sym (same r) ∙ e in
    let falls' : Falls blocks' =
      λ h b c at_h at_c. falls h b c (same h ∙ at_h) (same b.parent_root ∙ at_c) in
    let w = count_votes blocks b.slot atts [] in
    let w' = count_votes blocks' b.slot atts' [] in
    let same_w : (h : Root) → weight_of w h ≡ weight_of w' h = λ h.
      ap (λ v. weight_of v h) (count_votes-same blocks blocks' b.slot same atts [])
      ∙ weight_of-count_votes_perm blocks' b.slot h falls' atts atts' p in
    GhostPath-unique blocks' w' min_score r _ _
      (GhostPath-transfer blocks blocks' w w' min_score same same_w
        (known-GhostPath blocks r b atts min_score d falls nonzero e))
      (known-GhostPath blocks' r b atts' min_score d' falls' nonzero e')
