-- ===== src/ForkChoice/Ghost.antt =====
-- chain/forkchoice/ghost.go: the head by LMD GHOST. The list of blocks is the map in the order in
-- which `range` visits it; both loops that follow parents or children are on fuel.
pub mod Order
pub mod Best
pub mod Greedy
pub mod Votes
pub mod Path
use gean.Base.{
  ℕ, zero, suc, ◌+◌, ◌-◌, ◌^◌, List, [], ◌∷◌, ◌++◌, Bool, true, false, ◌&&◌, ◌||◌, Option, none,
  some, ltb, leb, ◌==◌, if◌then◌else◌, same_bytes, lookup, insert, bytes_eq,
}
use gean.Types.Containers.{Root, zero_hash, Block, SignedAttestation}

abbrev pub BlockMap : Type 0
BlockMap = List (Root × Block)

abbrev pub Weights : Type 0
Weights = List (Root × ℕ)

abbrev pub AttestationMap : Type 0
AttestationMap = List (ℕ × SignedAttestation)

-- Arrays have equal lengths, so that the clauses for lists of different lengths never apply.
unfoldable pub hash_greater : Root → Root → Bool
hash_greater [] b = false
hash_greater (x ∷ a) [] = true
hash_greater (x ∷ a) (y ∷ b) =
    let rest = hash_greater a b in if ltb y x then true else if ltb x y then false else rest

-- `voteWeights[h]`, which is 0 for a missing key.
unfoldable pub weight_of : Weights → Root → ℕ
weight_of w h = elim (lookup h w) [ some n ↦ n | none ↦ 0 ]

-- `blocks[h].Slot`, of a block that is in the map.
unfoldable pub slot_of : BlockMap → Root → ℕ
slot_of blocks h = elim (lookup h blocks) [ some b ↦ b.slot | none ↦ 0 ]

-- The loop for the earliest block, from the least slot and the root found so far.
unfoldable pub earliest_loop : BlockMap → ℕ → Root → Root
earliest_loop [] min_slot earliest = earliest
earliest_loop ((h, b) ∷ blocks) min_slot earliest =
    let smaller = earliest_loop blocks b.slot h in
    let kept = earliest_loop blocks min_slot earliest in
    if ltb b.slot min_slot then smaller else kept

-- The vote's walk towards the root.
unfoldable pub climb : ℕ → BlockMap → ℕ → Root → Weights → Weights
climb zero blocks root_slot hash w = w
climb (suc k) blocks root_slot hash w = elim (lookup hash blocks) [
  | none ↦ w
  | some b ↦
      if leb b.slot root_slot
      then w
      else climb k blocks root_slot b.parent_root (insert hash (suc (weight_of w hash)) w)
]

-- One attestation. Slots fall along the walk, so that `slot + 1` rounds suffice.
unfoldable pub count_vote : BlockMap → ℕ → Root → Weights → Weights
count_vote blocks root_slot head_root w = elim (lookup head_root blocks) [
  | none ↦ w
  | some b ↦ climb (suc b.slot) blocks root_slot head_root w
]

unfoldable pub count_votes : BlockMap → ℕ → AttestationMap → Weights → Weights
count_votes blocks root_slot [] w = w
count_votes blocks root_slot ((id, sa) ∷ atts) w =
    count_votes blocks root_slot atts (count_vote blocks root_slot sa.message.head.root w)

-- `childrenMap[p]`, which is empty for a missing key.
unfoldable pub children_of : List (Root × List Root) → Root → List Root
children_of m p = elim (lookup p m) [ some hs ↦ hs | none ↦ [] ]

unfoldable pub children_loop :
    Weights → ℕ → BlockMap → List (Root × List Root) → List (Root × List Root)
children_loop w min_score [] m = m
children_loop w min_score ((h, b) ∷ blocks) m = children_loop w min_score blocks (
    if leb min_score (weight_of w h)
    then insert b.parent_root (children_of m b.parent_root ++ h ∷ []) m
    else m)

-- The test by which a child replaces the best one so far.
unfoldable pub better : BlockMap → Weights → Root → Root → Bool
better blocks w c best =
    ltb (weight_of w best) (weight_of w c)
    || weight_of w c == weight_of w best && ltb (slot_of blocks best) (slot_of blocks c)
    || weight_of w c == weight_of w best
      && slot_of blocks c == slot_of blocks best
      && hash_greater c best

unfoldable pub best_child : BlockMap → Weights → Root → List Root → Root
best_child blocks w best [] = best
best_child blocks w best (c ∷ cs) =
    best_child blocks w (if better blocks w c best then c else best) cs

-- The walk down from the root.
unfoldable pub walk : ℕ → BlockMap → Weights → List (Root × List Root) → Root → Root
walk zero blocks w children current = current
walk (suc k) blocks w children current = elim (children_of children current) [
  | [] ↦ current
  | best ∷ cs ↦ walk k blocks w children (best_child blocks w best cs)
]

-- Slots rise along the walk, so that one round more than the highest slot suffices.
unfoldable pub highest_slot : BlockMap → ℕ
highest_slot [] = 0
highest_slot ((h, b) ∷ blocks) =
    let rest = highest_slot blocks in if ltb rest b.slot then b.slot else rest

-- The part after the root is fixed and found.
unfoldable pub head_from : BlockMap → Root → ℕ → AttestationMap → ℕ → Root
head_from blocks root root_slot atts min_score =
    let w = count_votes blocks root_slot atts [] in
    let children = children_loop w min_score blocks [] in
    walk (suc (suc (highest_slot blocks))) blocks w children root

unfoldable pub get_fork_choice_head : BlockMap → Root → AttestationMap → ℕ → Root
get_fork_choice_head blocks root atts min_score =
    let start =
      if same_bytes root zero_hash then earliest_loop blocks (2 ^ 64 - 1) zero_hash else root in
    elim (lookup start blocks) [
      | none ↦ start
      | some b ↦ head_from blocks start b.slot atts min_score
    ]
