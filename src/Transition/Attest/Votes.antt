-- ===== src/Transition/Attest/Votes.antt =====
-- chain/statetransition/process_attestations.go: the votes of each root, in the SSZ form of the
-- state and as a map.
use gean.Base.{
  ℕ, zero, suc, ◌+◌, ◌*◌, ◌/◌, List, [], ◌∷◌, Bool, true, some, none, map, length, replicate, ◌==◌,
  if◌then◌else◌, bytes_less, lookup, insert, bytes_eq,
}
use gean.Types.Containers.{Root}
use gean.Transition.Bitlist.{get_bit, put_at}

abbrev pub VoteMap : Type 0
VoteMap = List (Root × List Bool)

-- `numValidators` bits from bit `start` on.
unfoldable pub read_votes : List ℕ → ℕ → ℕ → List Bool
read_votes bits zero start = []
read_votes bits (suc n) start = get_bit bits start ∷ read_votes bits n (suc start)

-- The loop over the roots; the votes of root `i` begin at bit `i * numValidators`.
unfoldable pub load_votes : List ℕ → ℕ → ℕ → List Root → VoteMap → VoteMap
unfolding read_votes
load_votes bits n i [] m = m
load_votes bits n i (root ∷ roots) m =
    load_votes bits n (suc i) roots (insert root (read_votes bits n (i * n)) m)

-- `sort.Slice` by `bytes.Compare`. The keys of a map differ, so the sorted list is unique.
unfoldable pub insert_root : Root → List Root → List Root
insert_root root [] = root ∷ []
insert_root root (r ∷ roots) =
    let later = r ∷ insert_root root roots in if bytes_less r root then later else root ∷ r ∷ roots

unfoldable pub sort_roots : List Root → List Root
unfolding insert_root
sort_roots [] = []
sort_roots (root ∷ roots) = insert_root root (sort_roots roots)

unfoldable pub sorted_roots : VoteMap → List Root
unfolding sort_roots
sorted_roots m = sort_roots (map (λ (root, votes). root) m)

-- `for _, voted := range votes`, from bit `pos` on.
unfoldable pub write_votes : List Bool → ℕ → List ℕ → List ℕ
write_votes [] pos bl = bl
write_votes (voted ∷ votes) pos bl =
    write_votes votes (suc pos) (if voted then put_at bl pos true else bl)

-- A root without votes stands for a nil slice, which has length 0.
unfoldable pub votes_of : VoteMap → Root → List Bool
votes_of m root = elim (lookup root m) [ some votes ↦ votes | none ↦ [] ]

unfoldable pub write_roots : VoteMap → List Root → ℕ → List ℕ → List ℕ
unfolding write_votes votes_of
write_roots m [] pos bl = bl
write_roots m (root ∷ roots) pos bl =
    let votes = votes_of m root in
    write_roots m roots (pos + length votes) (write_votes votes pos bl)

unfoldable pub flatten_votes : List Root → VoteMap → ℕ → List ℕ
unfolding write_roots
flatten_votes roots m n =
    let total = length roots * n in
    if total == 0
    then 1 ∷ []
    else put_at (write_roots m roots 0 (replicate ((total + 1 + 7) / 8) 0)) total true
