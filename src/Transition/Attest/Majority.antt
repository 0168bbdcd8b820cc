-- ===== src/Transition/Attest/Majority.antt =====
-- Only a supermajority justifies: where the votes that are counted come from.
use gean.Base.{
  ℕ, ◌+◌, ◌*◌, ◌≤◌, ◌<◌, ◌≡◌, ◌⊎◌, List, [], ◌∷◌, Bool, true, false, some, none, length, get_or,
  get_elem?, replicate, lookup, bytes_eq,
}
use gean.Types.Containers.{Root, Attestation, State, Primitives}
use gean.Transition.Bitlist.{get_bit}
use gean.Transition.Attest.{Tally, count_votes, votes_for}
use gean.Transition.Attest.Votes.{VoteMap}
use gean.Transition.Attest.Steps.{Counts}

-- An attestation of the block is a vote of `v` for `root`.
abbrev pub Cast : Root → ℕ → List Attestation → Type 0
Cast root v [] = ⊥
Cast root v (a ∷ atts) = ((a.validator_id ≡ v) × (a.att_data.target.root ≡ root)) ⊎ Cast root v atts

-- The state holds a vote of `v` for `root` from an earlier block.
abbrev pub Recorded : State → Root → ℕ → Type 0
Recorded s root v =
    (i : ℕ) × (get_elem? s.justifications_roots i ≡ some root)
    × (get_bit s.justifications_validators (i * length s.validators + v) ≡ true)
    × (v < length s.validators)

abbrev pub Backed : State → List Attestation → Root → ℕ → Type 0
Backed s atts root v = Recorded s root v ⊎ Cast root v atts

-- At least two thirds of the `n` validators, by distinct indices, have a backed vote for `root`.
pub record Supermajority (n : ℕ) (B : Root → ℕ → Type 0) (root : Root) : Type 0 where
  pub votes : List Bool
  pub size : length votes ≡ n
  pub enough : 2 * n ≤ 3 * count_votes votes
  pub backed : (v : ℕ) → get_or votes v false ≡ true → B root v

module _ (p : Primitives) (s : State) (B : Root → ℕ → Type 0) where
  -- Every vote in the tally is backed, and a checkpoint that is new is justified by such votes.
  record Honest (t : Tally) : Type 0 where
    sizes : (root : Root) → length (votes_for p s t root) ≡ length s.validators
    backed_votes : (root : Root) (v : ℕ) → get_or (votes_for p s t root) v false ≡ true → B root v
    majority :
        (t.latest_justified ≡ s.latest_justified)
        ⊎ Supermajority (length s.validators) B t.latest_justified.root

  module _ (t : Tally) (a : Attestation) (h : Honest t) (c : Counts p s t a)
      (b : B a.att_data.target.root a.validator_id) where
    abbrev root : Root
    root = a.att_data.target.root

abbrev votes_in : ℕ → VoteMap → Root → List Bool
votes_in n m root = elim (lookup root m) [ some votes ↦ votes | none ↦ replicate n false ]

abbrev CastIn : List Attestation → Attestation → Type 0
CastIn atts a = Cast a.att_data.target.root a.validator_id atts
