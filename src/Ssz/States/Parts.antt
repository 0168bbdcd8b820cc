-- ===== src/Ssz/States/Parts.antt =====
-- The bytes of a state, as the parts that they are joined from.
use gean.Base.{
  ℕ, ◌+◌, ◌<◌, ◌≤◌, ◌≡◌, refl, ◌∙◌, List, [], ◌∷◌, ◌++◌, All, length, length-append, arith, slice,
  slice_middle, le_bytes,
}
use mathlib.Core.List.{append_assoc}
use gean.Types.Slot.{u64_mod}
use gean.Types.Containers.{State}
use gean.Transition.Bitlist.Laws.{IsBitlist}
use gean.Ssz.Fits.{
  FitsCheckpoint, FitsValidator, FitsHeader, checkpoint_bytes, validator_bytes, header_bytes,
}
use gean.Ssz.Lists.{joined}
use gean.Ssz.States.{offset_slots, offset_validators, offset_roots, offset_votes}

-- With bitlists of `slots` and of `votes` bits.
pub record FitsState (s : State) : Type 0 where
  pub genesis_time : s.config.genesis_time < u64_mod
  pub slot : s.slot < u64_mod
  pub header : FitsHeader s.latest_block_header
  pub justified : FitsCheckpoint s.latest_justified
  pub finalized : FitsCheckpoint s.latest_finalized
  pub hashes : All (λ r. length r ≡ 32) s.historical_block_hashes
  pub few_hashes : length s.historical_block_hashes ≤ 262144
  pub slots : ℕ
  pub slots-IsBitlist : IsBitlist slots s.justified_slots
  pub few_slots : slots ≤ 262144
  pub validators : All FitsValidator s.validators
  pub few_validators : length s.validators ≤ 4096
  pub roots : All (λ r. length r ≡ 32) s.justifications_roots
  pub few_roots : length s.justifications_roots ≤ 262144
  pub votes : ℕ
  pub votes-IsBitlist : IsBitlist votes s.justifications_validators
  pub few_votes : votes ≤ 1073741824

unfoldable pub join : List (List ℕ) → List ℕ
join [] = []
join (x ∷ xs) = x ++ join xs

abbrev pub total : List (List ℕ) → ℕ
total [] = 0
total (x ∷ xs) = length x + total xs

abbrev pub state_parts : State → List (List ℕ)
state_parts s =
    le_bytes 8 s.config.genesis_time
    ∷ le_bytes 8 s.slot
    ∷ header_bytes s.latest_block_header
    ∷ checkpoint_bytes s.latest_justified
    ∷ checkpoint_bytes s.latest_finalized
    ∷ le_bytes 4 228
    ∷ le_bytes 4 (offset_slots s)
    ∷ le_bytes 4 (offset_validators s)
    ∷ le_bytes 4 (offset_roots s)
    ∷ le_bytes 4 (offset_votes s)
    ∷ joined (λ r. r) s.historical_block_hashes
    ∷ s.justified_slots
    ∷ joined validator_bytes s.validators
    ∷ joined (λ r. r) s.justifications_roots
    ∷ s.justifications_validators
    ∷ []

unfoldable pub state_bytes : State → List ℕ
state_bytes s = join (state_parts s)

pub length-join : (xs : List (List ℕ)) → length (join xs) ≡ total xs
unfolding join
length-join [] = refl
length-join (x ∷ xs) = omega (arith, length-append x (join xs), length-join xs)

join-append : (xs ys : List (List ℕ)) → join (xs ++ ys) ≡ join xs ++ join ys
unfolding join
join-append [] ys = refl
join-append (x ∷ xs) ys = rw (join-append xs ys) (rw (append_assoc x (join xs) (join ys)))

-- A part stands behind the parts before it.
pub slice-join :
    (before : List (List ℕ)) (x : List ℕ) (after : List (List ℕ)) (a b : ℕ)
    → total before ≡ a
    → a + length x ≡ b
    → slice a b (join (before ++ x ∷ after)) ≡ x
unfolding join
slice-join before x after a b e e' =
    rw (join-append before (x ∷ after))
      (slice_middle a b (join before) x (join after) (length-join before ∙ e) e')
