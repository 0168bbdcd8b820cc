-- ===== src/Transition/Header/Fill.antt =====
-- The history and the justified bits of a state, and what the header adds to them.
use gean.Base.{
  ℕ, zero, suc, ◌+◌, ◌-◌, ◌<◌, ◌≡◌, [], ◌∷◌, ◌++◌, false, arith, ltb, if◌then◌else◌, length, get_or,
  length-append, get_or-append,
}
use gean.Types.Containers.{zero_hash}
use gean.Transition.Bitlist.{get_bit, append_bit}
use gean.Transition.Bitlist.Laws.{IsBitlist}
use gean.Transition.Bitlist.Append.{append_bit-IsBitlist, get_bit-append_bit}
use gean.Transition.Header.{Trail, fill_empty}

-- The lists cover the slots below `n`.
pub record Covers (n : ℕ) (t : Trail) : Type 0 where
  pub hashes_length : length t.hashes ≡ n
  pub bits_valid : IsBitlist n t.bits

fill_step : Trail → Trail
fill_step t = record { hashes = t.hashes ++ zero_hash ∷ []; bits = append_bit t.bits false }

fill_step-Covers : (n : ℕ) (t : Trail) → Covers n t → Covers (n + 1) (fill_step t)
unfolding fill_step
fill_step-Covers n t c = record {
  hashes_length = omega (arith, length-append {0} t.hashes (zero_hash ∷ []), c.hashes_length);
  bits_valid = append_bit-IsBitlist n t.bits false c.bits_valid;
}

-- After `k` rounds the lists cover `k` slots more.
pub fill_empty-Covers : (k n m : ℕ) (t : Trail) → n + k ≡ m → Covers n t → Covers m (fill_empty k t)
unfolding fill_empty fill_step
fill_empty-Covers zero n m t e c = let e' : n ≡ m = omega arith in rw (← e') c
fill_empty-Covers (suc k) n m t e c =
    fill_empty-Covers k (n + 1) m (fill_step t) (omega arith) (fill_step-Covers n t c)

-- A slot that was covered keeps its hash and its bit; one that is filled has the zero hash and a
-- clear bit.
pub fill_empty_entries :
    (k n : ℕ) (t : Trail)
    → Covers n t
    → (j : ℕ) → j < n + k
    → (get_or (fill_empty k t).hashes j [] ≡ (if ltb j n then get_or t.hashes j [] else zero_hash))
      × (get_bit (fill_empty k t).bits j ≡ (if ltb j n then get_bit t.bits j else false))
unfolding fill_empty fill_step
fill_empty_entries zero n t c j h = ground arith
fill_empty_entries (suc k) n t c j h = ground (
  arith,
  fill_empty_entries k (n + 1) (fill_step t) (fill_step-Covers n t c) j (omega arith),
  get_or-append t.hashes (zero_hash ∷ []) j [],
  get_bit-append_bit n t.bits false c.bits_valid j,
  c.hashes_length,
  one_entry (j - n),
)
  where
    one_entry : (i : ℕ) → i ≡ 0 → get_or (zero_hash ∷ []) i [] ≡ zero_hash
    one_entry i e = rw e
