-- ===== src/Transition/Valid.antt =====
-- The invariant of the consensus state, and that genesis and the block header keep it.
use gean.Base.{
  ℕ, ◌+◌, ◌-◌, ◌≤◌, ◌<◌, ◌≡◌, refl, List, [], ◌∷◌, ◌++◌, Bool, true, false, inl, inr, arith, ◌==◌,
  if◌then◌else◌, length, get_or, length-append, get_or-append, Bool-cases,
}
use gean.Types.Containers.{Root, Checkpoint, Block, State, Primitives, Validator}
use gean.Transition.Bitlist.{get_bit, append_bit}
use gean.Transition.Bitlist.Laws.{IsBitlist}
use gean.Transition.Bitlist.Append.{
  append_bit-IsBitlist, get_bit-append_bit, make_bitlist-IsBitlist,
}
use gean.Transition.Bitlist.{make_bitlist}
use gean.Transition.Slots.{generate_genesis}
use gean.Transition.Header.{Trail, fill_empty, apply_header}
use gean.Transition.Header.Fill.{Covers, fill_empty-Covers, fill_empty_entries}

-- Among the slots below `n`, the checkpoint's slot is marked justified and its root is in the
-- history.
pub record Anchored (n : ℕ) (t : Trail) (c : Checkpoint) : Type 0 where
  pub within : c.slot < n
  pub marked : get_bit t.bits c.slot ≡ true
  pub recorded : get_or t.hashes c.slot [] ≡ c.root

abbrev pub trail : State → Trail
trail s = record { hashes = s.historical_block_hashes; bits = s.justified_slots }

-- History and justified bits cover exactly the slots below the latest header's; before the first
-- block both checkpoints are at slot 0, and after it they are justified blocks of the history.
pub record IsValid (s : State) : Type 0 where
  pub covers : Covers s.latest_block_header.slot (trail s)
  pub header_le : s.latest_block_header.slot ≤ s.slot
  pub genesis :
      s.latest_block_header.slot ≡ 0 → (s.latest_justified.slot ≡ 0) × (s.latest_finalized.slot ≡ 0)
  pub justified :
      0 < s.latest_block_header.slot
      → Anchored s.latest_block_header.slot (trail s) s.latest_justified
  pub finalized :
      0 < s.latest_block_header.slot
      → Anchored s.latest_block_header.slot (trail s) s.latest_finalized

pub one_bit : IsBitlist 0 (1 ∷ [])
unfolding make_bitlist
one_bit = make_bitlist-IsBitlist 0

-- The genesis state is valid.
pub generate_genesis-IsValid :
    (p : Primitives) (genesis_time : ℕ) (validators : List Validator)
    → IsValid (generate_genesis p genesis_time validators)
unfolding generate_genesis
generate_genesis-IsValid p genesis_time validators = record {
  covers = record { hashes_length = refl; bits_valid = one_bit };
  header_le = omega arith;
  genesis = λ e. (refl, refl);
  justified = λ h. absurd (omega arith);
  finalized = λ h. absurd (omega arith);
}

module _ (n m : ℕ) (t : Trail) (covers : Covers n t) (root : Root) (first : Bool) (h : n < m) where
  abbrev pub extended : Trail
  extended =
      fill_empty (m - n - 1)
        (record { hashes = t.hashes ++ root ∷ []; bits = append_bit t.bits first })

  start : Covers (n + 1) (record { hashes = t.hashes ++ root ∷ []; bits = append_bit t.bits first })
  start = record {
    hashes_length = omega (arith, length-append {0} t.hashes (root ∷ []), covers.hashes_length);
    bits_valid = append_bit-IsBitlist n t.bits first covers.bits_valid;
  }

  extended-Covers : Covers m extended
  extended-Covers = fill_empty-Covers (m - n - 1) (n + 1) m _ (omega arith) start

  one_root : (i : ℕ) → i ≡ 0 → get_or (root ∷ []) i [] ≡ root
  one_root i e = rw e

  extended_old :
      (j : ℕ)
      → j < n
      → (get_or extended.hashes j [] ≡ get_or t.hashes j [])
        × (get_bit extended.bits j ≡ get_bit t.bits j)
  extended_old j lt = ground (
    arith,
    fill_empty_entries (m - n - 1) (n + 1) _ start j (omega arith),
    get_or-append t.hashes (root ∷ []) j [],
    get_bit-append_bit n t.bits first covers.bits_valid j,
    covers.hashes_length,
  )

  extended_parent : (get_or extended.hashes n [] ≡ root) × (get_bit extended.bits n ≡ first)
  extended_parent = ground (
    arith,
    fill_empty_entries (m - n - 1) (n + 1) _ start n (omega arith),
    get_or-append t.hashes (root ∷ []) n [],
    get_bit-append_bit n t.bits first covers.bits_valid n,
    covers.hashes_length,
    one_root (n - length t.hashes),
  )

  extended-Anchored : (c : Checkpoint) → Anchored n t c → Anchored m extended c
  extended-Anchored c a = record {
    within = omega (arith, a.within);
    marked = ground (arith, extended_old c.slot a.within, a.marked);
    recorded = ground (arith, extended_old c.slot a.within, a.recorded);
  }

module _ (n m : ℕ) (t : Trail) (covers : Covers n t) (root : Root) (h : n < m)
    (c : Checkpoint) where
  abbrev moved : Bool → Checkpoint
  moved first = if first then record { root = root; slot = c.slot } else c

  moved-Anchored :
      (n ≡ 0 → c.slot ≡ 0)
      → (0 < n → Anchored n t c)
      → Anchored m (extended n m t covers root (n == 0) h) (moved (n == 0))
  moved-Anchored genesis later = elim (Bool-cases (n == 0)) [
    | inl e ↦
        let z : n ≡ 0 = ground arith in
        let at : c.slot ≡ n = omega (arith, genesis z) in
        rw e (record {
          within = omega arith;
          marked = rw at (extended_parent n m t covers root true h).1;
          recorded = rw at (extended_parent n m t covers root true h).0;
        })
    | inr e ↦ rw e (extended-Anchored n m t covers root false h c (later (ground arith)))
  ]

-- A block of the state's slot, above the latest header, keeps the state valid.
pub apply_header-IsValid :
    (p : Primitives) (s : State) (b : Block)
    → IsValid s
    → b.slot ≡ s.slot
    → s.latest_block_header.slot < b.slot
    → IsValid (apply_header p s b)
unfolding apply_header
apply_header-IsValid p s b valid same newer =
    let n = s.latest_block_header.slot in
    let t = trail s in
    record {
      covers = extended-Covers n b.slot t valid.covers b.parent_root (n == 0) newer;
      header_le = omega arith;
      genesis = λ e. absurd (omega arith);
      justified = λ _.
          moved-Anchored n b.slot t valid.covers b.parent_root newer s.latest_justified
            (λ e. (valid.genesis e).0) valid.justified;
      finalized = λ _.
          moved-Anchored n b.slot t valid.covers b.parent_root newer s.latest_finalized
            (λ e. (valid.genesis e).1) valid.finalized;
    }
