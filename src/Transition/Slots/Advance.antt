-- ===== src/Transition/Slots/Advance.antt =====
-- What ProcessSlots and IsProposer compute.
use native.Mathlib.Nat.{mod-lt}
use gean.Base.{
  ℕ, zero, suc, ◌+◌, ◌-◌, ◌%◌, ◌≤◌, ◌<◌, ◌≡◌, refl, ◌∙◌, if◌then◌else◌, ap, ◌↔◌, true, false, inl,
  inr, arith, ltb, leb, Bool-cases, same_bytes, ok, err, slot_not_after,
}
use gean.Types.Containers.{Root, zero_hash, State, Primitives}
use gean.Types.Slot.{u64_mod}
use gean.Transition.Slots.{copy, is_proposer, process_slot, advance_slot, slots_loop, process_slots}

-- The root of a state is never the zero hash. The code also takes the zero hash as the root of a
-- state that it fails to encode, such as one with a list above its limit: this excludes those.
abbrev pub NeverZero : Primitives → Type 0
NeverZero p = (s : State) → same_bytes (p.state_root s) zero_hash ≡ false

pub slot-process_slot : (p : Primitives) (s : State) → (process_slot p s).slot ≡ s.slot
unfolding process_slot
slot-process_slot p s = ground arith

module _ (p : Primitives) (never_zero : NeverZero p) where
  -- Once the root is cached, a slot changes nothing but the slot number.
  process_slot_cached :
      (s : State) (n : ℕ)
      → process_slot p (record (process_slot p s) { slot = n })
        ≡ record (process_slot p s) { slot = n }
  unfolding process_slot
  process_slot_cached s n =
      elim (Bool-cases (same_bytes s.latest_block_header.state_root zero_hash)) [
        | inl e ↦ rw (e, never_zero s)
        | inr e ↦ rw (e, e)
      ]

  slots_loop_exact :
      (k : ℕ) (s : State) (n target : ℕ)
      → n + k ≡ target
      → target < u64_mod
      → slots_loop p k (record (process_slot p s) { slot = n }) target
        ≡ record (process_slot p s) { slot = target }
  unfolding slots_loop advance_slot
  slots_loop_exact zero s n target e h = let e' : n ≡ target = omega arith in rw e'
  slots_loop_exact (suc k) s n target e h =
      let t : ltb n target ≡ true = ground arith in
      let w : (n + 1) % u64_mod ≡ n + 1 = omega arith in
      rw (t, process_slot_cached s n, w) (slots_loop_exact k s (n + 1) target (omega arith) h)

  slots_loop_first :
      (k : ℕ) (s : State) (target : ℕ)
      → s.slot + suc k ≡ target
      → target < u64_mod
      → slots_loop p (suc k) s target ≡ record (process_slot p s) { slot = target }
  unfolding slots_loop advance_slot
  slots_loop_first k s target e h =
      let t : ltb s.slot target ≡ true = ground arith in
      let w : (s.slot + 1) % u64_mod ≡ s.slot + 1 = omega arith in
      rw (t, slot-process_slot p s, w) (slots_loop_exact k s (s.slot + 1) target (omega arith) h)

pub process_slots_lem :
    (p : Primitives) (s : State) (target : ℕ)
    → NeverZero p
    → s.slot < target
    → target < u64_mod
    → process_slots p s target ≡ ok (record (process_slot p s) { slot = target })
unfolding process_slots
process_slots_lem p s target never_zero h k =
    let later : leb target s.slot ≡ false = ground arith in
    let rounds : target - s.slot ≡ suc (target - s.slot - 1) = omega arith in
    rw (later, rounds) (ap ok (slots_loop_first p never_zero _ s target (omega arith) k))

-- The state root that the latest header has once a slot has passed: its own, or that of the state
-- where it has none yet.
abbrev pub cached_root : Primitives → State → Root
cached_root p s =
    let own = s.latest_block_header.state_root in
    if same_bytes own zero_hash then p.state_root s else own

process_slot_lem :
    (p : Primitives) (s : State)
    → process_slot p s ≡ record s {
      latest_block_header = record s.latest_block_header { state_root = cached_root p s };
    }
unfolding process_slot copy
process_slot_lem p s = elim (Bool-cases (same_bytes s.latest_block_header.state_root zero_hash)) [
  | inl e ↦ rw e refl
  | inr e ↦ rw e refl
]

-- Where no state root is the zero hash, advancing to a later slot below 2^64 always succeeds, for
-- any number of empty slots. The new state has the target as its slot, and the state root of its
-- latest header is that of the state before, where it was the zero hash, and else as before;
-- every other field is as before.
pub process_slots_exact :
    (p : Primitives) (s : State) (target : ℕ)
    → NeverZero p
    → s.slot < target
    → target < u64_mod
    → process_slots p s target
      ≡ ok (record s {
        slot = target;
        latest_block_header = record s.latest_block_header { state_root = cached_root p s };
      })
process_slots_exact p s target never_zero h k =
    process_slots_lem p s target never_zero h k
    ∙ ap (λ (t : State). ok (record t { slot = target })) (process_slot_lem p s)

-- A target that is not after the state's slot is refused.
pub process_slots_refuses :
    (p : Primitives) (s : State) (target : ℕ)
    → target ≤ s.slot
    → process_slots p s target ≡ err slot_not_after
unfolding process_slots
process_slots_refuses p s target h = ground arith

-- Round robin: among a positive number of validators exactly one index proposes at each slot, and
-- it lies in the registry.
pub is_proposer_unique :
    (slot n : ℕ)
    → 0 < n
    → (i : ℕ) × (i < n) × ((j : ℕ) → (is_proposer j slot n ≡ ok true) ↔ (j ≡ i))
unfolding is_proposer
is_proposer_unique slot n h = (slot % n, mod-lt slot h, λ j. (λ e. ground arith, λ e. ground arith))
