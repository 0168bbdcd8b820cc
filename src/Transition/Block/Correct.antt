-- ===== src/Transition/Block/Correct.antt =====
-- What a successful state transition guarantees.
use gean.Base.{
  ℕ, ◌≤◌, ◌<◌, ◌≡◌, refl, ◌∙◌, ap, sym, ◌↔◌, List, inl, inr, arith, ltb→lt, Bool-cases, ltb, not,
  if◌then◌else◌, same_bytes, same_bytes_iff, ok, err, >>=-eq-ok, bad_state_root,
}
use gean.Types.Containers.{Block, Root, zero_hash, State, Validator, Primitives}
use gean.Types.Slot.{u64_mod}
use gean.Transition.Slots.{process_slot, generate_genesis}
use gean.Transition.Slots.Advance.{NeverZero, process_slots_lem, process_slots_refuses}
use gean.Transition.Header.{apply_header, process_block_header}
use gean.Transition.Header.Checks.{Accepts, process_block_header_iff}
use gean.Transition.Valid.{IsValid, apply_header-IsValid, generate_genesis-IsValid}
use gean.Transition.Attest.{process_attestations}
use gean.Transition.Attest.Keeps.{process_attestations-IsValid}
use gean.Transition.Block.{process_block, state_transition}

-- Caching a root and moving the slot forward keep a state valid.
pub process_slot-IsValid :
    (p : Primitives) (s : State) (target : ℕ)
    → IsValid s
    → s.slot ≤ target
    → IsValid (record (process_slot p s) { slot = target })
unfolding process_slot
process_slot-IsValid p s target v h =
    elim (Bool-cases (same_bytes s.latest_block_header.state_root zero_hash)) [
      | inl e ↦ rw e (moved (p.state_root s))
      | inr e ↦ rw e (moved s.latest_block_header.state_root)
    ]
  where
    moved :
        (root : Root)
        → IsValid (record s {
          slot = target;
          latest_block_header = record s.latest_block_header { state_root = root };
        })
    moved root = record {
      covers = v.covers;
      header_le = omega (arith, v.header_le);
      genesis = v.genesis;
      justified = v.justified;
      finalized = v.finalized;
    }

module _ (p : Primitives) (s : State) (b : Block) where
  -- The state at the block's slot, with its root cached.
  abbrev advanced : State
  advanced = record (process_slot p s) { slot = b.slot }

  abbrev result : State
  result = process_attestations p (apply_header p advanced b) b.body.attestations

  -- What a block must satisfy to be accepted on the state.
  pub record IsChild : Type 0 where
    pub after : s.slot < b.slot
    pub accepts : Accepts p advanced b
    pub root : b.state_root ≡ p.state_root result

  module _ (never_zero : NeverZero p) (u64 : b.slot < u64_mod) where
    process_block_exact : Accepts p advanced b → process_block p advanced b ≡ ok result
    unfolding process_block
    process_block_exact a =
        rw ((process_block_header_iff p advanced b (apply_header p advanced b)).1 (a, refl))

    child_ok : IsChild → state_transition p s b ≡ ok result
    unfolding state_transition
    child_ok c = rw (
      process_slots_lem p s b.slot never_zero c.after u64,
      process_block_exact c.accepts,
      (same_bytes_iff b.state_root (p.state_root result)).1 c.root,
    )

    block_ok : (u : State) → process_block p advanced b ≡ ok u → Accepts p advanced b × (u ≡ result)
    unfolding process_block
    block_ok u e =
        let (v, e₁, e₂) = >>=-eq-ok (process_block_header p advanced b) _ e in
        let (accepts, same) = (process_block_header_iff p advanced b v).0 e₁ in (accepts, cc)

    root_ok :
        (u t : State)
        → (if not (same_bytes b.state_root (p.state_root u)) then err bad_state_root else ok u)
          ≡ ok t
        → (b.state_root ≡ p.state_root u) × (t ≡ u)
    root_ok u t e = ground (arith, same_bytes_iff b.state_root (p.state_root u))

    ok_after : (t : State) → state_transition p s b ≡ ok t → s.slot < b.slot
    unfolding state_transition
    ok_after t e = elim (Bool-cases (ltb s.slot b.slot)) [
      | inl after ↦ ltb→lt _ _ after
      | inr before ↦ cc (process_slots_refuses p s b.slot (ground arith), e)
    ]

    ok_child : (t : State) → state_transition p s b ≡ ok t → IsChild × (t ≡ result)
    unfolding state_transition
    ok_child t e =
        let after = ok_after t e in
        let e' = rw (process_slots_lem p s b.slot never_zero after u64) at e in
        let (u, e₁, e₂) = >>=-eq-ok (process_block p advanced b) _ e' in
        let (accepts, same) = block_ok u e₁ in
        let (root, same') = root_ok u t e₂ in
        (
          record { after = after; accepts = accepts; root = root ∙ ap p.state_root same },
          same' ∙ same,
        )

-- Where no state root is the zero hash, a block with a slot below 2^64 is accepted exactly when its
-- slot is after the state's, it passes the header checks on the state advanced to its slot, and it
-- names the root of the state that header and attestations lead to; that state is then the result.
pub state_transition_iff :
    (p : Primitives) (s : State) (b : Block) (t : State)
    → NeverZero p
    → b.slot < u64_mod
    → (state_transition p s b ≡ ok t) ↔ (IsChild p s b × (t ≡ result p s b))
state_transition_iff p s b t never_zero u64 =
    (ok_child p s b never_zero u64 t, λ (c, e). child_ok p s b never_zero u64 c ∙ ap ok (sym e))

header_above :
    (p : Primitives) (s : State) (b : Block)
    → s.latest_block_header.slot < b.slot
    → 0 < (apply_header p s b).latest_block_header.slot
unfolding apply_header
header_above p s b h = omega arith

-- The state that a block leads to from a valid state is valid.
pub state_transition-IsValid :
    (p : Primitives) (s : State) (b : Block) (t : State)
    → NeverZero p
    → b.slot < u64_mod
    → IsValid s
    → state_transition p s b ≡ ok t
    → IsValid t
state_transition-IsValid p s b t never_zero u64 v e =
    let (c, same) = ok_child p s b never_zero u64 t e in
    let w = process_slot-IsValid p s b.slot v (omega (arith, c.after)) in
    let x = apply_header-IsValid p (advanced p s b) b w refl c.accepts.newer in
    let above = header_above p (advanced p s b) b c.accepts.newer in
    rw same (process_attestations-IsValid p _ b.body.attestations x above)

-- The states that accepted blocks lead to from genesis.
pub data Reachable (p : Primitives) (genesis_time : ℕ) (validators : List Validator)
    : State → Type 0 where
  start : Reachable p genesis_time validators (generate_genesis p genesis_time validators)
  accept :
      {s t : State} (b : Block)
      → Reachable p genesis_time validators s
      → b.slot < u64_mod
      → state_transition p s b ≡ ok t
      → Reachable p genesis_time validators t

-- Where no state root is the zero hash, every state that a chain of accepted blocks with slots
-- below 2^64 leads to from genesis is valid: its history and its justified bits cover exactly the
-- slots below its latest header, and after the first block its justified and finalized checkpoints
-- are justified blocks of its history.
pub Reachable-IsValid :
    (p : Primitives) (genesis_time : ℕ) (validators : List Validator) {t : State}
    → NeverZero p
    → Reachable p genesis_time validators t
    → IsValid t
Reachable-IsValid p genesis_time validators never_zero start =
    generate_genesis-IsValid p genesis_time validators
Reachable-IsValid p genesis_time validators never_zero (accept {s} {t} b r u64 e) =
    state_transition-IsValid p s b t never_zero u64
      (Reachable-IsValid p genesis_time validators never_zero r) e
