-- ===== src/ForkChoice/Produce/Target.antt =====
-- The checkpoint that a validator votes for.
use gean.Base.{
  ℕ, zero, suc, ◌≤◌, ◌<◌, ◌≡◌, refl, sym, ◌⊎◌, inl, inr, true, false, arith, ltb, Bool-cases,
  Option-cases, none, some, ok, err, target_missing,
}
use gean.Types.Containers.{Root, Block, Primitives, justification_lookback}
use gean.Types.Slot.{is_justifiable_after}
use gean.Storage.{Storage, get_block}
use gean.ForkChoice.Ghost.Votes.{Falls}
use gean.ForkChoice.Store.{Store}
use gean.ForkChoice.Produce.{look_back, to_justifiable, rounds_from, get_vote_target}

-- The way back from the head for the rounds given: to the parent of a stored block, while it is
-- newer than the stored safe target.
pub data LooksBack (m : Storage) (safe : Root) : ℕ → Root → Root → Type 0 where
  spent : (r e : Root) → r ≡ e → LooksBack m safe zero r e
  stay :
      (k : ℕ) (r e : Root)
      → r ≡ e
      → ((b s : Block) → get_block m r ≡ some b → get_block m safe ≡ some s → b.slot ≤ s.slot)
      → LooksBack m safe (suc k) r e
  back :
      (k : ℕ) (r e : Root) (b s : Block)
      → get_block m r ≡ some b
      → get_block m safe ≡ some s
      → s.slot < b.slot
      → LooksBack m safe k b.parent_root e
      → LooksBack m safe (suc k) r e

-- From `r` up through stored blocks whose slots are not justifiable after the finalized slot, to `e`.
pub data Skips (sqrt : ℕ → ℕ) (m : Storage) (finalized : ℕ) (e : Root) : Root → Type 0 where
  here : (r : Root) → r ≡ e → Skips sqrt m finalized e r
  up :
      (r : Root) (b : Block)
      → get_block m r ≡ some b
      → is_justifiable_after sqrt b.slot finalized ≡ false
      → Skips sqrt m finalized e b.parent_root
      → Skips sqrt m finalized e r

module _ (m : Storage) (safe : Root) where
  -- Where a round changes nothing, those that are left change nothing.
  look_back_stays :
      (k : ℕ) (r : Root)
      → ((b s : Block) → get_block m r ≡ some b → get_block m safe ≡ some s → b.slot ≤ s.slot)
      → look_back k m (get_block m safe) r ≡ r
  unfolding look_back
  look_back_stays zero r h = refl
  look_back_stays (suc k) r h =
      let rest = look_back_stays k r h in
      elim (Option-cases (get_block m safe)) [
        | inl e ↦ rw e (rw e at rest)
        | inr (s, e) ↦ elim (Option-cases (get_block m r)) [
          | inl at ↦ rw (e, at, look_back) (rw e at rest)
          | inr (b, at) ↦
              let old : ltb s.slot b.slot ≡ false = ground (arith, h b s at e) in
              rw (e, at, look_back, old) (rw e at rest)
        ]
      ]

  look_back-LooksBack :
      (k : ℕ) (r : Root) → LooksBack m safe k r (look_back k m (get_block m safe) r)
  unfolding look_back
  look_back-LooksBack zero r = LooksBack.spent r _ refl
  look_back-LooksBack (suc k) r = elim (Option-cases (get_block m safe)) [
    | inl e ↦ still (λ b s at at_s. cc (at_s, e))
    | inr (s, e) ↦ elim (Option-cases (get_block m r)) [
      | inl none_at ↦ still (λ b s' at at_s. cc (at, none_at))
      | inr (b, at) ↦ elim (Bool-cases (ltb s.slot b.slot)) [
        | inr old ↦ still (λ b' s' at' at_s.
            let same : b ≡ b' = cc in
            let same' : s ≡ s' = cc in rw (sym same, sym same') (ground arith))
        | inl newer ↦
            let rest = rw e at (look_back-LooksBack k b.parent_root) in
            rw (e, at, look_back, newer) (LooksBack.back k r _ b s at e (ground arith) rest)
      ]
    ]
  ]
    where
      still :
          ((b s : Block) → get_block m r ≡ some b → get_block m safe ≡ some s → b.slot ≤ s.slot)
          → LooksBack m safe (suc k) r (look_back (suc k) m (get_block m safe) r)
      still h = LooksBack.stay k r _ (sym (look_back_stays (suc k) r h)) h

module _ (sqrt : ℕ → ℕ) (m : Storage) (finalized : ℕ) where
  to_justifiable-Skips :
      (k : ℕ) (root : Root) → Skips sqrt m finalized (to_justifiable sqrt k m finalized root) root
  unfolding to_justifiable
  to_justifiable-Skips zero root = Skips.here root refl
  to_justifiable-Skips (suc k) root = elim (Option-cases (get_block m root)) [
    | inl e ↦ rw (e, to_justifiable) (Skips.here root refl)
    | inr (b, e) ↦ elim (Bool-cases (is_justifiable_after sqrt b.slot finalized)) [
      | inl justifiable ↦ rw (e, to_justifiable, justifiable) (Skips.here root refl)
      | inr refused ↦
          rw (e, to_justifiable, refused)
            (Skips.up root b e refused (to_justifiable-Skips k b.parent_root))
    ]
  ]

  -- With a round more than the slot of the block, the walk ends where the code's loop breaks.
  to_justifiable_ends :
      (k : ℕ) (root : Root)
      → Falls m.blocks
      → ((b : Block) → get_block m root ≡ some b → b.slot < k)
      → (b : Block) → get_block m (to_justifiable sqrt k m finalized root) ≡ some b
      → is_justifiable_after sqrt b.slot finalized ≡ true
  unfolding to_justifiable get_block
  to_justifiable_ends zero root falls enough c at = absurd (omega (arith, enough c at))
  to_justifiable_ends (suc k) root falls enough c at = elim (Option-cases (get_block m root)) [
    | inl e ↦ cc (rw (e, to_justifiable) at at, e)
    | inr (b, e) ↦ elim (Bool-cases (is_justifiable_after sqrt b.slot finalized)) [
      | inl justifiable ↦
          let same : b ≡ c = cc (e, rw (e, to_justifiable, justifiable) at at) in
          rw (sym same) justifiable
      | inr refused ↦
          to_justifiable_ends k b.parent_root falls
            (λ d at_d. omega (arith, enough b e, falls root b d e at_d)) c
            (rw (e, to_justifiable, refused) at at)
    ]
  ]

rounds_from-enough :
    (m : Storage) (root : Root)
    → (b : Block) → get_block m root ≡ some b
    → b.slot < rounds_from m root
unfolding rounds_from
rounds_from-enough m root b e = rw (e, rounds_from) (omega arith)

-- GetVoteTarget, on stored blocks whose slots fall towards their parents. It looks back from the
-- head for at most three rounds, to the parent while the block is newer than the safe target, and
-- goes on from there through the blocks whose slots are not justifiable after the finalized slot.
-- Where that ends at a stored block, its slot is justifiable and the target is its checkpoint; where
-- it ends at a root with no stored block, the call fails. There is no other case.
pub get_vote_target_justifiable :
    (p : Primitives) (c : Store)
    → Falls c.storage.blocks
    → (back root : Root) × LooksBack c.storage c.safe_target 3 c.head back
      × Skips p.float_sqrt c.storage c.latest_finalized.slot root back
      × (((b : Block) × (get_block c.storage root ≡ some b)
            × (is_justifiable_after p.float_sqrt b.slot c.latest_finalized.slot ≡ true)
            × (get_vote_target p c ≡ ok (record { root = p.block_root b; slot = b.slot })))
          ⊎ ((get_block c.storage root ≡ none) × (get_vote_target p c ≡ err target_missing)))
unfolding get_vote_target
get_vote_target_justifiable p c falls =
    let m = c.storage in
    let finalized = c.latest_finalized.slot in
    let back = look_back justification_lookback m (get_block m c.safe_target) c.head in
    let root = to_justifiable p.float_sqrt (rounds_from m back) m finalized back in
    (
      back,
      root,
      look_back-LooksBack m c.safe_target justification_lookback c.head,
      to_justifiable-Skips p.float_sqrt m finalized (rounds_from m back) back,
      elim (Option-cases (get_block m root)) [
        | inl missing ↦ inr (missing, rw (missing, get_vote_target))
        | inr (b, at) ↦ inl (
          b,
          at,
          to_justifiable_ends p.float_sqrt m finalized (rounds_from m back) back falls
              (rounds_from-enough m back) b at,
          rw (at, get_vote_target),
        )
      ],
    )
