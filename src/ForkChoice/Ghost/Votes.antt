-- ===== src/ForkChoice/Ghost/Votes.antt =====
-- The weight of a block is the number of attestations for it or for a block below it.
use mathlib.Core.List.{Permᴰ}
use mathlib.Core.Logic.{∥∥₁_elim}
use native.Mathlib.Nat.{ℕ_set}
use gean.Base.{
  ◌≢◌, leb→le, Perm, ℕ, zero, suc, ◌+◌, ◌≤◌, ◌<◌, ◌≡◌, refl, sym, ap, ◌∙◌, ◌⊎◌, inl, inr, [], ◌∷◌,
  arith, leb, if◌then◌else◌, Bool-cases, Option-cases, some, none, same_bytes, same_bytes_iff,
  lookup, insert, lookup-insert, bytes_eq,
}
use gean.Types.Containers.{Root, Block, SignedAttestation}
use gean.ForkChoice.Ghost.{
  BlockMap, Weights, AttestationMap, weight_of, climb, count_vote, count_votes,
}

-- Slots fall from each stored block to its stored parent.
abbrev pub Falls : BlockMap → Type 0
Falls blocks =
    (h : Root) (b c : Block)
    → lookup h blocks ≡ some b
    → lookup b.parent_root blocks ≡ some c
    → c.slot < b.slot

-- From the stored block `h` parents above the root's slot lead to `x`, or `h` is `x`.
pub data Under (blocks : BlockMap) (root_slot : ℕ) (x : Root) : Root → Type 0 where
  self :
      (h : Root) (b : Block)
      → lookup h blocks ≡ some b
      → root_slot < b.slot
      → h ≡ x
      → Under blocks root_slot x h
  up :
      (h : Root) (b : Block)
      → lookup h blocks ≡ some b
      → root_slot < b.slot
      → Under blocks root_slot x b.parent_root
      → Under blocks root_slot x h

weight_of-insert :
    (w : Weights) (h x : Root) (n : ℕ)
    → weight_of (insert h n w) x ≡ (if same_bytes h x then n else weight_of w x)
unfolding weight_of
weight_of-insert w h x n = ground (arith, lookup-insert h x n w)

module _ (blocks : BlockMap) (root_slot : ℕ) (x : Root) where
  -- How often a walk of at most `k` rounds from `h` adds a vote to `x`.
  visits : ℕ → Root → ℕ
  visits zero h = 0
  visits (suc k) h = elim (lookup h blocks) [
    | none ↦ 0
    | some b ↦
        if leb b.slot root_slot
        then 0
        else (if same_bytes h x then 1 else 0) + visits k b.parent_root
  ]

  weight_of-climb :
      (k : ℕ) (h : Root) (w : Weights)
      → weight_of (climb k blocks root_slot h w) x ≡ weight_of w x + visits k h
  unfolding climb visits
  weight_of-climb zero h w = omega arith
  weight_of-climb (suc k) h w = elim (Option-cases (lookup h blocks)) [
    | inl e ↦ rw (e, climb, visits) (omega arith)
    | inr (b, e) ↦
        rw (e, climb, visits)
          (ground (
            arith,
            weight_of-climb k b.parent_root (insert h (suc (weight_of w h)) w),
            weight_of-insert w h x (suc (weight_of w h)),
            same_bytes_iff h x,
          ))
  ]

  visits_missing : (k : ℕ) (h : Root) → lookup h blocks ≡ none → visits k h ≡ 0
  unfolding visits
  visits_missing zero h e = refl
  visits_missing (suc k) h e = rw (e, visits)

  Under-stored :
      (h : Root)
      → Under blocks root_slot x h
      → (b : Block) × (lookup h blocks ≡ some b) × (root_slot < b.slot)
  Under-stored h (self _ b e lt same) = (b, e, lt)
  Under-stored h (up _ b e lt u) = (b, e, lt)

  -- What lies above a block has no higher slot.
  Under-slot :
      Falls blocks
      → (h : Root) (b c : Block) → Under blocks root_slot x h
      → lookup h blocks ≡ some b
      → lookup x blocks ≡ some c
      → c.slot ≤ b.slot
  Under-slot falls h b c (self _ b' e lt same) at_h at_x =
      let p : lookup x blocks ≡ some b = rw same at at_h in
      let q : some b ≡ some c = sym p ∙ at_x in ground arith
  Under-slot falls h b c (up _ b' e lt u) at_h at_x =
      let (d, at_parent, _) = Under-stored b'.parent_root u in
      let q : some b ≡ some b' = sym at_h ∙ e in
      let ih = Under-slot falls b'.parent_root d c u at_parent at_x in
      ground (arith, falls h b' d e at_parent)

  -- A block is under `x` if it is `x` or its parent is.
  Under-inv :
      (h : Root) (b : Block)
      → Under blocks root_slot x h
      → lookup h blocks ≡ some b
      → (root_slot < b.slot) × ((h ≡ x) ⊎ Under blocks root_slot x b.parent_root)
  Under-inv h b (self _ b' e lt same) at =
      let q : some b ≡ some b' = sym at ∙ e in (ground arith, inl same)
  Under-inv h b (up _ b' e lt u) at =
      let q : some b ≡ some b' = sym at ∙ e in let q' : b ≡ b' = cc in (ground arith, inr (rw q' u))

  abbrev Exact : ℕ → Root → Type 0
  Exact n h = ((n ≡ 1) × Under blocks root_slot x h) ⊎ ((n ≡ 0) × (¬ Under blocks root_slot x h))

  parent_Exact :
      (k : ℕ) (h : Root)
      → ((b : Block) → lookup h blocks ≡ some b → Exact (visits k h) h)
      → Exact (visits k h) h
  parent_Exact k h some_case = elim (Option-cases (lookup h blocks)) [
    | inl e ↦ inr (visits_missing k h e, λ u. let (b, at, _) = Under-stored h u in cc (sym e ∙ at))
    | inr (b, e) ↦ some_case b e
  ]

  step_Exact :
      Falls blocks
      → (h : Root) (b : Block) (n : ℕ) → lookup h blocks ≡ some b
      → root_slot < b.slot
      → Exact n b.parent_root
      → Exact ((if same_bytes h x then 1 else 0) + n) h
  step_Exact falls h b n e lt parent = elim (Bool-cases (same_bytes h x)) [
    | inl t ↦ rw t (at_x ((same_bytes_iff h x).0 t) parent)
    | inr t ↦ rw t (above (λ same. cc (t, (same_bytes_iff h x).1 same)) parent)
  ]
    where
      at_x : h ≡ x → Exact n b.parent_root → Exact (1 + n) h
      at_x same (inl (n_one, u)) =
          let (c, at, _) = Under-stored b.parent_root u in
          let e' : lookup x blocks ≡ some b = rw same at e in
          let le = Under-slot falls b.parent_root c b u at e' in
          absurd (omega (arith, falls h b c e at, le))
      at_x same (inr (n_zero, none_above)) = inl (omega arith, self h b e lt same)

      above : h ≢ x → Exact n b.parent_root → Exact (0 + n) h
      above other (inl (n_one, u)) = inl (omega arith, up h b e lt u)
      above other (inr (n_zero, none_above)) = inr (
        omega arith,
        λ u.
            let (_, cases) = Under-inv h b u e in
            elim cases [ inl same ↦ absurd (other same) | inr v ↦ none_above v ],
      )

  -- On falling slots a walk with enough rounds counts a block above `h` once, and no other.
  visits-Exact :
      Falls blocks
      → (k : ℕ) (h : Root) (b : Block) → lookup h blocks ≡ some b
      → b.slot < k
      → Exact (visits k h) h
  unfolding visits
  visits-Exact falls zero h b e lt = absurd (omega arith)
  visits-Exact falls (suc k) h b e lt = elim (Bool-cases (leb b.slot root_slot)) [
    | inl low ↦ rw (e, visits, low) (inr (refl, λ u. below (leb→le _ _ low) (Under-inv h b u e).0))
    | inr high ↦
        rw (e, visits, high)
          (step_Exact falls h b (visits k b.parent_root) e (ground arith) (
            parent_Exact k b.parent_root
              λ c at. visits-Exact falls k b.parent_root c at (omega (arith, falls h b c e at))))
  ]
    where
      below : b.slot ≤ root_slot → root_slot < b.slot → ⊥
      below a c = omega arith

-- `n` of the attestations are for a stored block that is `x` or lies under it.
pub data Counted (blocks : BlockMap) (root_slot : ℕ) (x : Root) : AttestationMap → ℕ → Type 0 where
  none_left : Counted blocks root_slot x [] 0
  supports :
      (id : ℕ) (sa : SignedAttestation) {atts : AttestationMap} {n : ℕ}
      → Under blocks root_slot x sa.message.head.root
      → Counted blocks root_slot x atts n
      → Counted blocks root_slot x ((id, sa) ∷ atts) (suc n)
  passes :
      (id : ℕ) (sa : SignedAttestation) {atts : AttestationMap} {n : ℕ}
      → ¬ Under blocks root_slot x sa.message.head.root
      → Counted blocks root_slot x atts n
      → Counted blocks root_slot x ((id, sa) ∷ atts) n

module _ (blocks : BlockMap) (root_slot : ℕ) (x : Root) (falls : Falls blocks) where
  -- The votes that one attestation adds to `x`.
  vote_for : Root → ℕ
  vote_for head = elim (lookup head blocks) [
    | none ↦ 0
    | some b ↦ visits blocks root_slot x (suc b.slot) head
  ]

  weight_of-count_vote :
      (head : Root) (w : Weights)
      → weight_of (count_vote blocks root_slot head w) x ≡ weight_of w x + vote_for head
  unfolding count_vote vote_for
  weight_of-count_vote head w = elim (Option-cases (lookup head blocks)) [
    | inl e ↦ rw (e, count_vote, vote_for) (omega arith)
    | inr (b, e) ↦
        rw (e, count_vote, vote_for) (weight_of-climb blocks root_slot x (suc b.slot) head w)
  ]

  vote_for-Exact : (head : Root) → Exact blocks root_slot x (vote_for head) head
  unfolding vote_for
  vote_for-Exact head = elim (Option-cases (lookup head blocks)) [
    | inl e ↦
        rw (e, vote_for)
          (inr
            (refl, λ u. let (b, at, _) = Under-stored blocks root_slot x head u in cc (sym e ∙ at)))
    | inr (b, e) ↦
        rw (e, vote_for) (visits-Exact blocks root_slot x falls (suc b.slot) head b e (omega arith))
  ]

  total : AttestationMap → ℕ
  total [] = 0
  total ((id, sa) ∷ atts) = vote_for sa.message.head.root + total atts

  weight_of-count_votes :
      (atts : AttestationMap) (w : Weights)
      → weight_of (count_votes blocks root_slot atts w) x ≡ weight_of w x + total atts
  unfolding count_votes total
  weight_of-count_votes [] w = omega arith
  weight_of-count_votes ((id, sa) ∷ atts) w = omega (
    arith,
    weight_of-count_votes atts (count_vote blocks root_slot sa.message.head.root w),
    weight_of-count_vote sa.message.head.root w,
  )

  total-Counted : (atts : AttestationMap) → Counted blocks root_slot x atts (total atts)
  unfolding total
  total-Counted [] = none_left
  total-Counted ((id, sa) ∷ atts) = elim (vote_for-Exact sa.message.head.root) [
    | inl (one, u) ↦
        let e : vote_for sa.message.head.root + total atts ≡ suc (total atts) = omega arith in
        rw e (supports id sa u (total-Counted atts))
    | inr (zero_votes, none_above) ↦
        let e : vote_for sa.message.head.root + total atts ≡ total atts = omega arith in
        rw e (passes id sa none_above (total-Counted atts))
  ]

  total-Permᴰ : {atts atts' : AttestationMap} → Permᴰ atts atts' → total atts ≡ total atts'
  unfolding total
  total-Permᴰ Permᴰ.nil = refl
  total-Permᴰ (Permᴰ.cons e p) =
      omega
        (arith, ap (λ (a : ℕ × SignedAttestation). vote_for a.1.message.head.root) e, total-Permᴰ p)
  total-Permᴰ (Permᴰ.swap e f) = omega (
    arith,
    ap (λ (a : ℕ × SignedAttestation). vote_for a.1.message.head.root) e,
    ap (λ (a : ℕ × SignedAttestation). vote_for a.1.message.head.root) f,
  )
  total-Permᴰ (Permᴰ.trans p q) = total-Permᴰ p ∙ total-Permᴰ q

  weight_of-nil : weight_of [] x ≡ 0
  unfolding weight_of lookup
  weight_of-nil = refl

-- On blocks whose slots fall towards their parents, the weight that the votes give a block is the
-- number of attestations whose head is that block or one under it, counting only stored blocks
-- above the root's slot.
pub count_votes-Counted :
    (blocks : BlockMap) (root_slot : ℕ) (x : Root)
    → Falls blocks
    → (atts : AttestationMap)
    → Counted blocks root_slot x atts (weight_of (count_votes blocks root_slot atts []) x)
count_votes-Counted blocks root_slot x falls atts =
    let e : weight_of (count_votes blocks root_slot atts []) x
        ≡ total blocks root_slot x falls atts =
      omega (
        arith,
        weight_of-count_votes blocks root_slot x falls atts [],
        weight_of-nil blocks root_slot x falls,
      ) in
    rw e (total-Counted blocks root_slot x falls atts)

-- The count does not depend on the order in which the attestations are visited.
pub weight_of-count_votes_perm :
    (blocks : BlockMap) (root_slot : ℕ) (x : Root)
    → Falls blocks
    → (atts atts' : AttestationMap) → Perm atts atts'
    → weight_of (count_votes blocks root_slot atts []) x
      ≡ weight_of (count_votes blocks root_slot atts' []) x
weight_of-count_votes_perm blocks root_slot x falls atts atts' p = omega (
  arith,
  weight_of-count_votes blocks root_slot x falls atts [],
  weight_of-count_votes blocks root_slot x falls atts' [],
  ∥∥₁_elim p (ℕ_set _ _) (total-Permᴰ blocks root_slot x falls),
)
