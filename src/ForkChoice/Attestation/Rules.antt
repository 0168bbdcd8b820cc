-- ===== src/ForkChoice/Attestation/Rules.antt =====
-- When a vote is taken, and what it may change.
use gean.Base.{
  ℕ, ◌+◌, ◌/◌, ◌≤◌, ◌≡◌, refl, ◌∙◌, ◌⊎◌, inl, inr, ◌↔◌, Bool, true, false, arith, ltb, ◌==◌,
  if◌then◌else◌, Bool-cases, Option, Option-cases, none, some, lookup, insert, lookup-insert,
  nat_eq, Run, Error, ok, err, panic,
}
use gean.Types.Containers.{
  AttestationData, SignedAttestation, Block, Primitives, intervals_per_slot,
}
use gean.Storage.{get_block}
use gean.ForkChoice.Store.{Store}
use gean.ForkChoice.Time.Ticks.{SameChain, SameChain-refl, advance_time-SameChain}
use gean.ForkChoice.Attestation.Signed.{
  IsSigned, IsNewer, IsSigned-verifies, verifies-IsSigned, IsNewer-is_newer, is_newer-IsNewer,
}
use gean.ForkChoice.Attestation.{
  validate_attestation_data, is_newer, record_on_chain, record_gossip, process_attestation_locked,
  verify_attestation_signature, advance_to_now,
}

-- Source, target and head are stored blocks, source and target with the slots that the vote gives
-- them, in this order, and the vote is of the next slot at most.
pub record IsSound (c : Store) (d : AttestationData) : Type 0 where
  pub source_block : Block
  pub target_block : Block
  pub head_block : Block
  pub source_stored : get_block c.storage d.source.root ≡ some source_block
  pub target_stored : get_block c.storage d.target.root ≡ some target_block
  pub head_stored : get_block c.storage d.head.root ≡ some head_block
  pub source_slot : source_block.slot ≡ d.source.slot
  pub target_slot : target_block.slot ≡ d.target.slot
  pub ordered : d.source.slot ≤ d.target.slot
  pub timely : d.slot ≤ c.time / intervals_per_slot + 1

module _ (c : Store) (d : AttestationData) where
  IsSound-valid : IsSound c d → validate_attestation_data c d ≡ none
  unfolding validate_attestation_data
  IsSound-valid s = ground arith

  valid-IsSound : validate_attestation_data c d ≡ none → IsSound c d
  unfolding validate_attestation_data
  valid-IsSound e = elim (Option-cases (get_block c.storage d.source.root)) [
    | inl no_source ↦ absurd (ground arith)
    | inr (source, at_source) ↦ elim (Option-cases (get_block c.storage d.target.root)) [
      | inl no_target ↦ absurd (ground arith)
      | inr (target, at_target) ↦ elim (Option-cases (get_block c.storage d.head.root)) [
        | inl no_head ↦ absurd (ground arith)
        | inr (head, at_head) ↦ record {
          source_block = source;
          target_block = target;
          head_block = head;
          source_stored = at_source;
          target_stored = at_target;
          head_stored = at_head;
          source_slot = ground arith;
          target_slot = ground arith;
          ordered = ground arith;
          timely = ground arith;
        }
      ]
    ]
  ]

-- A vote passes validation exactly when it is sound.
pub validate_attestation_data_iff :
    (c : Store) (d : AttestationData) → (validate_attestation_data c d ≡ none) ↔ IsSound c d
validate_attestation_data_iff c d = (valid-IsSound c d, IsSound-valid c d)

-- What a gossip vote must satisfy to be recorded.
pub record IsTaken (p : Primitives) (c : Store) (sa : SignedAttestation) : Type 0 where
  pub sound : IsSound c sa.message
  pub signed : p.should_verify ≡ true → IsSigned p c sa
  pub current : sa.message.slot ≤ c.time / intervals_per_slot
  pub newer : IsNewer (lookup sa.validator_id c.latest_new_attestations) sa.message.slot

module _ (p : Primitives) (c : Store) (sa : SignedAttestation) where
  abbrev taken : Store
  taken = record c { latest_new_attestations = insert sa.validator_id sa c.latest_new_attestations }

  gossip_cases :
      (record_gossip p c sa ≡ c)
      ⊎ ((sa.message.slot ≤ c.time / intervals_per_slot)
          × (is_newer p (lookup sa.validator_id c.latest_new_attestations) sa.message.slot ≡ true)
          × (record_gossip p c sa ≡ taken))
  unfolding record_gossip
  gossip_cases = elim (Bool-cases (ltb (c.time / intervals_per_slot) sa.message.slot)) [
    | inl future ↦ inl (rw future)
    | inr current ↦
        elim (Bool-cases
          (is_newer p (lookup sa.validator_id c.latest_new_attestations) sa.message.slot)) [
            | inl newer ↦ inr (ground arith, newer, rw (current, newer))
            | inr older ↦ inl (rw (current, older))
          ]
  ]

  Run-cases : (r : Run (Unit {0})) → (r ≡ ok tt) ⊎ ((r ≡ panic) ⊎ ((e : Error) × (r ≡ err e)))
  Run-cases (ok tt) = inl refl
  Run-cases panic = inr (inl refl)
  Run-cases (err e) = inr (inr (e, refl))

  locked_cases :
      (process_attestation_locked p c sa false ≡ c)
      ⊎ ((validate_attestation_data c sa.message ≡ none)
          × (p.should_verify ≡ true → verify_attestation_signature p c sa ≡ ok tt)
          × (process_attestation_locked p c sa false ≡ record_gossip p c sa))
  unfolding process_attestation_locked
  locked_cases = elim (Option-cases (validate_attestation_data c sa.message)) [
    | inr (reason, e) ↦ inl (rw (e, process_attestation_locked))
    | inl e ↦ elim (Bool-cases p.should_verify) [
      | inr off ↦ inr (e, λ on. cc (off, on), rw (e, process_attestation_locked, off))
      | inl on ↦ elim (Run-cases (verify_attestation_signature p c sa)) [
        | inl good ↦ inr (e, λ _. good, rw (e, process_attestation_locked, good, on))
        | inr (inl bad) ↦ inl (rw (e, process_attestation_locked, bad, on))
        | inr (inr (x, bad)) ↦ inl (rw (e, process_attestation_locked, bad, on))
      ]
    ]
  ]

  taken_exact : IsTaken p c sa → process_attestation_locked p c sa false ≡ taken
  unfolding process_attestation_locked record_gossip
  taken_exact t =
      let valid = IsSound-valid c sa.message t.sound in
      let current : ltb (c.time / intervals_per_slot) sa.message.slot ≡ false =
        ground (arith, t.current) in
      let newer =
        IsNewer-is_newer p (lookup sa.validator_id c.latest_new_attestations) sa.message.slot
          t.newer in
      elim (Bool-cases p.should_verify) [
        | inl on ↦ rw (
          valid,
          process_attestation_locked,
          IsSigned-verifies p c sa (t.signed on),
          current,
          newer,
          on,
        )
        | inr off ↦ rw (valid, process_attestation_locked, current, newer, off)
      ]

  gossip_ends :
      (process_attestation_locked p c sa false ≡ c)
      ⊎ (IsTaken p c sa × (process_attestation_locked p c sa false ≡ taken))
  gossip_ends = elim locked_cases [
    | inl same ↦ inl same
    | inr (valid, signed, e) ↦ elim gossip_cases [
      | inl same ↦ inl (e ∙ same)
      | inr (current, newer, e') ↦ inr (
        record {
          sound = valid-IsSound c sa.message valid;
          signed = λ on. verifies-IsSigned p c sa (signed on);
          current = current;
          newer =
              is_newer-IsNewer p (lookup sa.validator_id c.latest_new_attestations) sa.message.slot
                newer;
        },
        e ∙ e',
      )
    ]
  ]

-- A gossip vote is taken exactly when it is sound, of the current slot at most and of a later slot
-- than the validator's pending vote, if there is one, and, where the build verifies signatures,
-- signed with the key of that validator in the head's state: then it becomes that
-- validator's pending vote and nothing else changes; otherwise nothing changes at all.
pub process_attestation_gossip :
    (p : Primitives) (c : Store) (sa : SignedAttestation)
    → (IsTaken p c sa → process_attestation_locked p c sa false ≡ taken p c sa)
      × (¬ IsTaken p c sa → process_attestation_locked p c sa false ≡ c)
process_attestation_gossip p c sa = (
  taken_exact p c sa,
  λ refused. elim (gossip_ends p c sa) [ inl same ↦ same | inr (t, e) ↦ absurd (refused t) ],
)

-- The slot of a validator's vote did not fall, and a vote is not lost.
abbrev pub Advances : Option SignedAttestation → Option SignedAttestation → Type 0
Advances none o = Unit
Advances (some a) none = ⊥
Advances (some a) (some b) = a.message.slot ≤ b.message.slot

Advances-refl : (o : Option SignedAttestation) → Advances o o
Advances-refl none = tt
Advances-refl (some a) = omega arith

newer_Advances :
    (p : Primitives) (o : Option SignedAttestation) (sa : SignedAttestation)
    → is_newer p o sa.message.slot ≡ true
    → Advances o (some sa)
unfolding is_newer
newer_Advances p none sa h = tt
newer_Advances p (some a) sa h = ground arith

record_on_chain_known :
    (p : Primitives) (c : Store) (sa : SignedAttestation) (id : ℕ)
    → Advances
        (lookup id c.latest_known_attestations)
        (lookup id (record_on_chain p c sa).latest_known_attestations)
unfolding record_on_chain
record_on_chain_known p c sa id =
    let known = c.latest_known_attestations in
    elim (Bool-cases (is_newer p (lookup sa.validator_id known) sa.message.slot)) [
      | inr older ↦ rw older (Advances-refl (lookup id known))
      | inl newer ↦
          rw (newer, lookup-insert sa.validator_id id sa known)
            (replaced newer (Bool-cases (sa.validator_id == id)))
    ]
  where
    replaced :
        is_newer p (lookup sa.validator_id c.latest_known_attestations) sa.message.slot ≡ true
        → ((sa.validator_id == id) ≡ true) ⊎ ((sa.validator_id == id) ≡ false)
        → Advances
            (lookup id c.latest_known_attestations)
            (if sa.validator_id == id then some sa else lookup id c.latest_known_attestations)
    replaced newer (inr other) = rw other (Advances-refl (lookup id c.latest_known_attestations))
    replaced newer (inl same) =
        let at : sa.validator_id ≡ id = ground arith in
        rw same (newer_Advances p (lookup id c.latest_known_attestations) sa (rw at at newer))

record_on_chain_takes :
    (p : Primitives) (c : Store) (sa : SignedAttestation)
    → Advances (some sa) (lookup sa.validator_id (record_on_chain p c sa).latest_known_attestations)
unfolding record_on_chain is_newer
record_on_chain_takes p c sa =
    let id = sa.validator_id in
    let known = c.latest_known_attestations in
    let at : (id == id) ≡ true = ground arith in
    elim (Option-cases (lookup id known)) [
      | inl e ↦ rw (e, is_newer, lookup-insert id id sa known, at) (omega arith)
      | inr (old, e) ↦ elim (Bool-cases (ltb old.message.slot sa.message.slot)) [
        | inl newer ↦ rw (e, is_newer, newer, lookup-insert id id sa known, at) (omega arith)
        | inr older ↦ rw (e, is_newer, older, e) (ground arith)
      ]
    ]

-- A vote from a block never lowers the slot of any validator's known vote, and after a sound vote
-- its validator's known vote is of that vote's slot or a later one.
pub process_attestation_on_chain :
    (p : Primitives) (c : Store) (sa : SignedAttestation)
    → let after = (process_attestation_locked p c sa true).latest_known_attestations in
      ((id : ℕ) → Advances (lookup id c.latest_known_attestations) (lookup id after))
      × (IsSound c sa.message → Advances (some sa) (lookup sa.validator_id after))
unfolding process_attestation_locked
process_attestation_on_chain p c sa = elim (Option-cases (validate_attestation_data c sa.message)) [
  | inr (reason, e) ↦
      rw (e, process_attestation_locked)
        (
          λ id. Advances-refl (lookup id c.latest_known_attestations),
          λ sound. cc (IsSound-valid c sa.message sound, e),
        )
  | inl e ↦
      rw (e, process_attestation_locked)
        (record_on_chain_known p c sa, λ sound. record_on_chain_takes p c sa)
]

record_on_chain-SameChain :
    (p : Primitives) (c : Store) (sa : SignedAttestation) → SameChain c (record_on_chain p c sa)
unfolding record_on_chain
record_on_chain-SameChain p c sa = record {
  storage = refl;
  justified = refl;
  finalized = refl;
  genesis = refl;
  registry = refl;
}

taken-SameChain : (p : Primitives) (c : Store) (sa : SignedAttestation) → SameChain c (taken p c sa)
taken-SameChain p c sa = record {
  storage = refl;
  justified = refl;
  finalized = refl;
  genesis = refl;
  registry = refl;
}

on_chain_cases :
    (p : Primitives) (c : Store) (sa : SignedAttestation)
    → (process_attestation_locked p c sa true ≡ c)
      ⊎ (process_attestation_locked p c sa true ≡ record_on_chain p c sa)
unfolding process_attestation_locked
on_chain_cases p c sa = elim (Option-cases (validate_attestation_data c sa.message)) [
  | inr (reason, e) ↦ inl (rw (e, process_attestation_locked))
  | inl e ↦ inr (rw (e, process_attestation_locked))
]

-- A vote changes no block, no checkpoint and no parameter of the store.
pub process_attestation_locked-SameChain :
    (p : Primitives) (c : Store) (sa : SignedAttestation) (from_block : Bool)
    → SameChain c (process_attestation_locked p c sa from_block)
process_attestation_locked-SameChain p c sa true = elim (on_chain_cases p c sa) [
  | inl e ↦ rw e (SameChain-refl c)
  | inr e ↦ rw e (record_on_chain-SameChain p c sa)
]
process_attestation_locked-SameChain p c sa false = elim (gossip_ends p c sa) [
  | inl e ↦ rw e (SameChain-refl c)
  | inr (t, e) ↦ rw e (taken-SameChain p c sa)
]

pub advance_to_now-SameChain :
    (p : Primitives) (c : Store) (now : Option ℕ) → SameChain c (advance_to_now p c now)
unfolding advance_to_now
advance_to_now-SameChain p c none = SameChain-refl c
advance_to_now-SameChain p c (some now) = advance_time-SameChain c now false
