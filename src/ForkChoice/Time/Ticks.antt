-- ===== src/ForkChoice/Time/Ticks.antt =====
-- What the passing of time does to the store.
use gean.Base.{
  ℕ, zero, suc, ◌+◌, ◌-◌, ◌/◌, ◌%◌, ◌<◌, ◌≡◌, refl, ◌∙◌, [], ◌∷◌, Bool, true, ◌&&◌, inl, inr, arith,
  ltb, leb, ◌==◌, if◌then◌else◌, Bool-cases, none, some, lookup, insert, lookup-insert, Distinct,
  nat_eq,
}
use gean.Types.Containers.{seconds_per_interval}
use gean.Types.Slot.{u64_mod}
use gean.ForkChoice.Ghost.{AttestationMap}
use gean.ForkChoice.Store.{Store}
use gean.ForkChoice.Time.{
  merge_votes, accept_new_attestations, update_safe_target, tick_interval, advance_loop,
  advance_time,
}

-- A store whose blocks, checkpoints and parameters are those of another.
pub record SameChain (c d : Store) : Type 0 where
  pub storage : d.storage ≡ c.storage
  pub justified : d.latest_justified ≡ c.latest_justified
  pub finalized : d.latest_finalized ≡ c.latest_finalized
  pub genesis : d.genesis_time ≡ c.genesis_time
  pub registry : d.num_validators ≡ c.num_validators

pub SameChain-refl : (c : Store) → SameChain c c
SameChain-refl c = record {
  storage = refl;
  justified = refl;
  finalized = refl;
  genesis = refl;
  registry = refl;
}

pub SameChain-trans : (c d e : Store) → SameChain c d → SameChain d e → SameChain c e
SameChain-trans c d e a b = record {
  storage = b.storage ∙ a.storage;
  justified = b.justified ∙ a.justified;
  finalized = b.finalized ∙ a.finalized;
  genesis = b.genesis ∙ a.genesis;
  registry = b.registry ∙ a.registry;
}

tick_interval-SameChain : (c : Store) (proposal : Bool) → SameChain c (tick_interval c proposal)
unfolding tick_interval accept_new_attestations update_safe_target
tick_interval-SameChain c proposal = record {
  storage = ground arith;
  justified = ground arith;
  finalized = ground arith;
  genesis = ground arith;
  registry = ground arith;
}

time-tick_interval :
    (c : Store) (proposal : Bool) → (tick_interval c proposal).time ≡ (c.time + 1) % u64_mod
unfolding tick_interval accept_new_attestations update_safe_target
time-tick_interval c proposal = ground arith

advance_loop-SameChain :
    (k : ℕ) (c : Store) (target : ℕ) (proposal : Bool)
    → SameChain c (advance_loop k c target proposal)
unfolding advance_loop
advance_loop-SameChain zero c target proposal = SameChain-refl c
advance_loop-SameChain (suc k) c target proposal =
    let signal = proposal && (c.time + 1) % u64_mod == target in
    elim (Bool-cases (ltb c.time target)) [
      | inl e ↦ rw e (
          SameChain-trans c (tick_interval c signal) _ (tick_interval-SameChain c signal)
            (advance_loop-SameChain k (tick_interval c signal) target proposal))
      | inr e ↦ rw e (SameChain-refl c)
    ]

-- Time changes no block, no checkpoint and no parameter of the store.
pub advance_time-SameChain :
    (c : Store) (time : ℕ) (proposal : Bool) → SameChain c (advance_time c time proposal)
unfolding advance_time
advance_time-SameChain c time proposal = elim (Bool-cases (leb time c.genesis_time)) [
  | inl e ↦ rw e (SameChain-refl c)
  | inr e ↦ rw e (advance_loop-SameChain _ c _ proposal)
]

time-advance_loop :
    (k : ℕ) (c : Store) (target : ℕ) (proposal : Bool)
    → c.time + k ≡ target
    → target < u64_mod
    → (advance_loop k c target proposal).time ≡ target
unfolding advance_loop
time-advance_loop zero c target proposal e h = omega arith
time-advance_loop (suc k) c target proposal e h =
    let signal = proposal && (c.time + 1) % u64_mod == target in
    let step = time-tick_interval c signal in
    let before : ltb c.time target ≡ true = ground arith in
    rw before (time-advance_loop k (tick_interval c signal) target proposal (omega (arith, step)) h)

time-no_rounds :
    (c : Store) (target : ℕ) (proposal : Bool) → (advance_loop 0 c target proposal).time ≡ c.time
unfolding advance_loop
time-no_rounds c target proposal = refl

-- The loop ends, for a time below 2^64: after genesis the store's time is the number of intervals
-- since genesis, or stays what it was where it is already past that; up to genesis it stays what it
-- was.
pub time-advance_time :
    (c : Store) (time : ℕ) (proposal : Bool)
    → time < u64_mod
    → (advance_time c time proposal).time
      ≡ (if ltb c.time (time - c.genesis_time) then time - c.genesis_time else c.time)
unfolding advance_time
time-advance_time c time proposal h =
    let t = time - c.genesis_time in
    let one : t / seconds_per_interval ≡ t = omega arith in
    elim (Bool-cases (leb time c.genesis_time)) [
      | inl e ↦ rw e (ground arith)
      | inr e ↦ elim (Bool-cases (ltb c.time t)) [
        | inl before ↦
            rw (e, one, before)
              (time-advance_loop (t - c.time) c t proposal (ground arith) (omega arith))
        | inr past ↦
            let none_left : t - c.time ≡ 0 = ground arith in
            rw (e, one, past, none_left) (time-no_rounds c t proposal)
      ]
    ]

-- A vote that is accepted replaces the known one; the others stay.
pub lookup-merge_votes :
    (new known : AttestationMap) (id : ℕ)
    → Distinct new
    → lookup id (merge_votes new known)
      ≡ elim (lookup id new) [ some sa ↦ some sa | none ↦ lookup id known ]
unfolding merge_votes lookup
lookup-merge_votes [] known id d = refl
lookup-merge_votes ((i, sa) ∷ new) known id d =
    ground (arith, lookup-merge_votes new (insert i sa known) id d.1, lookup-insert i id sa known)

latest-accept_new_attestations :
    (c : Store)
    → ((accept_new_attestations c).latest_new_attestations ≡ [])
      × ((accept_new_attestations c).latest_known_attestations
          ≡ merge_votes c.latest_new_attestations c.latest_known_attestations)
unfolding accept_new_attestations
latest-accept_new_attestations c = (refl, refl)

-- Where each validator has one new vote at most, accepting empties the new votes; a validator's
-- known vote is its new one where it had one, and the one known before where it had none.
pub lookup-accept_new_attestations :
    (c : Store) (id : ℕ)
    → Distinct c.latest_new_attestations
    → ((accept_new_attestations c).latest_new_attestations ≡ [])
      × (lookup id (accept_new_attestations c).latest_known_attestations
          ≡ elim (lookup id c.latest_new_attestations) [
            | some sa ↦ some sa
            | none ↦ lookup id c.latest_known_attestations
          ])
lookup-accept_new_attestations c id d =
    let (empty, merged) = latest-accept_new_attestations c in
    (
      empty,
      rw merged (lookup-merge_votes c.latest_new_attestations c.latest_known_attestations id d),
    )
