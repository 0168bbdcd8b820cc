-- ===== src/Node/Duties.antt =====
-- node/validator.go: the duties of a node's validators. A published message is a result of the duty,
-- whether or not its topic takes it; logging and metrics are left out. `now` is what the store's
-- clock says where a validator's own vote is processed.
pub mod Published
pub mod Once
use gean.Base.{
  ℕ, List, [], ◌∷◌, ◌++◌, Bool, true, false, not, Option, none, some, ◌==◌, if◌then◌else◌, lookup,
  nat_eq, Run, ok, err, panic, ◌>>=◌,
}
use gean.Types.Containers.{
  Root, SignedAttestation, AggregatedAttestation, SignedBlockWithAttestation, Primitives,
}
use gean.Transition.Slots.{is_proposer}
use gean.ForkChoice.Store.{Store}
use gean.ForkChoice.Attestation.{process_attestation}
use gean.ForkChoice.Produce.{produce_block, produce_attestation}
use gean.ForkChoice.Aggregation.{aggregate_attestations}

-- A key: its `Sign`.
abbrev pub Signer : Type 0
Signer = ℕ → Root → Option (List ℕ)

-- `aggregates` is whether there is a topic to publish aggregates on.
pub record ValidatorDuties : Type 0 where
  pub indices : List ℕ
  pub keys : List (ℕ × Signer)
  pub aggregates : Bool
  pub pending_attestations : List SignedAttestation

-- What a duty publishes.
pub record Messages : Type 0 where
  pub blocks : List SignedBlockWithAttestation
  pub attestations : List SignedAttestation
  pub aggregated : List AggregatedAttestation

abbrev pub no_messages : Messages
no_messages = record { blocks = []; attestations = []; aggregated = [] }

-- The loop of HasProposal.
unfoldable pub has_proposal : List ℕ → ℕ → ℕ → Run Bool
has_proposal [] slot n = ok false
has_proposal (idx ∷ indices) slot n =
    let rest = has_proposal indices slot n in
    is_proposer idx slot n >>= λ proposes. if proposes then ok true else rest

module _ (p : Primitives) where
  -- What a validator whose key is found makes of a produced block: an error is logged.
  unfoldable pub proposed :
      Store × Run SignedBlockWithAttestation → Run (Store × List SignedBlockWithAttestation)
  proposed (c, ok envelope) = ok (c, envelope ∷ [])
  proposed (c, err _) = ok (c, [])
  proposed (c, panic) = panic

  unfoldable pub propose_with :
      Option Signer → Store → ℕ → ℕ → Run (Store × List SignedBlockWithAttestation)
  propose_with none c slot idx = ok (c, [])
  propose_with (some kp) c slot idx = proposed (produce_block p kp c slot idx)

  -- A round of TryPropose.
  unfoldable pub propose_one :
      List (ℕ × Signer) → Store → ℕ → ℕ → Run (Store × List SignedBlockWithAttestation)
  propose_one keys c slot idx = is_proposer idx slot c.num_validators >>= λ proposes.
      if not proposes then ok (c, []) else propose_with (lookup idx keys) c slot idx

  unfoldable pub propose_loop :
      List (ℕ × Signer) → Store → ℕ → List ℕ → Run (Store × List SignedBlockWithAttestation)
  propose_loop keys c slot [] = ok (c, [])
  propose_loop keys c slot (idx ∷ indices) = propose_one keys c slot idx >>= λ (d, blocks).
      propose_loop keys d slot indices >>= λ (e, more). ok (e, blocks ++ more)

  -- Slot 0 is the anchor's.
  unfoldable pub try_propose :
      ValidatorDuties → Store → ℕ → Run (Store × List SignedBlockWithAttestation)
  try_propose v c slot = if slot == 0 then ok (c, []) else propose_loop v.keys c slot v.indices

  module _ (now : ℕ → Option ℕ) where
    -- A signed vote is processed locally and published.
    unfoldable pub attested :
        ℕ → Store × Run SignedAttestation → Run (Store × List SignedAttestation)
    attested idx (c, ok sa) = ok (process_attestation p c (now idx) sa, sa ∷ [])
    attested idx (c, err _) = ok (c, [])
    attested idx (c, panic) = panic

    unfoldable pub attest_with :
        Option Signer → Store → ℕ → ℕ → Run (Store × List SignedAttestation)
    attest_with none c slot idx = ok (c, [])
    attest_with (some kp) c slot idx = attested idx (produce_attestation p kp c slot idx)

    -- A round of TryAttest, which skips the slot's proposer.
    unfoldable pub attest_one :
        List (ℕ × Signer) → Store → ℕ → ℕ → Run (Store × List SignedAttestation)
    attest_one keys c slot idx = is_proposer idx slot c.num_validators >>= λ proposes.
        if proposes then ok (c, []) else attest_with (lookup idx keys) c slot idx

    unfoldable pub attest_loop :
        List (ℕ × Signer) → Store → ℕ → List ℕ → Run (Store × List SignedAttestation)
    attest_loop keys c slot [] = ok (c, [])
    attest_loop keys c slot (idx ∷ indices) = attest_one keys c slot idx >>= λ (d, votes).
        attest_loop keys d slot indices >>= λ (e, more). ok (e, votes ++ more)

    -- The pending votes are those of this slot.
    unfoldable pub try_attest :
        ValidatorDuties → Store → ℕ → Run (ValidatorDuties × Store × List SignedAttestation)
    try_attest v c slot = attest_loop v.keys c slot v.indices >>= λ (d, votes).
        ok (record v { pending_attestations = votes }, d, votes)

    -- An error of the aggregation leaves the pending votes.
    unfoldable pub try_aggregate :
        ValidatorDuties → Run (ValidatorDuties × List AggregatedAttestation)
    try_aggregate v = elim v.pending_attestations [
      | [] ↦ ok (v, [])
      | _ ∷ _ ↦ elim (aggregate_attestations v.pending_attestations) [
        | err _ ↦ ok (v, [])
        | panic ↦ panic
        | ok agg ↦
            ok (record v { pending_attestations = [] }, if v.aggregates then agg ∷ [] else [])
      ]
    ]

    -- `switch interval`
    unfoldable pub on_interval :
        ValidatorDuties → Store → ℕ → ℕ → Run (ValidatorDuties × Store × Messages)
    on_interval v c slot interval =
        let propose = try_propose v c slot >>= λ (d, blocks).
        ok (v, d, record { blocks = blocks; attestations = []; aggregated = [] }) in
        let attest = try_attest v c slot >>= λ (w, d, votes).
        ok (w, d, record { blocks = []; attestations = votes; aggregated = [] }) in
        let aggregate = try_aggregate v >>= λ (w, aggs).
        ok (w, c, record { blocks = []; attestations = []; aggregated = aggs }) in
        if interval == 0
        then propose
        else if interval == 1
        then attest
        else if interval == 2
        then aggregate
        else ok (v, c, no_messages)
