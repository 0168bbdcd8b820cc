-- ===== src/Node/Ticker/Timely.antt =====
-- What a tick publishes is due then.
use gean.Base.{
  ℕ, ◌≡◌, ◌≢◌, refl, sym, ap, List, [], ◌∷◌, All, true, false, Bool-cases, inl, inr, Option, ◌==◌,
  if◌then◌else◌, ok, >>=-eq-ok, arith,
}
use gean.Types.Containers.{SignedAttestation, SignedBlockWithAttestation, Primitives}
use gean.Clock.{is_before_genesis, current_slot, current_interval}
use gean.ForkChoice.Store.{Store}
use gean.ForkChoice.Time.{advance_time}
use gean.Ssz.Codec.{ok_inj}
use gean.Node.Duties.{
  ValidatorDuties, Messages, no_messages, has_proposal, try_propose, try_attest, try_aggregate,
  on_interval,
}
use gean.Node.Duties.Published.{IsVote}
use gean.Node.Duties.Once.{IsProposal, try_propose-IsProposing, votes-try_attest}
use gean.Node.Sync.{Peer}
use gean.Node.Ticker.{Node, Readings, is_behind, sync_if_behind, on_tick}

abbrev pub IsBlockFor : ℕ → SignedBlockWithAttestation → Type 0
IsBlockFor slot s = s.message.block.slot ≡ slot

abbrev pub IsVoteFor : ℕ → SignedAttestation → Type 0
IsVoteFor slot sa = sa.message.slot ≡ slot

-- Blocks and votes for the slot, blocks in interval 0, votes in interval 1, aggregates in interval 2.
pub record IsTimely (slot interval : ℕ) (m : Messages) : Type 0 where
  pub blocks : All (IsBlockFor slot) m.blocks
  pub attestations : All (IsVoteFor slot) m.attestations
  pub proposing : interval ≢ 0 → m.blocks ≡ []
  pub attesting : interval ≢ 1 → m.attestations ≡ []
  pub aggregating : interval ≢ 2 → m.aggregated ≡ []

silent : (slot interval : ℕ) → IsTimely slot interval no_messages
silent slot interval = record {
  blocks = tt;
  attestations = tt;
  proposing = λ h. refl;
  attesting = λ h. refl;
  aggregating = λ h. refl;
}

module _ (p : Primitives) (now : ℕ → Option ℕ) where
  blocks_for :
      (slot n : ℕ) (bs : List SignedBlockWithAttestation)
      → All (IsProposal slot n) bs
      → All (IsBlockFor slot) bs
  blocks_for slot n [] h = tt
  blocks_for slot n (s ∷ bs) h = (h.0.at_slot, blocks_for slot n bs h.1)

  votes_for :
      (slot n : ℕ) (votes : List SignedAttestation)
      → All (IsVote p slot n) votes
      → All (IsVoteFor slot) votes
  votes_for slot n [] h = tt
  votes_for slot n (sa ∷ votes) h = (h.0.at_slot, votes_for slot n votes h.1)

  on_interval-IsTimely :
      (v : ValidatorDuties) (c : Store) (slot interval : ℕ)
      (out : ValidatorDuties × Store × Messages)
      → on_interval p now v c slot interval ≡ ok out
      → IsTimely slot interval out.2
  unfolding on_interval
  on_interval-IsTimely v c slot interval out e = elim (Bool-cases (interval == 0)) [
    | inl zeroth ↦
        let at : interval ≡ 0 = ground arith in
        let (r, e₁, e₂) = >>=-eq-ok (try_propose p v c slot) _ (rw zeroth at e) in
        rw (sym (ok_inj _ out e₂)) (record {
          blocks =
              blocks_for slot c.num_validators r.1
                ((try_propose-IsProposing p v c slot r e₁).blocks);
          attestations = tt;
          proposing = λ h. absurd (h at);
          attesting = λ h. refl;
          aggregating = λ h. refl;
        })
    | inr not_zeroth ↦
        let e' = rw not_zeroth at e in
        elim (Bool-cases (interval == 1)) [
          | inl first ↦
              let at : interval ≡ 1 = ground arith in
              let ((w, d, votes), e₁, e₂) =
                >>=-eq-ok (try_attest p now v c slot) _ (rw first at e') in
              rw (sym (ok_inj _ out e₂)) (record {
                blocks = tt;
                attestations =
                    votes_for slot c.num_validators votes
                      (votes-try_attest p now v w c d slot votes e₁).0;
                proposing = λ h. refl;
                attesting = λ h. absurd (h at);
                aggregating = λ h. refl;
              })
          | inr not_first ↦
              let e'' = rw not_first at e' in
              elim (Bool-cases (interval == 2)) [
                | inl second ↦
                    let at : interval ≡ 2 = ground arith in
                    let (r, e₁, e₂) = >>=-eq-ok (try_aggregate p now v) _ (rw second at e'') in
                    rw (sym (ok_inj _ out e₂)) (record {
                      blocks = tt;
                      attestations = tt;
                      proposing = λ h. refl;
                      attesting = λ h. refl;
                      aggregating = λ h. absurd (h at);
                    })
                | inr not_second ↦
                    rw (sym (ok_inj _ out (rw not_second at e''))) (silent slot interval)
              ]
        ]
  ]

  -- What a tick publishes, where it ends, is due then: blocks and votes are for the slot that the
  -- clock gives; where the clock does not give interval 0 there are no blocks, where it does not give
  -- interval 1 no votes, and where it does not give interval 2 no aggregates; and before genesis
  -- nothing is published.
  pub on_tick-IsTimely :
      (n n' : Node) (peers : List Peer) (at : Readings) (m : Messages)
      → on_tick p now n peers at ≡ ok (n', m)
      → IsTimely (current_slot n.clock at.slot) (current_interval n.clock at.interval) m
        × (is_before_genesis n.clock at.genesis ≡ true → m ≡ no_messages)
  unfolding on_tick
  on_tick-IsTimely n n' peers at m e =
      let slot = current_slot n.clock at.slot in
      let interval = current_interval n.clock at.interval in
      elim (Bool-cases (is_before_genesis n.clock at.genesis)) [
        | inl early ↦
            let same = ok_inj _ (n', m) (rw early at e) in
            let none_sent : no_messages ≡ m = ap (λ (x : Node × Messages). x.1) same in
            rw (sym none_sent) (silent slot interval, λ h. refl)
        | inr started ↦
            let (b, e₁, e₂) =
              >>=-eq-ok
                (if interval == 0
                  then has_proposal n.validator.indices slot n.fc.num_validators
                  else ok false)
                _ (rw started at e) in
            let ((c, status), e₃, e₄) =
              >>=-eq-ok (sync_if_behind p now peers slot (advance_time n.fc at.time b)) _ e₂ in
            (
              elim (Bool-cases (is_behind p now slot status)) [
                | inl behind ↦
                    let same = ok_inj _ (n', m) (rw behind at e₄) in
                    rw (sym (ap (λ (x : Node × Messages). x.1) same)) (silent slot interval)
                | inr synced ↦
                    let (out, e₅, e₆) =
                      >>=-eq-ok (on_interval p now n.validator c slot interval) _
                        (rw synced at e₄) in
                    let same = ok_inj _ (n', m) e₆ in
                    rw (sym (ap (λ (x : Node × Messages). x.1) same))
                      (on_interval-IsTimely n.validator c slot interval out e₅)
              ],
              λ h. cc (started, h),
            )
      ]
