-- ===== src/Node/Ticker.antt =====
-- node/ticker.go: a tick of the main loop, after the initial sync. The clock is read four times, and
-- each reading has its own time; the connected peers are those at the tick. The metrics and the log
-- at the boundary of a slot, with the slot that they remember, are left out.
pub mod Timely
use gean.Base.{
  ℕ, ◌+◌, ◌%◌, List, [], ◌∷◌, Bool, true, false, Option, ltb, leb, ◌==◌, if◌then◌else◌, Run, ok,
  ◌>>=◌,
}
use gean.Types.Containers.{Primitives}
use gean.Types.Slot.{u64_mod}
use gean.Clock.{Clock, is_before_genesis, current_slot, current_interval}
use gean.ForkChoice.Store.{Store, ChainStatus, get_status}
use gean.ForkChoice.Time.{advance_time}
use gean.Node.Duties.{ValidatorDuties, Messages, no_messages, has_proposal, on_interval}
use gean.Node.Sync.{Peer, sync_with_peer}

pub record Node : Type 0 where
  pub fc : Store
  pub clock : Clock
  pub validator : ValidatorDuties

-- The times at which a tick reads the clock, in the order of the readings.
pub record Readings : Type 0 where
  pub genesis : ℕ
  pub slot : ℕ
  pub interval : ℕ
  pub time : ℕ

module _ (p : Primitives) (now : ℕ → Option ℕ) where
  -- The loop over the peers, which ends at the first sync that brings a block. The status is read
  -- again only there.
  unfoldable pub sync_until : List Peer → Store → ChainStatus → Run (Store × ChainStatus)
  sync_until [] c status = ok (c, status)
  sync_until (peer ∷ peers) c status = sync_with_peer p now peer c >>= λ (d, synced).
      let rest = sync_until peers d status in if synced then ok (d, get_status d) else rest

  -- `slot > status.HeadSlot+2`
  unfoldable pub is_behind : ℕ → ChainStatus → Bool
  is_behind slot status = ltb ((status.head_slot + 2) % u64_mod) slot

  unfoldable pub sync_if_behind : List Peer → ℕ → Store → Run (Store × ChainStatus)
  sync_if_behind peers slot c =
      let synced = sync_until peers c (get_status c) in
      if is_behind slot (get_status c) then synced else ok (c, get_status c)

  unfoldable pub on_tick : Node → List Peer → Readings → Run (Node × Messages)
  on_tick n peers at =
      let slot = current_slot n.clock at.slot in
      let interval = current_interval n.clock at.interval in
      let proposes = has_proposal n.validator.indices slot n.fc.num_validators in
      let proposal = if interval == 0 then proposes else ok false in
      let tick = proposal >>= λ b.
      sync_if_behind peers slot (advance_time n.fc at.time b) >>= λ (c, status).
      let duties = on_interval p now n.validator c slot interval >>= λ (v, d, m).
      ok (record n { fc = d; validator = v }, m) in
      if is_behind slot status then ok (record n { fc = c }, no_messages) else duties in
      if is_before_genesis n.clock at.genesis then ok (n, no_messages) else tick
