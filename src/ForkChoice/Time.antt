-- ===== src/ForkChoice/Time.antt =====
-- chain/forkchoice/time.go: the intervals of a slot, and the moves of votes from new to known.
pub mod Ticks
use gean.Base.{
  ℕ, zero, suc, ◌+◌, ◌-◌, ◌*◌, ◌/◌, ◌%◌, List, [], ◌∷◌, Bool, true, false, ◌&&◌, ltb, leb, ◌==◌,
  if◌then◌else◌, insert, nat_eq,
}
use gean.Types.Containers.{intervals_per_slot, seconds_per_interval}
use gean.Types.Slot.{u64_mod}
use gean.Storage.{get_all_blocks}
use gean.ForkChoice.Ghost.{AttestationMap, get_fork_choice_head}
use gean.ForkChoice.Store.{Store, ceil_div}

unfoldable pub update_head : Store → Store
update_head c = record c {
  head =
      get_fork_choice_head (get_all_blocks c.storage) c.latest_justified.root
        c.latest_known_attestations 0;
}

-- `for id, sa := range c.latestNewAttestations`
unfoldable pub merge_votes : AttestationMap → AttestationMap → AttestationMap
merge_votes [] known = known
merge_votes ((id, sa) ∷ new) known = merge_votes new (insert id sa known)

unfoldable pub accept_new_attestations : Store → Store
unfolding update_head
accept_new_attestations c = update_head (record c {
  latest_known_attestations = merge_votes c.latest_new_attestations c.latest_known_attestations;
  latest_new_attestations = [];
})

unfoldable pub update_safe_target : Store → Store
update_safe_target c = record c {
  safe_target =
      get_fork_choice_head (get_all_blocks c.storage) c.latest_justified.root
        c.latest_new_attestations (ceil_div (c.num_validators * 2 % u64_mod) 3);
}

unfoldable pub tick_interval : Store → Bool → Store
tick_interval c has_proposal =
    let next = (c.time + 1) % u64_mod in
    let c' : Store = record c { time = next } in
    let current_interval = next % intervals_per_slot in
    if current_interval == 0
    then (if has_proposal then accept_new_attestations c' else c')
    else if current_interval == 2
    then update_safe_target c'
    else if current_interval == 3
    then accept_new_attestations c'
    else c'

-- `for c.time < tickInterval`, with the rounds left counted.
unfoldable pub advance_loop : ℕ → Store → ℕ → Bool → Store
advance_loop zero c target has_proposal = c
advance_loop (suc k) c target has_proposal =
    let signal = has_proposal && (c.time + 1) % u64_mod == target in
    let rest = advance_loop k (tick_interval c signal) target has_proposal in
    if ltb c.time target then rest else c

unfoldable pub advance_time : Store → ℕ → Bool → Store
advance_time c time has_proposal =
    let target = (time - c.genesis_time) / seconds_per_interval in
    if leb time c.genesis_time then c else advance_loop (target - c.time) c target has_proposal
