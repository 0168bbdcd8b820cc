-- ===== src/Clock.antt =====
-- node/clock.go: slots and intervals of the wall clock. `time.Now().Unix()` is the argument `now`.
use gean.Base.{ℕ, ◌+◌, ◌-◌, ◌*◌, ◌/◌, ◌%◌, ◌≤◌, ◌<◌, ◌≡◌, Bool, arith, ltb, if◌then◌else◌}
use gean.Types.Containers.{seconds_per_slot, seconds_per_interval, intervals_per_slot}
use gean.Types.Slot.{u64_mod}
use gean.ForkChoice.Store.{Store}
use gean.ForkChoice.Time.{advance_time}
use gean.ForkChoice.Time.Ticks.{time-advance_time}

pub record Clock : Type 0 where
  pub genesis_time : ℕ

unfoldable pub is_before_genesis : Clock → ℕ → Bool
is_before_genesis c now = ltb now c.genesis_time

unfoldable pub current_slot : Clock → ℕ → ℕ
current_slot c now = if ltb now c.genesis_time then 0 else (now - c.genesis_time) / seconds_per_slot

unfoldable pub current_interval : Clock → ℕ → ℕ
current_interval c now =
    if ltb now c.genesis_time
    then 0
    else (now - c.genesis_time) % seconds_per_slot / seconds_per_interval

-- The clock and the fork choice agree: with one genesis time, from it on and below 2^64, a store
-- that is not ahead of the wall clock stands, once it is advanced to it, at the clock's interval of
-- the clock's slot.
pub clock_agrees :
    (clock : Clock) (c : Store) (now : ℕ) (proposal : Bool)
    → now < u64_mod
    → clock.genesis_time ≡ c.genesis_time
    → c.genesis_time ≤ now
    → c.time ≤ now - c.genesis_time
    → ((advance_time c now proposal).time
        ≡ current_slot clock now * intervals_per_slot + current_interval clock now)
      × (current_interval clock now < intervals_per_slot)
unfolding current_slot current_interval
clock_agrees clock c now proposal h same started behind =
    let e = time-advance_time c now proposal h in (ground arith, ground arith)
