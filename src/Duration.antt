-- ===== src/Duration.antt =====
-- mash-go/pkg/duration/timer.go: timers that clear a command's value when its duration is over.
-- The Go runtime is part of the state: `pending` holds the time.AfterFunc calls that have not fired
-- and were not stopped, by handle. `now` is what time.Now() returns.
pub mod Invariant
pub mod Cancel
pub mod Firing
pub mod Races
mod Tests
use mash.Base.{
  ℕ, suc, ◌+◌, ◌-◌, ◌*◌, Bool, true, false, ◌&&◌, ◌||◌, Option, none, some, List, [], ◌∷◌, ltb, leb,
  ◌==◌, length, if◌then◌else◌, ℕ_discrete, is_some,
}
use mash.Base.GoMap.{GoMap, Key, nat_key, lookup, insert, delete}

abbrev pub second : ℕ
second = 1000000000

abbrev pub min_duration : ℕ
min_duration = second

abbrev pub max_duration : ℕ
max_duration = 24 * 3600 * second

pub data CommandType : Type 0 where
  limit_consumption limit_production : CommandType
  current_limit_consumption current_limit_production : CommandType
  setpoint_consumption setpoint_production : CommandType
  current_setpoint_consumption current_setpoint_production : CommandType
  pause : CommandType

pub record TimerKey : Type 0 where
  pub zone_id : ℕ
  pub cmd_type : CommandType

unfoldable pub TimerKey-discrete : Discrete TimerKey
TimerKey-discrete = hlevel ℕ_discrete

instance abbrev pub timer_key : Key TimerKey
timer_key = record { dec = TimerKey-discrete }

pub record Timer (V : Type 0) : Type 0 where
  pub key : TimerKey
  pub start_time : ℕ
  pub duration : ℕ
  pub value : V
  pub timer : ℕ

-- A call that the runtime will make: expireTimer with the key, once the deadline has passed.
pub record Call : Type 0 where
  pub key : TimerKey
  pub deadline : ℕ

pub record Manager (V : Type 0) : Type 0 where
  pub timers : GoMap TimerKey (Timer V)
  pub on_expiry : Bool
  pub pending : GoMap ℕ Call
  pub next : ℕ

pub data TimerError : Type 0 where
  timer_not_found invalid_duration : TimerError

-- onExpiry(zoneID, cmdType, value)
pub record Expiry (V : Type 0) : Type 0 where
  pub key : TimerKey
  pub value : V

module _ {V : Type 0} where
  unfoldable pub expires_at : Timer V → ℕ
  expires_at t = t.start_time + t.duration

  -- `-` stops at 0, as the test for a negative remainder makes it.
  unfoldable pub remaining_time : Timer V → ℕ → ℕ
  remaining_time t now = t.duration - (now - t.start_time)

  unfoldable pub is_expired : Timer V → ℕ → Bool
  is_expired t now = leb t.duration (now - t.start_time)

  unfoldable pub new : Manager V
  new = record { timers = []; on_expiry = false; pending = []; next = 0 }

  -- `timer.Stop()`; a handle that has fired is no longer there.
  unfoldable pub stop : Manager V → Timer V → Manager V
  stop m t = record m { pending = delete t.timer m.pending }

  unfoldable pub stop_existing : Manager V → Option (Timer V) → Manager V
  unfolding stop
  stop_existing m none = m
  stop_existing m (some t) = stop m t

  abbrev pub new_timer : TimerKey → ℕ → ℕ → V → ℕ → Timer V
  new_timer key now duration value handle = record {
    key = key;
    start_time = now;
    duration = duration;
    value = value;
    timer = handle;
  }

  -- time.AfterFunc and the write to the map.
  unfoldable pub arm : Manager V → TimerKey → ℕ → V → ℕ → Manager V
  arm m key duration value now = record m {
    timers = insert key (new_timer key now duration value m.next) m.timers;
    pending = insert m.next (record { key = key; deadline = now + duration }) m.pending;
    next = suc m.next;
  }

  unfoldable pub set_timer : Manager V → TimerKey → ℕ → V → ℕ → Manager V × Option TimerError
  unfolding stop_existing arm
  set_timer m key duration value now =
      if ltb duration min_duration
      then (m, some invalid_duration)
      else if ltb max_duration duration
      then (m, some invalid_duration)
      else (arm (stop_existing m (lookup key m.timers)) key duration value now, none)

  -- The two steps that CancelTimer and CancelZoneTimers make for a timer.
  unfoldable pub drop_timer : Manager V → TimerKey → Timer V → Manager V
  unfolding stop
  drop_timer m key t = let stopped = stop m t in record stopped { timers = delete key m.timers }

  unfoldable pub cancel_timer : Manager V → TimerKey → Manager V × Option TimerError
  unfolding drop_timer
  cancel_timer m key = elim (lookup key m.timers) [
    | none ↦ (m, some timer_not_found)
    | some t ↦ (drop_timer m key t, none)
  ]

  -- The loop of CancelZoneTimers: the entries still to visit, and the manager as it stands.
  unfoldable pub cancel_zone_loop : ℕ → GoMap TimerKey (Timer V) → Manager V → Manager V
  cancel_zone_loop zone [] m = m
  cancel_zone_loop zone ((key, t) ∷ todo) m =
      cancel_zone_loop zone todo (if key.zone_id == zone then drop_timer m key t else m)

  unfoldable pub cancel_zone_timers : Manager V → ℕ → Manager V
  unfolding cancel_zone_loop drop_timer
  cancel_zone_timers m zone = cancel_zone_loop zone m.timers m

  -- GetTimer returns a copy without the runtime's timer.
  unfoldable pub get_timer : Manager V → TimerKey → Option (Timer V)
  get_timer m key = lookup key m.timers

  zone_timers_loop : ℕ → GoMap TimerKey (Timer V) → List (Timer V)
  zone_timers_loop zone [] = []
  zone_timers_loop zone ((key, t) ∷ ts) =
      if key.zone_id == zone then t ∷ zone_timers_loop zone ts else zone_timers_loop zone ts

  unfoldable pub get_zone_timers : Manager V → ℕ → List (Timer V)
  unfolding zone_timers_loop
  get_zone_timers m zone = zone_timers_loop zone m.timers

  unfoldable pub count : Manager V → ℕ
  count m = length m.timers

  unfoldable pub set_on_expiry : Manager V → Bool → Manager V
  set_on_expiry m f = record m { on_expiry = f }

  -- The timer goes with its entry; the callback runs after the lock is released.
  unfoldable pub expire_timer : Manager V → TimerKey → Manager V × List (Expiry V)
  expire_timer m key = elim (lookup key m.timers) [
    | none ↦ (m, [])
    | some t ↦ (
      record m { timers = delete key m.timers },
      if m.on_expiry then record { key = key; value = t.value } ∷ [] else [],
    )
  ]

  -- The runtime makes the call with this handle, at or after its deadline.
  unfoldable pub fire : Manager V → ℕ → ℕ → Manager V × List (Expiry V)
  unfolding expire_timer
  fire m handle now = elim (lookup handle m.pending) [
    | none ↦ (m, [])
    | some c ↦
        if ltb now c.deadline
        then (m, [])
        else expire_timer (record m { pending = delete handle m.pending }) c.key
  ]
