-- ===== src/Service.antt =====
-- mash-go/pkg/service: how a device lets controllers try its setup code (device_service_commissioning.go,
-- pase_tracker.go). A connection that has sent its PASERequest waits for the backoff, asks for the
-- commissioning lock, completes the handshake and releases the lock; many connections do so at a time,
-- and what one does under a lock is one step. A connection shows the delay that it is to wait; the wait
-- is not modelled, so that it may ask for the lock at any later time. The zones may change at any time,
-- as a commissioning adds one and others connect, disconnect or go. The reset of the test controls is
-- left out.
pub mod Connections
pub mod Locking
pub mod Guarding
mod Tests
use mash.Base.{
  ℕ, zero, suc, ◌+◌, ◌-◌, ◌*◌, ◌/◌, ◌%◌, ◌^◌, Bool, true, false, not, ◌&&◌, ◌||◌, Option, none,
  some, List, [], ◌∷◌, ◌++◌, String, ltb, leb, ◌==◌, if◌then◌else◌, length,
}
use mash.Base.Int.{ℤ, pos, negsuc}
use mash.Zone.{ZoneType, zone_type_test}

pub record Tiers : Type 0 where
  pub first : ℕ
  pub second : ℕ
  pub third : ℕ
  pub fourth : ℕ

-- PASEAttemptTracker.
pub record Tracker : Type 0 where
  pub failed_attempts : ℕ
  pub backoff_tiers : Tiers

unfoldable pub new_tracker : Tiers → Tracker
new_tracker tiers = record { failed_attempts = 0; backoff_tiers = tiers }

-- The delay of an attempt by its number, from 1.
unfoldable pub tier_delay : Tiers → ℕ → ℕ
tier_delay t number =
    if leb number 3
    then t.first
    else if leb number 6
    then t.second
    else if leb number 10
    then t.third
    else t.fourth

unfoldable pub get_delay : Tracker → ℕ
unfolding tier_delay
get_delay t = tier_delay t.backoff_tiers (t.failed_attempts + 1)

unfoldable pub record_failure : Tracker → Tracker
record_failure t = record t { failed_attempts = t.failed_attempts + 1 }

unfoldable pub reset : Tracker → Tracker
reset t = record t { failed_attempts = 0 }

pub record ConnectedZone : Type 0 where
  pub id : String
  pub zone_type : ZoneType
  pub connected : Bool

pub record Config : Type 0 where
  pub connection_cooldown : ℕ
  pub handshake_timeout : ℕ
  pub max_zones : ℕ
  pub enable_key_valid : Bool
  pub pase_backoff_enabled : Bool
  pub pase_backoff_tiers : Tiers

-- The fields of DeviceService that commissioning uses; the zero time is none.
pub record Service : Type 0 where
  pub config : Config
  pub zones : List ConnectedZone
  pub tracker : Option Tracker
  pub commissioning_conn_active : Bool
  pub commissioning_generation : ℕ
  pub last_commissioning_attempt : Option ℕ

abbrev pub tracker_of : Config → Option Tracker
unfolding new_tracker
tracker_of c = if c.pase_backoff_enabled then some (new_tracker c.pase_backoff_tiers) else none

unfoldable pub new_service : Config → List ConnectedZone → Service
unfolding tracker_of
new_service c zones = record {
  config = c;
  zones = zones;
  tracker = tracker_of c;
  commissioning_conn_active = false;
  commissioning_generation = 0;
  last_commissioning_attempt = none;
}

pub data RejectReason : Type 0 where
  already_in_progress : RejectReason
  cooldown : RejectReason
  zones_full : RejectReason

pub data Acceptance : Type 0 where
  accepted : ℕ → Acceptance
  rejected : RejectReason → Acceptance

-- `time.Since(last) < ConnectionCooldown`, with a cooldown that is on.
abbrev pub cooling : ℕ → Option ℕ → ℕ → Bool
cooling least none now = false
cooling least (some last) now = ltb (now - last) least

abbrev is_test : ConnectedZone → Bool
is_test z = z.zone_type == zone_type_test

-- RemoveZone for each zone that is disconnected and no test zone.
unfoldable pub evict_disconnected_zone : List ConnectedZone → List ConnectedZone
evict_disconnected_zone [] = []
evict_disconnected_zone (z ∷ zs) =
    if not z.connected && not (is_test z)
    then evict_disconnected_zone zs
    else z ∷ evict_disconnected_zone zs

unfoldable pub non_test_zone_count : List ConnectedZone → ℕ
non_test_zone_count [] = 0
non_test_zone_count (z ∷ zs) =
    if is_test z then non_test_zone_count zs else suc (non_test_zone_count zs)

-- The check for a slot, with the zones that are left.
unfoldable pub slots_full : Config → List ConnectedZone → Bool
unfolding non_test_zone_count
slots_full c zones =
    (leb c.max_zones (non_test_zone_count zones) && not c.enable_key_valid)
    || ltb c.max_zones (length zones)

-- Acceptance once the zones have been looked at. The generation is a uint64.
unfoldable pub accept_with : Service → Service × Acceptance
unfolding slots_full
accept_with s =
    let generation = (s.commissioning_generation + 1) % 2 ^ 64 in
    if slots_full s.config s.zones then (s, rejected zones_full) else (
      record s { commissioning_conn_active = true; commissioning_generation = generation },
      accepted generation,
    )

-- With an enable key, test zones aside, disconnected zones make room.
abbrev pub kept_zones : Service → List ConnectedZone
kept_zones s = if s.config.enable_key_valid then evict_disconnected_zone s.zones else s.zones

unfoldable pub accept_commissioning_connection : Service → ℕ → Service × Acceptance
unfolding accept_with evict_disconnected_zone
accept_commissioning_connection s now =
    if s.commissioning_conn_active
    then (s, rejected already_in_progress)
    else if cooling s.config.connection_cooldown s.last_commissioning_attempt now
    then (s, rejected cooldown)
    else accept_with (record s { zones = kept_zones s })

unfoldable pub release_commissioning_connection : Service → ℕ → ℕ → Service
release_commissioning_connection s generation now =
    if s.commissioning_generation == generation
    then record s { commissioning_conn_active = false; last_commissioning_attempt = some now }
    else s

abbrev pub reset_tracker : Option Tracker → Option Tracker
unfolding reset
reset_tracker none = none
reset_tracker (some t) = some (reset t)

abbrev pub count_failure : Option Tracker → Option Tracker
unfolding record_failure
count_failure none = none
count_failure (some t) = some (record_failure t)

unfoldable pub reset_pase_tracker : Service → Service
unfolding reset_tracker reset
reset_pase_tracker s = record s { tracker = reset_tracker s.tracker }

unfoldable pub fail_attempt : Service → Service
unfolding count_failure record_failure
fail_attempt s = record s { tracker = count_failure s.tracker }

abbrev remaining : ℕ → Option ℕ → ℕ → ℕ
remaining least none now = 0
remaining least (some last) now = least - (now - last)

-- uint32(d.Milliseconds()).
abbrev milliseconds : ℕ → ℕ
milliseconds d = d / 1000000 % 2 ^ 32

unfoldable pub compute_busy_retry_after : Service → ℕ → ℕ
compute_busy_retry_after s now =
    if ltb 0 (remaining s.config.connection_cooldown s.last_commissioning_attempt now)
    then milliseconds (remaining s.config.connection_cooldown s.last_commissioning_attempt now)
    else if s.commissioning_conn_active
    then milliseconds s.config.handshake_timeout
    else 0

-- The loop over the random bytes, `offset << 8 | b` on 64 bits.
unfoldable pub shift_bytes : ℕ → List ℕ → ℕ
shift_bytes offset [] = offset
shift_bytes offset (b ∷ bs) = shift_bytes ((offset * 256 + b) % 2 ^ 64) bs

-- a - n for a duration a.
abbrev minus : ℕ → ℕ → ℤ
minus a n = if leb n a then pos (a - n) else negsuc (n - a - 1)

-- An int64 is negative from 2^63 on, and the remainder has the sign of the dividend.
unfoldable pub random_error_delay : Bool → ℕ → ℕ → List ℕ → ℤ
unfolding shift_bytes
random_error_delay generic_errors low high bytes =
    let n = shift_bytes 0 bytes in
    if not generic_errors
    then pos 0
    else if leb high low
    then pos low
    else if ltb n (2 ^ 63)
    then pos (low + n % (high - low + 1))
    else minus low ((2 ^ 64 - n) % (high - low + 1))

-- What a connection's goroutine shows: the backoff delay, the start and the end of a handshake, a
-- failed or successful one, a rejection with the hint of computeBusyRetryAfter, and a window that
-- opens or closes.
pub data Effect : Type 0 where
  delayed : ℕ → Effect
  began : ℕ → Effect
  failed : Effect
  authenticated : Effect
  released : ℕ → Effect
  turned_away : RejectReason → ℕ → Effect
  window_moved : Effect

-- A system of connections: the generations of those that hold the lock in a handshake, and of those
-- that hold it after one, in the certificate exchange or on the way to their release.
pub record System : Type 0 where
  pub service : Service
  pub handshaking : List ℕ
  pub leaving : List ℕ

unfoldable pub new_system : Config → List ConnectedZone → System
unfolding new_service
new_system c zones = record { service = new_service c zones; handshaking = []; leaving = [] }

abbrev pub delay_of : Option Tracker → List Effect
unfolding get_delay
delay_of none = []
delay_of (some t) = delayed (get_delay t) ∷ []

-- A rejection counts as a failed attempt, but for one while another handshake is in progress.
unfoldable pub reject : Service → RejectReason → Service
unfolding fail_attempt
reject s already_in_progress = s
reject s cooldown = fail_attempt s
reject s zones_full = fail_attempt s

unfoldable pub enter : Service × Acceptance → System → ℕ → System × List Effect
unfolding reject compute_busy_retry_after
enter (s, accepted generation) y now =
    (record y { service = s; handshaking = generation ∷ y.handshaking }, began now ∷ [])
enter (s, rejected reason) y now = (
  record y { service = reject s reason },
  turned_away reason (compute_busy_retry_after (reject s reason) now) ∷ [],
)

unfoldable pub holds : ℕ → List ℕ → Bool
holds g [] = false
holds g (j ∷ js) = (j == g) || holds g js

unfoldable pub drop_one : ℕ → List ℕ → List ℕ
drop_one g [] = []
drop_one g (j ∷ js) = if j == g then js else j ∷ drop_one g js

pub data Event : Type 0 where
  requested : Event
  entered : ℕ → Event
  handshake_failed : ℕ → Event
  handshake_done : ℕ → Event
  finished : ℕ → ℕ → Event
  window_changed : Event
  zones_changed : List ConnectedZone → Event

unfoldable pub step : System → Event → System × List Effect
unfolding delay_of get_delay enter accept_commissioning_connection fail_attempt
    release_commissioning_connection reset_pase_tracker drop_one holds
step y requested = (y, delay_of y.service.tracker)
step y (entered now) = enter (accept_commissioning_connection y.service now) y now
step y (handshake_failed g) =
    if holds g y.handshaking
    then (
      record y {
        service = fail_attempt y.service;
        handshaking = drop_one g y.handshaking;
        leaving = g ∷ y.leaving;
      },
      failed ∷ [],
    )
    else (y, [])
step y (handshake_done g) =
    if holds g y.handshaking
    then (
      record y {
        service = reset_pase_tracker y.service;
        handshaking = drop_one g y.handshaking;
        leaving = g ∷ y.leaving;
      },
      authenticated ∷ [],
    )
    else (y, [])
step y (finished g now) =
    if holds g y.leaving
    then (
      record y {
        service = release_commissioning_connection y.service g now;
        leaving = drop_one g y.leaving;
      },
      released now ∷ [],
    )
    else (y, [])
step y window_changed = (record y { service = reset_pase_tracker y.service }, window_moved ∷ [])
step y (zones_changed zones) = (record y { service = record y.service { zones = zones } }, [])

-- The effects of a run, in the order of time.
unfoldable pub run : System → List Event → System × List Effect
unfolding step
run y [] = (y, [])
run y (e ∷ es) = let (y1, now) = step y e in let (y2, later) = run y1 es in (y2, now ++ later)
