-- ===== src/Service/Tests.antt =====
-- mash-go/pkg/service: attempts at the setup code at concrete times, in milliseconds.
use mash.Base.{ℕ_discrete, ◌≡◌, refl, true, false, none, List, [], ◌∷◌}
use mash.Base.Int.{negsuc}
use mash.Service.{
  Tiers, Config, new_system, run, delayed, began, failed, authenticated, released, turned_away,
  already_in_progress, cooldown, Event, requested, entered, handshake_failed, handshake_done,
  finished, random_error_delay, new_service, new_tracker, tracker_of,
}
use mash.Base.GoMap.{insert}
use mash.Service.Connections.{add, close_stale, new_conn_tracker}
use mash.Service.Locking.{Alternates}
use mash.Service.Guarding.{Slowed, run-new-Guarded}

abbrev tiers : Tiers
tiers = record { first = 0; second = 1000; third = 3000; fourth = 10000 }

abbrev config : Config
config = record {
  connection_cooldown = 500;
  handshake_timeout = 85000;
  max_zones = 2;
  enable_key_valid = false;
  pase_backoff_enabled = true;
  pase_backoff_tiers = tiers;
}

-- A failed attempt, one that comes while it runs, one within the cooldown, and a success.
abbrev attempts : List Event
attempts =
    requested
    ∷ entered 1000
    ∷ entered 1010
    ∷ handshake_failed 1
    ∷ finished 1 1200
    ∷ entered 1300
    ∷ requested
    ∷ entered 1800
    ∷ handshake_done 2
    ∷ finished 2 2000
    ∷ []

attempts_run :
    (run (new_system config []) attempts).1
    ≡ delayed 0
      ∷ began 1000
      ∷ turned_away already_in_progress 0
      ∷ failed
      ∷ released 1200
      ∷ turned_away cooldown 0
      ∷ delayed 0
      ∷ began 1800
      ∷ authenticated
      ∷ released 2000
      ∷ []
unfolding run new_system new_service new_tracker tracker_of
attempts_run = refl

-- Of eight random bytes that begin with one from 128 on, the delay may be less than its minimum.
delay_below_minimum :
    random_error_delay true 100 500 (255 ∷ 255 ∷ 255 ∷ 255 ∷ 255 ∷ 255 ∷ 255 ∷ 0 ∷ []) ≡ negsuc 155
unfolding random_error_delay
delay_below_minimum = refl

stale_closed : close_stale (add (add new_conn_tracker 3 10) 4 90) 20 100 ≡ ((4, 90) ∷ [], 3 ∷ [])
unfolding close_stale add new_conn_tracker insert ℕ_discrete
stale_closed = refl

run-new-Guarded_example :
    Alternates 500 false none (run (new_system config []) attempts).1
    × Slowed tiers 0 (run (new_system config []) attempts).1
run-new-Guarded_example = run-new-Guarded config [] attempts
