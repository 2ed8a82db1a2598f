-- ===== src/Subscription/Tests.antt =====
-- A subscription to a power value that changes (mash-go/pkg/subscription/subscription.go).
use mash.Base.{
  ◌<◌, ℕ, ◌+◌, ◌-◌, ◌≤◌, ◌≡◌, refl, true, false, none, some, List, [], ◌∷◌, arith, ℕ_discrete,
}
use mash.Base.Int.{pos}
use mash.Base.GoMap.{GoMap, nat_key, insert, lookup}
use mash.Subscription.Values.{Value, int64, float64, string, values_equal}
use mash.Subscription.{
  Subscription, needs_heartbeat, new, get_pending_notification, record_change, flush, notify_loop,
  bounces, set_priming_values, store_all,
}
use mash.Subscription.View.{receive, UpToDate, poll-UpToDate}
use mash.Subscription.Sync.{Event, primes, changes, polls, run, step, Informed, run-new-Informed}
use mash.Subscription.Pacing.{Apart, sent_at, notifications-Apart, AllBounce, silent_poll_heartbeat}

abbrev at_first : GoMap ℕ Value
at_first = (4, int64 (pos 100)) ∷ []

abbrev subscribed_power : Subscription
subscribed_power = new 1 2 3 [] 10 60 0

abbrev history : List Event
history =
    primes at_first 0
    ∷ changes 4 (int64 (pos 200)) 5
    ∷ changes 4 (int64 (pos 100)) 7
    ∷ changes 5 (string "on") 8
    ∷ []

abbrev later : Subscription
later = (run (subscribed_power, []) history).0

abbrev known : GoMap ℕ Value
known = (run (subscribed_power, []) history).1

-- The power has returned to what the subscriber has, so it is not sent.
bounced_back : (get_pending_notification later true 20).1 ≡ some ((5, string "on") ∷ [])
unfolding run step new set_priming_values store_all insert record_change get_pending_notification
    flush notify_loop bounces lookup values_equal ℕ_discrete
bounced_back = refl

too_early : (get_pending_notification later true 12).1 ≡ none
unfolding run step new set_priming_values store_all insert record_change get_pending_notification
    ℕ_discrete
too_early = refl

-- Zero equals minus zero, and a NaN not itself.
floats :
    (values_equal (float64 0) (float64 9223372036854775808) ≡ true)
    × (values_equal (float64 9221120237041090560) (float64 9221120237041090560) ≡ false)
unfolding values_equal
floats = (refl, refl)

run-new-Informed_example : let p = run (new 1 2 3 [] 10 60 0, []) history in Informed p.0 p.1
run-new-Informed_example = run-new-Informed 1 2 3 [] 10 60 0 history

later-Informed : Informed later known
later-Informed = run-new-Informed 1 2 3 [] 10 60 0 history

later_active : later.active ≡ true
unfolding run step new set_priming_values record_change
later_active = refl

later_changed : later.has_changes ≡ true
unfolding run step new set_priming_values record_change
later_changed = refl

later_due : later.min_interval ≤ 20 - later.change_window_start
unfolding run step new set_priming_values record_change
later_due = omega arith

poll-UpToDate_example :
    UpToDate later.pending_changes (receive known (get_pending_notification later true 20).1)
poll-UpToDate_example =
    poll-UpToDate later true 20 known later-Informed.pending later-Informed.last
      later-Informed.agree later_active later_changed later_due

-- A poll too early, one that sends, one in vain, a change, one too early and one that sends.
abbrev polled : List Event
polled =
    primes at_first 0
    ∷ changes 4 (int64 (pos 200)) 5
    ∷ polls true 12
    ∷ polls true 20
    ∷ polls true 20
    ∷ changes 4 (int64 (pos 300)) 21
    ∷ polls true 30
    ∷ polls true 31
    ∷ []

polled_sent : sent_at (subscribed_power, []) polled ≡ 20 ∷ 31 ∷ []
unfolding sent_at step new set_priming_values store_all insert record_change
    get_pending_notification flush notify_loop bounces lookup values_equal ℕ_discrete
polled_sent = refl

notifications-Apart_example : Apart 10 0 (sent_at (subscribed_power, []) polled)
notifications-Apart_example = notifications-Apart 1 2 3 [] 10 60 0 polled (
  omega arith,
  (
    omega arith,
    (omega arith, (omega arith, (omega arith, (omega arith, (omega arith, (omega arith, tt)))))),
  ),
)

abbrev back_again : List Event
back_again = primes at_first 0 ∷ changes 4 (int64 (pos 200)) 5 ∷ changes 4 (int64 (pos 100)) 7 ∷ []

abbrev returned : Subscription
returned = (run (subscribed_power, []) back_again).0

returned_active : returned.active ≡ true
unfolding run step new set_priming_values record_change
returned_active = refl

returned_changed : returned.has_changes ≡ true
unfolding run step new set_priming_values record_change
returned_changed = refl

returned_due : returned.min_interval ≤ 59 - returned.change_window_start
unfolding run step new set_priming_values record_change
returned_due = omega arith

returned_bounces : AllBounce true returned.last_values returned.pending_changes
unfolding run step new set_priming_values record_change store_all insert lookup bounces values_equal
    ℕ_discrete
returned_bounces = (refl, tt)

-- The priming notification was at 0, the poll is at 59: no heartbeat at 118.
silent_poll_heartbeat_example :
    let r = get_pending_notification returned true 59 in
    (r.1 ≡ none)
    × ((at : ℕ) → 59 ≤ at → at < 59 + returned.max_interval → needs_heartbeat r.0 at ≡ false)
silent_poll_heartbeat_example =
    silent_poll_heartbeat returned true 59 returned_active returned_changed returned_due
      returned_bounces
