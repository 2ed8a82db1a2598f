-- ===== src/Dispatch/Tracking.antt =====
-- mash-go/pkg/service/dispatch/session_subscription_tracker.go: the subscriptions of a session, in
-- both directions, each with ids of its own. An id is a uint32.
use mash.Base.{
  ℕ, ◌+◌, ◌%◌, ◌^◌, Bool, true, false, ◌&&◌, ◌||◌, Option, List, [], ◌∷◌, ◌==◌, if◌then◌else◌,
  is_some, length, map,
}
use mash.Base.GoMap.{GoMap, nat_key, lookup, insert, delete}

pub record Subscription : Type 0 where
  pub id : ℕ
  pub endpoint_id : ℕ
  pub feature_id : ℕ
  pub attributes : List ℕ

pub record Tracker : Type 0 where
  pub inbound : GoMap ℕ Subscription
  pub next_inbound_id : ℕ
  pub outbound : GoMap ℕ Subscription
  pub next_outbound_id : ℕ

unfoldable pub new_tracker : Tracker
new_tracker = record { inbound = []; next_inbound_id = 0; outbound = []; next_outbound_id = 0 }

abbrev pub next_id : ℕ → ℕ
next_id n = (n + 1) % 2 ^ 32

unfoldable pub add_inbound : Tracker → ℕ → ℕ → List ℕ → Tracker × ℕ
add_inbound t e f attributes =
    let id = next_id t.next_inbound_id in
    (
      record t {
        next_inbound_id = id;
        inbound =
            insert id (record { id = id; endpoint_id = e; feature_id = f; attributes = attributes })
              t.inbound;
      },
      id,
    )

unfoldable pub add_outbound : Tracker → ℕ → ℕ → List ℕ → Tracker × ℕ
add_outbound t e f attributes =
    let id = next_id t.next_outbound_id in
    (
      record t {
        next_outbound_id = id;
        outbound =
            insert id (record { id = id; endpoint_id = e; feature_id = f; attributes = attributes })
              t.outbound;
      },
      id,
    )

unfoldable pub remove_inbound : Tracker → ℕ → Tracker × Bool
remove_inbound t id =
    if is_some (lookup id t.inbound)
    then (record t { inbound = delete id t.inbound }, true)
    else (t, false)

unfoldable pub remove_outbound : Tracker → ℕ → Tracker × Bool
remove_outbound t id =
    if is_some (lookup id t.outbound)
    then (record t { outbound = delete id t.outbound }, true)
    else (t, false)

unfoldable pub get_inbound : Tracker → ℕ → Option Subscription
get_inbound t id = lookup id t.inbound

unfoldable pub get_outbound : Tracker → ℕ → Option Subscription
get_outbound t id = lookup id t.outbound

unfoldable pub list_inbound : Tracker → List Subscription
list_inbound t = map (λ e. e.1) t.inbound

unfoldable pub list_outbound : Tracker → List Subscription
list_outbound t = map (λ e. e.1) t.outbound

unfoldable pub contains : List ℕ → ℕ → Bool
contains [] id = false
contains (n ∷ ns) id = (n == id) || contains ns id

abbrev covers : List ℕ → ℕ → Bool
covers [] id = true
covers (n ∷ ns) id = contains (n ∷ ns) id

-- The test of GetMatchingInbound.
unfoldable pub matches : ℕ → ℕ → ℕ → Subscription → Bool
unfolding contains
matches e f a s = (s.endpoint_id == e) && (s.feature_id == f) && covers s.attributes a

unfoldable pub matching : ℕ → ℕ → ℕ → GoMap ℕ Subscription → List Subscription
unfolding matches
matching e f a [] = []
matching e f a ((id, s) ∷ rest) =
    if matches e f a s then s ∷ matching e f a rest else matching e f a rest

unfoldable pub get_matching_inbound : Tracker → ℕ → ℕ → ℕ → List Subscription
unfolding matching
get_matching_inbound t e f a = matching e f a t.inbound

unfoldable pub clear_inbound : Tracker → Tracker
clear_inbound t = record t { inbound = [] }

unfoldable pub inbound_count : Tracker → ℕ
inbound_count t = length t.inbound
