-- ===== src/Dispatch/Fresh.antt =====
-- mash-go/pkg/service/dispatch/protocol_handler.go and session_subscription_tracker.go: a new
-- subscription and the ones before it.
use mash.Base.{ℕ, ◌≡◌, ◌≢◌, none, some, List}
use mash.Base.GoMap.{GoMap, nat_key, lookup}
use mash.Model.Feature.{Feature}
use mash.Model.Device.{Device}
use mash.Dispatch.Tracking.{Tracker}

-- What a subscription of these attributes adds to a tracker.
abbrev pub Adds : Tracker → ℕ → ℕ → ℕ → List ℕ → Tracker → Type 0
Adds t id e f ids t' =
    (lookup id t.inbound ≡ none)
    × (lookup id t'.inbound
        ≡ some (record { id = id; endpoint_id = e; feature_id = f; attributes = ids }))
    × ((j : ℕ) → id ≢ j → lookup j t'.inbound ≡ lookup j t.inbound)
