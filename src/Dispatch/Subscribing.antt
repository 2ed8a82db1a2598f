-- ===== src/Dispatch/Subscribing.antt =====
-- mash-go/pkg/service/dispatch/protocol_handler.go: handleSubscribe and handleUnsubscribe.
use mash.Dispatch.Writing.{add_read}
use mash.Base.{ℕ, Option, none, some, List, [], ◌∷◌, ◌==◌, if◌then◌else◌}
use mash.Base.GoMap.{GoMap, nat_key, string_key}
use mash.Model.Values.{Any, dict, entry_list, find_key}
use mash.Model.Feature.{Feature, Caller}
use mash.Model.Reading.{read_attribute_with_context, read_all_attributes_with_context}
use mash.Model.Device.{get_endpoint, get_feature_by_id}
use mash.Wire.{
  success, invalid_parameter, Payload, value, unsubscribe_payload, Request, no_payload, subscribed,
  extract_subscribe_payload, to_uint32, SubscribePayload,
}
use mash.Dispatch.Tracking.{add_inbound, remove_inbound}
use mash.Dispatch.{Handler, Handled, answer, refuse, caller_of, addressed}

-- The id that an unsubscribe names, or 0.
abbrev pub or_zero : Option ℕ → ℕ
or_zero none = 0
or_zero (some n) = n

unfoldable pub unsubscribe_id : Payload → ℕ
unfolding entry_list find_key to_uint32
unsubscribe_id (unsubscribe_payload id) = id
unsubscribe_id (value (dict es)) = or_zero (to_uint32 (find_key 1 (entry_list es)))
unsubscribe_id _ = 0

unfoldable pub handle_unsubscribe : Handler → Request → Handled
unfolding remove_inbound unsubscribe_id
handle_unsubscribe h req =
    let id = unsubscribe_id req.payload in
    if id == 0
    then refuse h req invalid_parameter
    else let (t, existed) = remove_inbound h.subscriptions id in
      if existed
      then answer (record h { subscriptions = t }) req success no_payload
      else refuse h req invalid_parameter

-- The priming report skips what cannot be read.
unfoldable pub prime_ids : Feature → Caller → List ℕ → GoMap ℕ Any
prime_ids f c [] = []
prime_ids f c (id ∷ ids) = add_read id (read_attribute_with_context f c id) (prime_ids f c ids)

abbrev pub prime : Feature → Caller → List ℕ → GoMap ℕ Any
prime f c [] = read_all_attributes_with_context f c
prime f c (id ∷ ids) = prime_ids f c (id ∷ ids)

abbrev pub attributes_of : Option SubscribePayload → List ℕ
attributes_of none = []
attributes_of (some s) = s.attribute_ids

abbrev pub subscribe_feature : Handler → Request → List ℕ → Feature → Handled
subscribe_feature h req ids f =
    let (t, id) = add_inbound h.subscriptions req.endpoint_id req.feature_id ids in
    answer (record h { subscriptions = t }) req success (subscribed id (prime f (caller_of h) ids))

unfoldable pub handle_subscribe : Handler → Request → Handled
unfolding handle_unsubscribe get_endpoint get_feature_by_id add_inbound caller_of prime_ids
handle_subscribe h req =
    if req.feature_id == 0
    then handle_unsubscribe h req
    else addressed h req
        (λ f. subscribe_feature h req (attributes_of (extract_subscribe_payload req.payload)) f)
