-- ===== src/Dispatch.antt =====
-- mash-go/pkg/service/dispatch/protocol_handler.go: the requests of a peer on a device. Locks and
-- logging are left out: a request runs to its end before the next one. What the application does when
-- a command is invoked is an argument, and so is whether a notification can be sent.
pub mod Tracking
pub mod Reading
pub mod Writing
pub mod Subscribing
pub mod Requests
pub mod Places
pub mod Protection
pub mod Writes
pub mod Answers
pub mod RoundTrip
pub mod Sessions
pub mod Fresh
mod Tests
use mash.Base.{
  ℕ, Bool, true, false, Option, none, some, List, [], ◌∷◌, ◌++◌, map, String, String-discrete, ite,
  ◌==◌, if◌then◌else◌,
}
use mash.Base.Int.{pos}
use mash.Base.GoMap.{GoMap, nat_key, string_key, lookup, insert}
use mash.Model.Values.{
  Any, nil, integer, uint64_kind, dict, table, text, item_list, entry_list, row_list, find_key,
}
use mash.Model.Attribute.{
  ModelError, attribute_not_found, feature_read_only, attribute_not_writable,
}
use mash.Model.Feature.{Feature, Caller, Change, Command, get_command, has_parameters}
use mash.Model.Writing.{Written, write_attribute}
use mash.Model.Reading.{
  read_attribute, read_attribute_with_context, read_all_attributes_with_context,
}
use mash.Model.Device.{Device, Endpoint, get_endpoint, get_feature_by_id, put_feature}
use mash.Wire.{
  Status, success, invalid_endpoint, invalid_feature, invalid_attribute, invalid_command,
  invalid_parameter, read_only, unsupported, constraint_error, is_valid, op_read, op_write,
  op_subscribe, Payload, value, invoke_payload, unsubscribe_payload, Request, Response, Result,
  no_payload, error_payload, values, subscribed, returned, Notification, wrap,
  extract_read_attribute_ids, extract_write_payload, extract_subscribe_payload, to_uint32,
  SubscribePayload,
}
use mash.Dispatch.Tracking.{
  Tracker, Subscription, new_tracker, add_inbound, remove_inbound, get_inbound,
  get_matching_inbound, inbound_count,
}

-- The callbacks are set or not.
pub record Handler : Type 0 where
  pub device : Device
  pub peer_id : String
  pub peer_zone_type : ℕ
  pub subscriptions : Tracker
  pub send_notification : Bool
  pub on_write : Bool
  pub on_invoke : Bool

-- OnAttributeChanged, the write callback, the invoke callback and the sending of a notification.
pub data Effect : Type 0 where
  changed : Change → Effect
  wrote : ℕ → ℕ → GoMap ℕ Any → Effect
  invoked : ℕ → ℕ → ℕ → GoMap String Any → GoMap String Any → Effect
  notified : Notification → Effect

pub record Handled : Type 0 where
  pub handler : Handler
  pub response : Response
  pub effects : List Effect

unfoldable pub new_protocol_handler : Device → Bool → Handler
unfolding new_tracker
new_protocol_handler d send = record {
  device = d;
  peer_id = "";
  peer_zone_type = 0;
  subscriptions = new_tracker;
  send_notification = send;
  on_write = false;
  on_invoke = false;
}

abbrev pub respond : Request → Status → Result → Response
respond req s p = record { message_id = req.message_id; status = s; payload = p }

-- An answer that changes nothing.
abbrev pub answer : Handler → Request → Status → Result → Handled
answer h req s p = record { handler = h; response = respond req s p; effects = [] }

abbrev pub refuse : Handler → Request → Status → Handled
refuse h req s = answer h req s error_payload

-- The context of a read or a command.
unfoldable pub caller_of : Handler → Caller
caller_of h = record {
  zone_id = ite (String-discrete h.peer_id "") none (some h.peer_id);
  zone_type = if h.peer_zone_type == 0 then none else some h.peer_zone_type;
}

-- The endpoint and the feature of a request, which every operation looks up first.
abbrev pub with_feature : Handler → Request → Option Feature → (Feature → Handled) → Handled
with_feature h req none go = refuse h req invalid_feature
with_feature h req (some f) go = go f

abbrev pub with_endpoint : Handler → Request → Option Endpoint → (Feature → Handled) → Handled
with_endpoint h req none go = refuse h req invalid_endpoint
with_endpoint h req (some e) go = with_feature h req (get_feature_by_id e req.feature_id) go

abbrev pub addressed : Handler → Request → (Feature → Handled) → Handled
addressed h req go = with_endpoint h req (get_endpoint h.device req.endpoint_id) go
