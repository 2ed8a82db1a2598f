-- ===== src/Dispatch/Requests.antt =====
-- mash-go/pkg/service/dispatch/protocol_handler.go: the invocation of commands, the routing of a
-- request by its operation, and the notifications of a change.
use mash.Base.{ℕ, Bool, true, false, Option, none, some, List, [], ◌∷◌, String, ◌==◌, if◌then◌else◌}
use mash.Base.GoMap.{GoMap, nat_key, string_key, insert}
use mash.Model.Values.{Any, integer, uint64_kind, dict, table, text, entry_list, row_list, find_key}
use mash.Model.Feature.{Feature, Caller, Command, get_command, has_parameters}
use mash.Model.Device.{Device, get_endpoint, get_feature_by_id}
use mash.Wire.{
  Status, success, invalid_command, invalid_parameter, unsupported, constraint_error, is_valid,
  op_read, op_write, op_subscribe, Payload, value, invoke_payload, Request, error_payload, returned,
  wrap,
}
use mash.Dispatch.Tracking.{Subscription, get_matching_inbound}
use mash.Dispatch.{
  Handler, Handled, Effect, invoked, notified, respond, refuse, addressed, caller_of,
}
use mash.Dispatch.Subscribing.{handle_subscribe}
use mash.Dispatch.Writing.{handle_write}
use mash.Dispatch.Reading.{handle_read}

-- What a handler of the application returns as its error.
pub data InvokeError : Type 0 where
  command_not_found invalid_parameters command_not_allowed : InvokeError
  command_error : Status → InvokeError
  other_error : InvokeError

pub data CommandResult : Type 0 where
  done : GoMap String Any → CommandResult
  failed : InvokeError → CommandResult

-- The handlers of the commands, by endpoint, feature and command, each with its changes of the device.
abbrev pub Application : Type 0
Application = ℕ → ℕ → ℕ → Caller → GoMap String Any → Device → Device × CommandResult

-- convertMapAnyAnyToStringAny
unfoldable pub string_entries : List (Any × Any) → GoMap String Any
string_entries [] = []
string_entries ((text k, v) ∷ es) = insert k v (string_entries es)
string_entries ((_, v) ∷ es) = string_entries es

-- Parameters of any other type are taken for none.
abbrev params_of : Any → GoMap String Any
params_of (dict es) = string_entries (entry_list es)
params_of (table rs) = row_list rs
params_of _ = []

abbrev uint8_of : Any → ℕ
uint8_of (integer uint64_kind n) = wrap 256 n
uint8_of _ = 0

-- The command and its parameters, or `none` for a payload of another type.
unfoldable pub invoke_call : Payload → Option (ℕ × GoMap String Any)
unfolding string_entries entry_list row_list find_key
invoke_call (invoke_payload id params) = some (id, params_of params)
invoke_call (value (dict es)) =
    some (uint8_of (find_key 1 (entry_list es)), params_of (find_key 2 (entry_list es)))
invoke_call _ = none

unfoldable pub invoke_status : InvokeError → Status
invoke_status (command_error s) = s
invoke_status command_not_found = invalid_command
invoke_status invalid_parameters = invalid_parameter
invoke_status command_not_allowed = constraint_error
invoke_status other_error = invalid_command

-- Command.Invoke, after the look-up.
abbrev call_found :
    (GoMap String Any → Device → Device × CommandResult)
    → Option Command
    → GoMap String Any
    → Device
    → Device × CommandResult
call_found run none params d = (d, failed command_not_found)
call_found run (some c) params d =
    if has_parameters c.parameters params
    then if c.has_handler then run params d else (d, failed command_not_found)
    else (d, failed invalid_parameters)

unfoldable pub invoke_command :
    (GoMap String Any → Device → Device × CommandResult)
    → Feature
    → ℕ
    → GoMap String Any
    → Device
    → Device × CommandResult
unfolding get_command has_parameters
invoke_command run f id params d = call_found run (get_command f id) params d

abbrev pub invoke_result :
    Handler → Request → ℕ → GoMap String Any → Device × CommandResult → Handled
invoke_result h req id params (d, done result) = record {
  handler = record h { device = d };
  response = respond req success (returned result);
  effects =
      if h.on_invoke then invoked req.endpoint_id req.feature_id id params result ∷ [] else [];
}
invoke_result h req id params (d, failed e) = record {
  handler = record h { device = d };
  response = respond req (invoke_status e) error_payload;
  effects = [];
}

abbrev pub invoke_feature :
    Application → Handler → Request → Option (ℕ × GoMap String Any) → Feature → Handled
invoke_feature app h req none f = refuse h req invalid_parameter
invoke_feature app h req (some (id, params)) f =
    invoke_result h req id params
      (invoke_command (app req.endpoint_id req.feature_id id (caller_of h)) f id params h.device)

unfoldable pub handle_invoke : Application → Handler → Request → Handled
unfolding get_endpoint get_feature_by_id invoke_call invoke_command invoke_status caller_of
handle_invoke app h req =
    addressed h req (λ f. invoke_feature app h req (invoke_call req.payload) f)

unfoldable pub handle_request : Application → Handler → Request → Handled
unfolding is_valid handle_read handle_write handle_subscribe handle_invoke
handle_request app h req =
    if is_valid req.operation
    then if req.operation == op_read
      then handle_read h req
      else if req.operation == op_write
      then handle_write h req
      else if req.operation == op_subscribe
      then handle_subscribe h req
      else handle_invoke app h req
    else refuse h req unsupported

-- The notifications of a change in their order, and whether one could not be sent: the loop ends
-- there. `sends` says for which ids sending succeeds.
unfoldable pub notify_loop : (ℕ → Bool) → ℕ → ℕ → ℕ → Any → List Subscription → List Effect × Bool
notify_loop sends e f a v [] = ([], false)
notify_loop sends e f a v (s ∷ ss) =
    let n =
      notified (record {
        subscription_id = s.id;
        endpoint_id = e;
        feature_id = f;
        changes = (a, v) ∷ [];
      }) in
    let (later, error) = notify_loop sends e f a v ss in
    if sends s.id then (n ∷ later, error) else (n ∷ [], true)

unfoldable pub notify_attribute_change : (ℕ → Bool) → Handler → ℕ → ℕ → ℕ → Any → List Effect × Bool
unfolding get_matching_inbound notify_loop
notify_attribute_change sends h e f a v =
    if h.send_notification
    then notify_loop sends e f a v (get_matching_inbound h.subscriptions e f a)
    else ([], false)
