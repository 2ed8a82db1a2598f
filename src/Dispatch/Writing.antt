-- ===== src/Dispatch/Writing.antt =====
-- mash-go/pkg/service/dispatch/protocol_handler.go: handleWrite.
use mash.Base.{ℕ, Bool, Option, none, some, List, [], ◌∷◌, ◌++◌, map, if◌then◌else◌}
use mash.Base.GoMap.{GoMap, nat_key, string_key, insert}
use mash.Model.Values.{Any}
use mash.Model.Attribute.{
  ModelError, attribute_not_found, feature_read_only, attribute_not_writable,
}
use mash.Model.Feature.{Feature, Change}
use mash.Model.Writing.{write_attribute}
use mash.Model.Reading.{read_attribute}
use mash.Model.Device.{get_endpoint, get_feature_by_id, put_feature}
use mash.Wire.{
  Status, success, invalid_attribute, invalid_parameter, read_only, constraint_error, Request,
  error_payload, values, extract_write_payload,
}
use mash.Dispatch.{changed, wrote, Handler, Effect, Handled, respond, refuse, addressed}

-- The variables of the loop of handleWrite.
pub record Writing : Type 0 where
  pub feature : Feature
  pub changes : List Change
  pub result : GoMap ℕ Any
  pub first_error : Option ModelError

unfoldable pub error_status : ModelError → Status
error_status attribute_not_found = invalid_attribute
error_status feature_read_only = read_only
error_status attribute_not_writable = read_only
error_status _ = constraint_error

abbrev pub first : Option ModelError → ModelError → Option ModelError
first none e = some e
first (some d) e = some d

abbrev pub add_read : ℕ → Option Any → GoMap ℕ Any → GoMap ℕ Any
add_read id none m = m
add_read id (some v) m = insert id v m

abbrev pub after_write : Writing → ℕ → Option ModelError → Feature → List Change → Writing
after_write l id none f cs = record {
  feature = f;
  changes = l.changes ++ cs;
  result = add_read id (read_attribute f id) l.result;
  first_error = l.first_error;
}
after_write l id (some e) f cs = record l { first_error = first l.first_error e }

unfoldable pub write_one : Writing → ℕ → Any → Writing
write_one l id v =
    let w = write_attribute l.feature id v in after_write l id w.error w.feature w.changes

unfoldable pub write_each : Writing → GoMap ℕ Any → Writing
unfolding write_one
write_each l [] = l
write_each l ((id, v) ∷ rest) = write_each (write_one l id v) rest

abbrev pub writing : Feature → Writing
writing f = record { feature = f; changes = []; result = []; first_error = none }

abbrev pub callback : Bool → ℕ → ℕ → GoMap ℕ Any → List Effect
callback on e f [] = []
callback on e f (r ∷ rs) = if on then wrote e f (r ∷ rs) ∷ [] else []

-- The end of handleWrite: the first error, or the callback and the values that were read back.
abbrev pub write_result : Handler → Request → Writing → Option ModelError → Handled
write_result h req l none = record {
  handler = h;
  response = respond req success (values l.result);
  effects = map changed l.changes ++ callback h.on_write req.endpoint_id req.feature_id l.result;
}
write_result h req l (some e) = record {
  handler = h;
  response = respond req (error_status e) error_payload;
  effects = map changed l.changes;
}

unfoldable pub finish_write : Handler → Request → Writing → Handled
unfolding error_status put_feature
finish_write h req l =
    write_result
      (record h { device = put_feature h.device req.endpoint_id req.feature_id l.feature }) req l
      l.first_error

abbrev pub write_feature : Handler → Request → Option (GoMap ℕ Any) → Feature → Handled
write_feature h req none f = refuse h req invalid_parameter
write_feature h req (some attrs) f = finish_write h req (write_each (writing f) attrs)

unfoldable pub handle_write : Handler → Request → Handled
unfolding get_endpoint get_feature_by_id write_each finish_write
handle_write h req =
    addressed h req (λ f. write_feature h req (extract_write_payload req.payload) f)
