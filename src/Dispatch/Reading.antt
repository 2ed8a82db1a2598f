-- ===== src/Dispatch/Reading.antt =====
-- mash-go/pkg/service/dispatch/protocol_handler.go: handleRead.
use mash.Base.{ℕ, Option, none, some, List, [], ◌∷◌}
use mash.Base.GoMap.{GoMap, nat_key, string_key, insert}
use mash.Model.Values.{Any}
use mash.Model.Feature.{Feature, Caller}
use mash.Model.Reading.{read_attribute_with_context, read_all_attributes_with_context}
use mash.Model.Device.{get_endpoint, get_feature_by_id}
use mash.Wire.{success, invalid_attribute, Request, values, extract_read_attribute_ids}
use mash.Dispatch.{Handler, Handled, answer, refuse, caller_of, addressed}

-- The reads of a list of ids: `none` at the first that is not found.
abbrev pub prepend_read : ℕ → Option Any → Option (GoMap ℕ Any) → Option (GoMap ℕ Any)
prepend_read id none rest = none
prepend_read id (some v) none = none
prepend_read id (some v) (some m) = some (insert id v m)

unfoldable pub read_ids : Feature → Caller → List ℕ → Option (GoMap ℕ Any)
read_ids f c [] = some []
read_ids f c (id ∷ ids) = prepend_read id (read_attribute_with_context f c id) (read_ids f c ids)

abbrev pub read_result : Handler → Request → Option (GoMap ℕ Any) → Handled
read_result h req none = refuse h req invalid_attribute
read_result h req (some m) = answer h req success (values m)

abbrev pub read_feature : Handler → Request → List ℕ → Feature → Handled
read_feature h req [] f =
    answer h req success (values (read_all_attributes_with_context f (caller_of h)))
read_feature h req (id ∷ ids) f = read_result h req (read_ids f (caller_of h) (id ∷ ids))

unfoldable pub handle_read : Handler → Request → Handled
unfolding caller_of get_endpoint get_feature_by_id read_ids
handle_read h req =
    addressed h req (λ f. read_feature h req (extract_read_attribute_ids req.payload) f)
