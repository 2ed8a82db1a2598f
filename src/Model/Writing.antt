-- ===== src/Model/Writing.antt =====
-- mash-go/pkg/model/feature.go: the writes of a feature.
use mash.Base.{ℕ, Option, none, some, List, [], map, leb, if◌then◌else◌}
use mash.Base.GoMap.{nat_key, string_key}
use mash.Model.Values.{Any}
use mash.Model.Attribute.{
  Attribute, ModelError, attribute_not_found, feature_read_only, set_value, set_value_internal,
}
use mash.Model.Feature.{attr_id_global_base, Feature, Change, put_attribute, get_attribute}

abbrev pub change_of : ℕ → ℕ → Any → ℕ → Change
change_of t id v subscriber = record {
  subscriber = subscriber;
  feature_type = t;
  attr_id = id;
  value = v;
}

unfoldable pub notify_attribute_changed : Feature → ℕ → Any → List Change
notify_attribute_changed f id v = map (change_of f.feature_type id v) f.subscribers

pub record Written : Type 0 where
  pub feature : Feature
  pub changes : List Change
  pub error : Option ModelError

abbrev pub written : Attribute × Option ModelError → Feature → ℕ → Any → Written
written (a, none) f id v = record {
  feature = put_attribute f id a;
  changes = notify_attribute_changed f id v;
  error = none;
}
written (a, some e) f id v = record { feature = f; changes = []; error = some e }

-- The set is SetValue or SetValueInternal.
abbrev pub set_found :
    (Attribute → Any → Attribute × Option ModelError)
    → Option Attribute
    → Feature
    → ℕ
    → Any
    → Written
set_found set none f id v = record { feature = f; changes = []; error = some attribute_not_found }
set_found set (some a) f id v = written (set a v) f id v

abbrev pub refused : Feature → ModelError → Written
refused f e = record { feature = f; changes = []; error = some e }

unfoldable pub write_attribute : Feature → ℕ → Any → Written
unfolding get_attribute put_attribute notify_attribute_changed set_value
write_attribute f id v =
    if leb attr_id_global_base id
    then refused f feature_read_only
    else set_found set_value (get_attribute f id) f id v

unfoldable pub set_attribute_internal : Feature → ℕ → Any → Written
unfolding get_attribute put_attribute notify_attribute_changed set_value_internal
set_attribute_internal f id v =
    if leb attr_id_global_base id
    then refused f feature_read_only
    else set_found set_value_internal (get_attribute f id) f id v
