-- ===== src/Model/Device.antt =====
-- mash-go/pkg/model/device.go and endpoint.go: endpoints with their features. A feature belongs to one
-- endpoint, so that a change through a pointer is a change at its place in the tree.
use mash.Model.Reading.{read_attribute}
use mash.Model.Writing.{write_attribute}
use mash.Base.{
  List, map, length, Bool, is_some, [], ◌∷◌, ℕ, Option, none, some, is_some, if◌then◌else◌,
}
use mash.Base.GoMap.{GoMap, nat_key, lookup, insert}
use mash.Model.Values.{Any}
use mash.Model.Attribute.{endpoint_not_found, feature_not_found, ModelError, duplicate_endpoint}
use mash.Model.Feature.{Feature}

pub record Endpoint : Type 0 where
  pub id : ℕ
  pub endpoint_type : ℕ
  pub features : GoMap ℕ Feature

pub record Device : Type 0 where
  pub endpoints : GoMap ℕ Endpoint

-- A new device has the root endpoint, 0.
unfoldable pub new_device : ℕ → Device
new_device root_type = record {
  endpoints = (0, record { id = 0; endpoint_type = root_type; features = [] }) ∷ [];
}

unfoldable pub add_feature : Endpoint → Feature → Endpoint
add_feature e f = record e { features = insert f.feature_type f e.features }

unfoldable pub add_endpoint : Device → Endpoint → Device × Option ModelError
add_endpoint d e =
    if is_some (lookup e.id d.endpoints)
    then (d, some duplicate_endpoint)
    else (record d { endpoints = insert e.id e d.endpoints }, none)

unfoldable pub get_endpoint : Device → ℕ → Option Endpoint
get_endpoint d id = lookup id d.endpoints

unfoldable pub get_feature_by_id : Endpoint → ℕ → Option Feature
get_feature_by_id e id = lookup id e.features

abbrev pub from_endpoint : Option Endpoint → ℕ → Option Feature
from_endpoint none id = none
from_endpoint (some e) id = get_feature_by_id e id

unfoldable pub get_feature : Device → ℕ → ℕ → Option Feature
unfolding get_endpoint get_feature_by_id
get_feature d endpoint_id feature_id = from_endpoint (get_endpoint d endpoint_id) feature_id

abbrev put_in : Option Endpoint → Device → ℕ → ℕ → Feature → Device
put_in none d endpoint_id feature_id f = d
put_in (some e) d endpoint_id feature_id f = record d {
  endpoints =
      insert endpoint_id (record e { features = insert feature_id f e.features }) d.endpoints;
}

-- A change of the feature that a device holds there.
unfoldable pub put_feature : Device → ℕ → ℕ → Feature → Device
unfolding get_endpoint
put_feature d endpoint_id feature_id f =
    put_in (get_endpoint d endpoint_id) d endpoint_id feature_id f

unfoldable pub has_feature : Endpoint → ℕ → Bool
has_feature e id = is_some (lookup id e.features)

unfoldable pub feature_types : Endpoint → List ℕ
feature_types e = map (λ f. f.0) e.features

unfoldable pub endpoint_count : Device → ℕ
endpoint_count d = length d.endpoints

-- The error of GetFeature where there is no such feature.
abbrev missing : Option Endpoint → ModelError
missing none = endpoint_not_found
missing (some e) = feature_not_found

abbrev write_in : Option Feature → Device → ℕ → ℕ → ℕ → Any → Device × Option ModelError
write_in none d e f id v = (d, some (missing (get_endpoint d e)))
write_in (some feature) d e f id v =
    let w = write_attribute feature id v in (put_feature d e f w.feature, w.error)

unfoldable pub write_device_attribute : Device → ℕ → ℕ → ℕ → Any → Device × Option ModelError
unfolding get_endpoint get_feature put_feature
write_device_attribute d e f id v = write_in (get_feature d e f) d e f id v

abbrev read_in : Option Feature → ℕ → Option Any
read_in none id = none
read_in (some feature) id = read_attribute feature id

-- Device.ReadAttribute, with `none` for each of its errors.
unfoldable pub read_device_attribute : Device → ℕ → ℕ → ℕ → Option Any
unfolding get_feature
read_device_attribute d e f id = read_in (get_feature d e f) id
