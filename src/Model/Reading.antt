-- ===== src/Model/Reading.antt =====
-- mash-go/pkg/model/feature.go: the reads of a feature.
use mash.Base.{ℕ, Option, none, some, List, [], ◌∷◌, map, leb, ◌==◌, if◌then◌else◌}
use mash.Base.GoMap.{GoMap, nat_key, string_key}
use mash.Model.Values.{Any, uint16s, bytes}
use mash.Model.Attribute.{Attribute, can_read}
use mash.Model.Feature.{
  attr_id_attribute_list, attr_id_command_list, Caller, ReadHook, Feature, get_attribute,
}

-- slices.Sort
unfoldable pub sorted_insert : ℕ → List ℕ → List ℕ
sorted_insert n [] = n ∷ []
sorted_insert n (m ∷ ms) = if leb n m then n ∷ m ∷ ms else m ∷ sorted_insert n ms

unfoldable pub sort : List ℕ → List ℕ
unfolding sorted_insert
sort [] = []
sort (n ∷ ns) = sorted_insert n (sort ns)

unfoldable pub readable_ids : GoMap ℕ Attribute → List ℕ
readable_ids [] = []
readable_ids ((id, a) ∷ rest) =
    if can_read a.metadata.access then id ∷ readable_ids rest else readable_ids rest

unfoldable pub attribute_list : Feature → List ℕ
unfolding sort readable_ids
attribute_list f = sort (readable_ids f.attributes)

unfoldable pub command_list : Feature → List ℕ
unfolding sort
command_list f = sort (map (λ c. c.0) f.commands)

abbrev pub hooked : Option ReadHook → Caller → ℕ → Option Any
hooked none caller id = none
hooked (some hook) caller id = hook caller id

abbrev pub or_else : Option Any → Any → Any
or_else (some v) w = v
or_else none w = w

-- What a read of an attribute that is there returns, with the hook of the feature.
abbrev pub value_for : Option ReadHook → Caller → ℕ → Attribute → Any
value_for hook caller id a = or_else (hooked hook caller id) a.value

abbrev pub readable : Option Attribute → Option Attribute
readable none = none
readable (some a) = if can_read a.metadata.access then some a else none

abbrev pub value_of : (Attribute → Any) → Option Attribute → Option Any
value_of show none = none
value_of show (some a) = some (show a)

-- ReadAttribute, whose only error is that the attribute is not found.
unfoldable pub read_attribute : Feature → ℕ → Option Any
unfolding attribute_list command_list get_attribute
read_attribute f id =
    if id == attr_id_attribute_list
    then some (uint16s (attribute_list f))
    else if id == attr_id_command_list
    then some (bytes (command_list f))
    else value_of (λ a. a.value) (readable (get_attribute f id))

unfoldable pub read_attribute_with_context : Feature → Caller → ℕ → Option Any
unfolding attribute_list command_list get_attribute
read_attribute_with_context f caller id =
    if id == attr_id_attribute_list
    then some (uint16s (attribute_list f))
    else if id == attr_id_command_list
    then some (bytes (command_list f))
    else value_of (value_for f.read_hook caller id) (readable (get_attribute f id))

-- The loop of ReadAllAttributesWithContext.
unfoldable pub read_each : Feature → Caller → GoMap ℕ Attribute → GoMap ℕ Any
unfolding attribute_list command_list
read_each f caller [] = []
read_each f caller ((id, a) ∷ rest) =
    if can_read a.metadata.access
    then (
      id,
      if id == attr_id_attribute_list
          then uint16s (attribute_list f)
          else if id == attr_id_command_list
          then bytes (command_list f)
          else value_for f.read_hook caller id a,
    )
      ∷ read_each f caller rest
    else read_each f caller rest

unfoldable pub read_all_attributes_with_context : Feature → Caller → GoMap ℕ Any
unfolding read_each
read_all_attributes_with_context f caller = read_each f caller f.attributes

-- ReadAllAttributes asks no hook.
unfoldable pub read_all_attributes : Feature → GoMap ℕ Any
unfolding read_each
read_all_attributes f =
    read_each (record f { read_hook = none }) (record { zone_id = none; zone_type = none })
      f.attributes
