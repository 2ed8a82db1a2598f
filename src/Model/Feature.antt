-- ===== src/Model/Feature.antt =====
-- mash-go/pkg/model/feature.go and command.go: a feature with its attributes, its commands and the
-- subscribers of its changes, who are numbered. A handler of a command is given by the application:
-- the feature only says whether there is one, and the call is the dispatch's.
use mash.Base.{
  ℕ, Bool, true, false, ◌&&◌, Option, none, some, List, [], ◌∷◌, ◌++◌, map, String, ◌==◌,
  if◌then◌else◌, is_some,
}
use mash.Base.Int.{pos}
use mash.Base.GoMap.{GoMap, nat_key, string_key, lookup, insert}
use mash.Model.Values.{Any, nil, integer, uint32_kind}
use mash.Model.Attribute.{
  type_uint32, type_array, Attribute, new_attribute, set_value_internal, clear_dirty,
  access_read_only,
}

abbrev pub attr_id_global_base : ℕ
attr_id_global_base = 0xFFF0

abbrev pub attr_id_feature_map : ℕ
attr_id_feature_map = 0xFFFC

abbrev pub attr_id_attribute_list : ℕ
attr_id_attribute_list = 0xFFFB

abbrev pub attr_id_command_list : ℕ
attr_id_command_list = 0xFFFA

-- The context of a read: the zone that asks, where it is known, and its type.
pub record Caller : Type 0 where
  pub zone_id : Option String
  pub zone_type : Option ℕ

abbrev pub ReadHook : Type 0
ReadHook = Caller → ℕ → Option Any

-- The parameters are names with whether they are required.
pub record Command : Type 0 where
  pub id : ℕ
  pub parameters : List (String × Bool)
  pub has_handler : Bool

pub record Feature : Type 0 where
  pub feature_type : ℕ
  pub feature_map : ℕ
  pub attributes : GoMap ℕ Attribute
  pub commands : GoMap ℕ Command
  pub subscribers : List ℕ
  pub read_hook : Option ReadHook

-- A call of OnAttributeChanged.
pub record Change : Type 0 where
  pub subscriber : ℕ
  pub feature_type : ℕ
  pub attr_id : ℕ
  pub value : Any

abbrev pub global_attribute : ℕ → Any → Attribute
global_attribute id v = new_attribute record {
  id = id;
  value_type = if id == attr_id_feature_map then type_uint32 else type_array;
  access = if id == attr_id_feature_map then access_read_only else 1;
  nullable = false;
  min_value = nil;
  max_value = nil;
  default_value = v;
}

unfoldable pub new_feature : ℕ → Feature
new_feature feature_type = record {
  feature_type = feature_type;
  feature_map = 0;
  attributes =
      (attr_id_feature_map, global_attribute attr_id_feature_map (integer uint32_kind (pos 0)))
      ∷ (attr_id_attribute_list, global_attribute attr_id_attribute_list nil)
      ∷ (attr_id_command_list, global_attribute attr_id_command_list nil)
      ∷ [];
  commands = [];
  subscribers = [];
  read_hook = none;
}

unfoldable pub put_attribute : Feature → ℕ → Attribute → Feature
put_attribute f id a = record f { attributes = insert id a f.attributes }

abbrev pub shown : Option Attribute → Feature → ℕ → Feature
shown none f bitmap = f
shown (some a) f bitmap =
    put_attribute f attr_id_feature_map (set_value_internal a (integer uint32_kind (pos bitmap))).0

unfoldable pub set_feature_map : Feature → ℕ → Feature
unfolding put_attribute
set_feature_map f bitmap =
    let g : Feature = record f { feature_map = bitmap } in
    shown (lookup attr_id_feature_map g.attributes) g bitmap

unfoldable pub add_attribute : Feature → Attribute → Feature
add_attribute f a = record f { attributes = insert a.metadata.id a f.attributes }

unfoldable pub get_attribute : Feature → ℕ → Option Attribute
get_attribute f id = lookup id f.attributes

unfoldable pub add_command : Feature → Command → Feature
add_command f c = record f { commands = insert c.id c f.commands }

unfoldable pub get_command : Feature → ℕ → Option Command
get_command f id = lookup id f.commands

-- validateParameters
unfoldable pub has_parameters : List (String × Bool) → GoMap String Any → Bool
has_parameters [] params = true
has_parameters ((name, required) ∷ ps) params =
    (if required then is_some (lookup name params) else true) && has_parameters ps params

unfoldable pub subscribe : Feature → ℕ → Feature
subscribe f s = record f { subscribers = f.subscribers ++ s ∷ [] }

unfoldable pub remove_first : ℕ → List ℕ → List ℕ
remove_first s [] = []
remove_first s (t ∷ ts) = if t == s then ts else t ∷ remove_first s ts

unfoldable pub unsubscribe : Feature → ℕ → Feature
unfolding remove_first
unsubscribe f s = record f { subscribers = remove_first s f.subscribers }

unfoldable pub dirty_values : GoMap ℕ Attribute → GoMap ℕ Any
dirty_values [] = []
dirty_values ((id, a) ∷ rest) =
    if a.dirty then (id, a.value) ∷ dirty_values rest else dirty_values rest

unfoldable pub get_dirty_attributes : Feature → GoMap ℕ Any
unfolding dirty_values
get_dirty_attributes f = dirty_values f.attributes

unfoldable pub clear_dirty_attributes : Feature → Feature
unfolding clear_dirty
clear_dirty_attributes f = record f { attributes = map (λ e. (e.0, clear_dirty e.1)) f.attributes }
