-- ===== src/Targets.antt =====
-- src/ProjectContext.hpp: the targets of a build file and their properties. The proxy that
-- `target[key]` gives calls `set_property` and `get_property`.
pub mod Defined
pub mod Properties
use partio.Prelude.{
  ℕ, Bool, true, false, List, [], ◌∷◌, Option, none, some, if◌then◌else◌, Result, ok, err,
}
use partio.Prelude.Text.{Bytes, bytes, equal}
use partio.Prelude.Maps.{map_find, map_set}
use partio.Values.{
  TargetType, executable, library, sources, generator, dumb, Value, monostate, string_value,
  list_value, type_value, Values, nil, cons, ValueError, concat, add_assign,
}

pub record Target : Type 0 where
  pub name : Bytes
  pub target_type : TargetType
  pub sources : Values
  pub flags : Values
  pub depends : Values
  pub includes : Values
  pub output : Bytes
  pub input : Bytes
  pub custom_vars : List (Bytes × Value)
  pub is_defined : Bool
  pub async : Bool

-- the constructor
abbrev pub new_target : Bytes → Target
new_target name = record {
  name = name;
  target_type = dumb;
  sources = nil;
  flags = nil;
  depends = nil;
  includes = nil;
  output = [];
  input = [];
  custom_vars = [];
  is_defined = false;
  async = false;
}

pub data PropertyError : Type 0 where
  unknown_target_type type_not_string property_not_found : PropertyError
  value_error : ValueError → PropertyError

-- a pointer to one of the lists
pub data ListField : Type 0 where
  sources_list flags_list depends_list includes_list : ListField

unfoldable pub get_list_map : List (Bytes × ListField)
get_list_map =
    (bytes "sources", sources_list)
    ∷ (bytes "flags", flags_list)
    ∷ (bytes "depends", depends_list)
    ∷ (bytes "includes", includes_list)
    ∷ []

abbrev pub read_list : ListField → Target → Values
read_list ListField.sources_list t = t.sources
read_list ListField.flags_list t = t.flags
read_list ListField.depends_list t = t.depends
read_list ListField.includes_list t = t.includes

abbrev pub write_list : ListField → Values → Target → Target
write_list ListField.sources_list vs t = record t { sources = vs }
write_list ListField.flags_list vs t = record t { flags = vs }
write_list ListField.depends_list vs t = record t { depends = vs }
write_list ListField.includes_list vs t = record t { includes = vs }

-- A single value is pushed to the list, at `=` as well as at `+=`.
unfoldable pub new_list : Values → Value → Bool → Values
new_list old (Value.list_value src) true = concat old src
new_list old (Value.list_value src) false = src
new_list old val is_append = concat old (cons val nil)

unfoldable pub target_type_map : List (Bytes × TargetType)
target_type_map =
    (bytes "executable", executable)
    ∷ (bytes "library", library)
    ∷ (bytes "sources", TargetType.sources)
    ∷ (bytes "generator", generator)
    ∷ (bytes "dumb", dumb)
    ∷ []

set_type : Target → Option TargetType → Result PropertyError Target
set_type t (some type) = ok (record t { target_type = type })
set_type t none = err unknown_target_type

unfoldable pub handle_type_assignment : Value → Target → Result PropertyError Target
unfolding set_type
handle_type_assignment (Value.string_value s) t = set_type t (map_find s target_type_map)
handle_type_assignment (Value.type_value type) t = ok (record t { target_type = type })
handle_type_assignment val t = err type_not_string

set_custom : Bytes → Target → Result ValueError Value → Result PropertyError Target
set_custom key t (ok v) = ok (record t { custom_vars = map_set key v t.custom_vars })
set_custom key t (err e) = err (value_error e)

-- `custom_vars[key]`, which is made empty where it is missing
custom_value : Option Value → Value
custom_value (some v) = v
custom_value none = monostate

-- the keys that are no lists
unfoldable pub set_other : Bytes → Value → Bool → Target → Result PropertyError Target
unfolding set_custom custom_value
set_other key val is_append t =
    if equal key (bytes "type")
    then handle_type_assignment val t
    else if is_append
    then set_custom key t (add_assign (custom_value (map_find key t.custom_vars)) val)
    else set_custom key t (ok val)

-- What throws leaves the target as it was.
unfoldable pub set_property : Bytes → Value → Bool → Target → Result PropertyError Target
set_property key val is_append t = elim (map_find key get_list_map) [
  | some field ↦ ok (write_list field (new_list (read_list field t) val is_append) t)
  | none ↦ set_other key val is_append t
]

get_custom : Option Value → Result PropertyError Value
get_custom (some v) = ok v
get_custom none = err property_not_found

unfoldable pub get_property : Bytes → Target → Result PropertyError Value
unfolding get_custom
get_property key t =
    if equal key (bytes "sources")
    then ok (list_value t.sources)
    else if equal key (bytes "flags")
    then ok (list_value t.flags)
    else if equal key (bytes "depends")
    then ok (list_value t.depends)
    else if equal key (bytes "includes")
    then ok (list_value t.includes)
    else if equal key (bytes "output")
    then ok (string_value t.output)
    else if equal key (bytes "input")
    then ok (string_value t.input)
    else if equal key (bytes "type")
    then ok (type_value t.target_type)
    else get_custom (map_find key t.custom_vars)
