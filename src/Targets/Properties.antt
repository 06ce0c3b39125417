-- ===== src/Targets/Properties.antt =====
-- What is read from a target after a property is set.
use partio.Prelude.{
  ◌≡◌, ◌≢◌, refl, sym, ◌∙◌, ◌⊎◌, inl, inr, Bool, true, false, List, [], ◌∷◌, Option, some, Result,
  ok, err, Bool-cases, Option-cases, subst, All,
}
use partio.Prelude.Text.{Bytes, bytes, equal, equal→eq, not_equal}
use partio.Prelude.Maps.{map_find, map_set, map_find-map_set_self, map_find-map_set_ne}
use partio.Values.{TargetType, Value, list_value, type_value, Values, ValueError}
use partio.Targets.{
  Target, ListField, sources_list, flags_list, depends_list, includes_list, get_list_map, read_list,
  write_list, new_list, target_type_map, set_type, handle_type_assignment, set_custom, set_other,
  set_property, get_custom, get_property,
}

abbrev pub list_name : ListField → Bytes
list_name ListField.sources_list = bytes "sources"
list_name ListField.flags_list = bytes "flags"
list_name ListField.depends_list = bytes "depends"
list_name ListField.includes_list = bytes "includes"

get_list_map-name :
    (key : Bytes) (f : ListField) → map_find key get_list_map ≡ some f → key ≡ list_name f
unfolding map_find get_list_map
get_list_map-name key f h = elim (Bool-cases (equal (bytes "sources") key)) [
  | inl e ↦ named sources_list e (rw e at h)
  | inr n ↦ elim (Bool-cases (equal (bytes "flags") key)) [
    | inl e ↦ named flags_list e (rw (n, e) at h)
    | inr o ↦ elim (Bool-cases (equal (bytes "depends") key)) [
      | inl e ↦ named depends_list e (rw (n, o, e) at h)
      | inr p ↦ elim (Bool-cases (equal (bytes "includes") key)) [
        | inl e ↦ named includes_list e (rw (n, o, p, e) at h)
        | inr q ↦ cc (rw (n, o, p, q) at h)
      ]
    ]
  ]
]
  where
    named :
        (g : ListField)
        → equal (list_name g) key ≡ true
        → ◌≡◌ {A = Option ListField} (some g) (some f)
        → key ≡ list_name f
    named g e k = let same : g ≡ f = cc in rw (← same) (sym (equal→eq (list_name g) key e))

write_list-other :
    (f : ListField) (vs : Values) (t : Target) (key : Bytes)
    → list_name f ≢ key
    → get_property key (write_list f vs t) ≡ get_property key t
unfolding get_property
write_list-other ListField.sources_list vs t key h =
    rw (not_equal key (bytes "sources") (λ e. h (sym e)))
write_list-other ListField.flags_list vs t key h =
    rw (not_equal key (bytes "flags") (λ e. h (sym e)))
write_list-other ListField.depends_list vs t key h =
    rw (not_equal key (bytes "depends") (λ e. h (sym e)))
write_list-other ListField.includes_list vs t key h =
    rw (not_equal key (bytes "includes") (λ e. h (sym e)))

set_custom-other :
    (key other : Bytes) (t t' : Target) (r : Result ValueError Value)
    → set_custom key t r ≡ ok t'
    → key ≢ other
    → get_property other t' ≡ get_property other t
unfolding set_custom get_property
set_custom-other key other t t' (ok v) h n =
    let same : record t { custom_vars = map_set key v t.custom_vars } ≡ t' = cc in
    rw (← same, map_find-map_set_ne key other v t.custom_vars n)
set_custom-other key other t t' (err e) h n = cc

type-other :
    (other : Bytes) (t t' : Target) (val : Value)
    → handle_type_assignment val t ≡ ok t'
    → bytes "type" ≢ other
    → get_property other t' ≡ get_property other t
unfolding handle_type_assignment set_type get_property
type-other other t t' (Value.string_value s) h n =
    elim (Option-cases (map_find s target_type_map)) [
      | inl unknown ↦ cc (rw unknown at h)
      | inr (type, known) ↦
          let same : record t { target_type = type } ≡ t' = cc (rw known at h) in
          rw (← same, not_equal other (bytes "type") (λ e. n (sym e)))
    ]
type-other other t t' (Value.type_value type) h n =
    let same : record t { target_type = type } ≡ t' = cc in
    rw (← same, not_equal other (bytes "type") (λ e. n (sym e)))
type-other other t t' _ h n = cc

set_other-other :
    (key other : Bytes) (val : Value) (is_append : Bool) (t t' : Target)
    → set_other key val is_append t ≡ ok t'
    → key ≢ other
    → get_property other t' ≡ get_property other t
unfolding set_other
set_other-other key other val is_append t t' h n = elim (Bool-cases (equal key (bytes "type"))) [
  | inl type ↦
      type-other other t t' val (rw type at h) (λ e. n (equal→eq key (bytes "type") type ∙ e))
  | inr custom ↦ elim (Bool-cases is_append) [
    | inl more ↦ set_custom-other key other t t' _ (rw (custom, more) at h) n
    | inr new ↦ set_custom-other key other t t' (ok val) (rw (custom, new) at h) n
  ]
]

-- Setting a property, by `=` or by `+=`, changes what is read of no other property.
pub set_property-other :
    (key other : Bytes) (val : Value) (is_append : Bool) (t t' : Target)
    → set_property key val is_append t ≡ ok t'
    → key ≢ other
    → get_property other t' ≡ get_property other t
unfolding set_property map_find get_list_map equal
set_property-other key other val is_append t t' h n =
    elim (Option-cases (map_find key get_list_map)) [
      | inl no_list ↦ set_other-other key other val is_append t t' (rw no_list at h) n
      | inr (f, field) ↦
          let vs = new_list (read_list f t) val is_append in
          let same : write_list f vs t ≡ t' = cc (rw field at h) in
          rw (← same) (write_list-other f vs t other (λ e. n (get_list_map-name key f field ∙ e)))
    ]

-- the names of the fields of a target that `get_property` reads
abbrev pub field_names : List Bytes
field_names =
    bytes "sources"
    ∷ bytes "flags"
    ∷ bytes "depends"
    ∷ bytes "includes"
    ∷ bytes "output"
    ∷ bytes "input"
    ∷ bytes "type"
    ∷ []

-- A value that a property takes as it is: a list for a list, a type for the type, and any value for
-- a name that is no field.
pub data Takes : Bytes → Value → Type 0 where
  list_key : {vs : Values} (f : ListField) → Takes (list_name f) (list_value vs)
  type_key : {type : TargetType} → Takes (bytes "type") (type_value type)
  custom_key : {key : Bytes} {val : Value} → All (λ n. key ≢ n) field_names → Takes key val

custom-set_property :
    (key : Bytes) (val : Value) (t : Target)
    → All (λ n. key ≢ n) field_names
    → (t' : Target) × (set_property key val false t ≡ ok t') × (get_property key t' ≡ ok val)
unfolding set_property set_other set_custom map_find get_list_map get_property get_custom equal
    map_set
custom-set_property key val t h = (
  record t { custom_vars = map_set key val t.custom_vars },
  rw (
    not_equal (bytes "sources") key (λ e. h.0 (sym e)),
    not_equal (bytes "flags") key (λ e. h.1.0 (sym e)),
    not_equal (bytes "depends") key (λ e. h.1.1.0 (sym e)),
    not_equal (bytes "includes") key (λ e. h.1.1.1.0 (sym e)),
    not_equal key (bytes "type") h.1.1.1.1.1.1.0,
  ),
  rw (
    not_equal key (bytes "sources") h.0,
    not_equal key (bytes "flags") h.1.0,
    not_equal key (bytes "depends") h.1.1.0,
    not_equal key (bytes "includes") h.1.1.1.0,
    not_equal key (bytes "output") h.1.1.1.1.0,
    not_equal key (bytes "input") h.1.1.1.1.1.0,
    not_equal key (bytes "type") h.1.1.1.1.1.1.0,
    map_find-map_set_self key val t.custom_vars,
  ),
)

-- A value that is assigned to a property that takes it is read back.
pub get_property-set_property :
    (key : Bytes) (val : Value) (t : Target)
    → Takes key val
    → (t' : Target) × (set_property key val false t ≡ ok t') × (get_property key t' ≡ ok val)
unfolding set_property set_other map_find get_list_map get_property equal new_list
    handle_type_assignment
get_property-set_property key val t (Takes.list_key ListField.sources_list) = (_, refl, refl)
get_property-set_property key val t (Takes.list_key ListField.flags_list) = (_, refl, refl)
get_property-set_property key val t (Takes.list_key ListField.depends_list) = (_, refl, refl)
get_property-set_property key val t (Takes.list_key ListField.includes_list) = (_, refl, refl)
get_property-set_property key val t Takes.type_key = (_, refl, refl)
get_property-set_property key val t (Takes.custom_key h) = custom-set_property key val t h

set_other-custom :
    (key : Bytes) (val : Value) (is_append : Bool) (t t' : Target)
    → equal key (bytes "type") ≡ false
    → set_other key val is_append t ≡ ok t'
    → (vars : List (Bytes × Value)) × (record t { custom_vars = vars } ≡ t')
unfolding set_other set_custom
set_other-custom key val is_append t t' e h = elim (Bool-cases is_append) [
  | inl more ↦ only_custom _ (rw (e, more) at h)
  | inr new ↦ only_custom (ok val) (rw (e, new) at h)
]
  where
    only_custom :
        (r : Result ValueError Value)
        → set_custom key t r ≡ ok t'
        → (vars : List (Bytes × Value)) × (record t { custom_vars = vars } ≡ t')
    only_custom (ok v) k = (map_set key v t.custom_vars, cc)
    only_custom (err f) k = cc

-- What is set as `output` or `input` is never read: the reading goes to fields that nothing sets.
pub get_property-output_input :
    (key : Bytes) (val : Value) (is_append : Bool) (t t' : Target)
    → (key ≡ bytes "output") ⊎ (key ≡ bytes "input")
    → set_property key val is_append t ≡ ok t'
    → get_property key t' ≡ get_property key t
unfolding set_property get_property map_find get_list_map equal
get_property-output_input key val is_append t t' (inl e) h =
    subst (λ k. set_property k val is_append t ≡ ok t' → get_property k t' ≡ get_property k t)
      (sym e)
      (λ set.
        let (vars, same) = set_other-custom (bytes "output") val is_append t t' refl set in
        rw (← same))
      h
get_property-output_input key val is_append t t' (inr e) h =
    subst (λ k. set_property k val is_append t ≡ ok t' → get_property k t' ≡ get_property k t)
      (sym e)
      (λ set.
        let (vars, same) = set_other-custom (bytes "input") val is_append t t' refl set in
        rw (← same))
      h
