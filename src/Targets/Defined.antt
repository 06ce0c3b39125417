-- ===== src/Targets/Defined.antt =====
-- `set_property` of src/ProjectContext.hpp does not touch the flag `is_defined`.
use partio.Prelude.{◌≡◌, refl, inl, inr, Bool, ok, err, Bool-cases, Option-cases, Result}
use partio.Prelude.Text.{Bytes, bytes, equal}
use partio.Prelude.Maps.{map_find, map_set}
use partio.Values.{Value, ValueError, Values}
use partio.Targets.{
  Target, ListField, PropertyError, get_list_map, write_list, target_type_map, set_type,
  handle_type_assignment, set_custom, set_other, set_property,
}

module _ (t t' : Target) where
  by_record :
      (new : Target)
      → ◌≡◌ {A = Result PropertyError Target} (ok new) (ok t')
      → new.is_defined ≡ t.is_defined
      → t'.is_defined ≡ t.is_defined
  by_record new h e = let same : new ≡ t' = cc h in rw (← same) e

  write_list-is_defined :
      (field : ListField) (vs : Values) → (write_list field vs t).is_defined ≡ t.is_defined
  write_list-is_defined ListField.sources_list vs = refl
  write_list-is_defined ListField.flags_list vs = refl
  write_list-is_defined ListField.depends_list vs = refl
  write_list-is_defined ListField.includes_list vs = refl

  handle_type_assignment-is_defined :
      (val : Value) → handle_type_assignment val t ≡ ok t' → t'.is_defined ≡ t.is_defined
  unfolding handle_type_assignment set_type
  handle_type_assignment-is_defined (Value.string_value s) h =
      elim (Option-cases (map_find s target_type_map)) [
        | inl unknown ↦ cc (rw unknown at h)
        | inr (type, known) ↦ by_record (record t { target_type = type }) (rw known at h) refl
      ]
  handle_type_assignment-is_defined (Value.type_value type) h =
      by_record (record t { target_type = type }) h refl
  handle_type_assignment-is_defined _ h = cc

  set_custom-is_defined :
      (key : Bytes) (r : Result ValueError Value)
      → set_custom key t r ≡ ok t'
      → t'.is_defined ≡ t.is_defined
  unfolding set_custom
  set_custom-is_defined key (ok v) h =
      by_record (record t { custom_vars = map_set key v t.custom_vars }) h refl
  set_custom-is_defined key (err e) h = cc

  pub set_property-is_defined :
      (key : Bytes) (val : Value) (is_append : Bool)
      → set_property key val is_append t ≡ ok t'
      → t'.is_defined ≡ t.is_defined
  unfolding set_property set_other
  set_property-is_defined key val is_append h = elim (Option-cases (map_find key get_list_map)) [
    | inr (field, is_list) ↦
        by_record _ (rw (set_property, is_list) at h) (write_list-is_defined field _)
    | inl no_list ↦ elim (Bool-cases (equal key (bytes "type"))) [
      | inl type ↦ handle_type_assignment-is_defined val (rw (set_property, no_list, type) at h)
      | inr custom ↦ elim (Bool-cases is_append) [
        | inl more ↦ set_custom-is_defined key _ (rw (set_property, no_list, custom, more) at h)
        | inr new ↦
            set_custom-is_defined key (ok val) (rw (set_property, no_list, custom, new) at h)
      ]
    ]
  ]
