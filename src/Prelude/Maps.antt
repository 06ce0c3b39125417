-- ===== src/Prelude/Maps.antt =====
-- `std::map` and `std::unordered_map` with strings for keys, as association lists. Where the code
-- walks over a map the list has the order of the walk.
use mathlib.Core.Path.{◌≡◌}
use mathlib.Core.Logic.{◌≢◌, inl, inr}
use mathlib.Core.List.{List, [], ◌∷◌}
use mathlib.Core.Option.{Option, none, some}
use partio.Prelude.Tests.{if◌then◌else◌, Bool-cases}
use partio.Prelude.Text.{Bytes, equal, equal→eq, equal_refl, not_equal}

module _ {ℓ} {A : Type ℓ} where
  -- `find` and `contains`
  unfoldable pub map_find : Bytes → List (Bytes × A) → Option A
  map_find key [] = none
  map_find key ((k, v) ∷ rest) = if equal k key then some v else map_find key rest

  -- `m[key] = value`
  unfoldable pub map_set : Bytes → A → List (Bytes × A) → List (Bytes × A)
  map_set key value [] = (key, value) ∷ []
  map_set key value ((k, v) ∷ rest) =
      let later = map_set key value rest in
      if equal k key then (k, value) ∷ rest else (k, v) ∷ later

  pub map_find-map_set_self :
      (key : Bytes) (value : A) (m : List (Bytes × A))
      → map_find key (map_set key value m) ≡ some value
  unfolding map_find map_set
  map_find-map_set_self key value [] = rw (equal_refl key)
  map_find-map_set_self key value ((k, v) ∷ rest) = elim (Bool-cases (equal k key)) [
    | inl same ↦ rw same (rw same)
    | inr other ↦ rw other (rw other (map_find-map_set_self key value rest))
  ]

  pub map_find-map_set_ne :
      (key other : Bytes) (value : A) (m : List (Bytes × A))
      → key ≢ other
      → map_find other (map_set key value m) ≡ map_find other m
  unfolding map_find map_set
  map_find-map_set_ne key other value [] h = rw (not_equal key other h)
  map_find-map_set_ne key other value ((k, v) ∷ rest) h = elim (Bool-cases (equal k key)) [
    | inl same ↦ rw same (rw (equal→eq k key same, not_equal key other h))
    | inr differ ↦ rw differ (rw (map_find-map_set_ne key other value rest h))
  ]

  -- No key stands twice, as in a `std::map`.
  abbrev pub HasUniqueKeys : List (Bytes × A) → Type ℓ
  HasUniqueKeys [] = Unit
  HasUniqueKeys ((k, v) ∷ rest) = (map_find k rest ≡ none) × HasUniqueKeys rest
