-- ===== src/Examples/Building.antt =====
-- Values, targets and their graph.
use mathlib.Core.List.{Memᴰ}
use partio.Prelude.{
  ℕ, suc, zero, ◌<◌, ◌≡◌, ◌⊎◌, inl, refl, true, false, List, [], ◌∷◌, arith, length, ok,
}
use partio.Prelude.Text.{Bytes, bytes, equal, unequal}
use partio.Prelude.Int.{pos, negsuc}
use partio.Prelude.Maps.{map_set, map_find}
use partio.Values.{
  decimal, Value, nil, cons, string_value, int_value, list_value, target_value, add_assign,
  additive, to_string, number_literal,
}
use partio.Values.Print.{number_literal-to_string}
use partio.Targets.{
  new_list, set_other, get_list_map, flags_list, Target, new_target, set_property, get_property,
}
use partio.Targets.Properties.{
  Takes, set_property-other, get_property-set_property, get_property-output_input,
}
use partio.Cycles.{scan, dfs, search_all, has_cycles}
use partio.Cycles.Graph.{Closed}
use partio.Cycles.Search.{IsCyclic}
use partio.Cycles.Correct.{NoCycleFrom, has_cycles_lem}
use partio.Plans.{build, build_execution_plans}
use partio.Plans.Direct.{build-build_execution_plans}

abbrev a_list : Value
a_list = list_value (cons (string_value (bytes "a")) nil)

abbrev b_list : Value
b_list = list_value (cons (int_value (negsuc 4)) nil)

abbrev both : Value
both = list_value (cons (string_value (bytes "a")) (cons (int_value (negsuc 4)) nil))

to_string_test : to_string both ≡ bytes "[a, -5]"
unfolding to_string decimal
to_string_test = refl

is_sum : additive a_list b_list ≡ ok both
unfolding additive
is_sum = refl

appends : add_assign a_list b_list ≡ ok both
unfolding add_assign
appends = refl

number_literal-to_string_example :
    number_literal (to_string (int_value (pos 2048))) ≡ ok (int_value (pos 2048))
number_literal-to_string_example = number_literal-to_string 2048 (omega arith)

-- Target 0 depends on target 1, and 1 on 0.
abbrev app : Target
app = record (new_target (bytes "app")) { depends = cons (target_value 1) nil }

abbrev lib : Target
lib = record (new_target (bytes "lib")) {
  depends = cons (string_value (bytes "m")) (cons (target_value 0) nil);
}

is_set :
    set_property (bytes "flags") a_list true app
    ≡ ok (record app { flags = cons (string_value (bytes "a")) nil })
unfolding set_property map_find get_list_map equal new_list
is_set = refl

set_property-other_example :
    get_property (bytes "depends") (record app { flags = cons (string_value (bytes "a")) nil })
    ≡ get_property (bytes "depends") app
set_property-other_example =
    set_property-other (bytes "flags") (bytes "depends") a_list true app _ is_set
      (unequal _ _ (unfold equal in refl))

get_property-set_property_example :
    (t' : Target) × (set_property (bytes "flags") b_list false app ≡ ok t')
    × (get_property (bytes "flags") t' ≡ ok b_list)
get_property-set_property_example =
    get_property-set_property (bytes "flags") b_list app (Takes.list_key flags_list)

abbrev with_output : Target
with_output = record app { custom_vars = (bytes "output", a_list) ∷ [] }

output_is_set : set_property (bytes "output") a_list false app ≡ ok with_output
unfolding set_property map_find map_set get_list_map equal set_other
output_is_set = refl

get_property-output_input_example :
    get_property (bytes "output") with_output ≡ get_property (bytes "output") app
get_property-output_input_example =
    get_property-output_input (bytes "output") a_list false app with_output (inl refl) output_is_set

abbrev store : List Target
store = app ∷ lib ∷ []

store-Closed : Closed store
store-Closed zero w (Memᴰ.head e) = omega arith
store-Closed zero w (Memᴰ.tail m) = elim m [ ]
store-Closed (suc zero) w (Memᴰ.head e) = omega arith
store-Closed (suc zero) w (Memᴰ.tail m) = elim m [ ]
store-Closed (suc (suc v)) w m = elim m [ ]

roots_are_there : (r : ℕ) → Memᴰ r (0 ∷ []) → r < length store
roots_are_there r (Memᴰ.head e) = omega arith
roots_are_there r (Memᴰ.tail m) = elim m [ ]

has_cycles_lem_example :
    ((has_cycles store (0 ∷ []) ≡ ok true) × IsCyclic store)
    ⊎ ((has_cycles store (0 ∷ []) ≡ ok false) × NoCycleFrom store (0 ∷ []))
has_cycles_lem_example = has_cycles_lem store (0 ∷ []) store-Closed roots_are_there

has_cycles_test : has_cycles store (0 ∷ []) ≡ ok true
unfolding has_cycles search_all dfs scan
has_cycles_test = refl

abbrev targets : List (Bytes × ℕ)
targets = (bytes "app", 0) ∷ (bytes "lib", 1) ∷ []

build-build_execution_plans_example :
    build (build_execution_plans store targets) targets (bytes "lib") ≡ (0 ∷ 1 ∷ [], true)
build-build_execution_plans_example =
    build-build_execution_plans store targets (bytes "lib") 1
      (unfold map_find equal in (refl, (refl, tt))) (unfold map_find equal in refl)
