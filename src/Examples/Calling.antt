-- ===== src/Examples/Calling.antt =====
-- Functions in a namespace, an `if` with two branches, and a map with a key given twice.
use partio.Prelude.{ℕ, ◌≡◌, refl, false, List, [], ◌∷◌, none, some, err}
use partio.Prelude.Text.{bytes, equal}
use partio.Prelude.Int.{pos}
use partio.Prelude.Maps.{map_find, map_set}
use partio.Values.{bool_value, Value, int_value, string_value, to_string, out_of_range}
use partio.Interpreter.{Interpreter, candidates, first_of, find_var, resolve_variable}
use partio.Interpreter.Arguments.{bind_params, collect_args}
use partio.Interpreter.Loops.{goes_on}
use partio.Interpreter.Calls.{
  Project, Machine, Called, returned, unknown_function, function_def, find_function, namespace_of,
  function_call,
}
use partio.Interpreter.Calls.Context.{KeepsScopes, SameContext, function_call-SameContext}
use partio.Interpreter.Calls.Names.{later, function_call-short_name}
use partio.Interpreter.Branches.{if_stmt, if_tree, run_all, chosen, if_stmt-chosen}
use partio.Interpreter.Expressions.{index_access, map_literal, last_given, index_access-map_literal}

abbrev one : Value
one = int_value (pos 1)

-- in the namespace `n`
abbrev state : Interpreter
state = record {
  scopes = [] ∷ [];
  current_namespace = bytes "n";
  current_target = none;
  store = [];
  targets = [];
  globals = [];
  execution_plan = [];
}

abbrev empty_project : Project
empty_project = record { functions = []; globals = [] }

abbrev machine : Machine
machine = record { state = state; projects = empty_project ∷ []; project_ctx = 0 }

-- bodies that return at once
abbrev body : ℕ → Machine → Called
body ctx m = returned one m

body-KeepsScopes : KeepsScopes body
body-KeepsScopes ctx m v m' h = let same : m ≡ m' = cc in rw (← same) refl

-- `f` of the namespace, called from outside
abbrev outside : Interpreter
outside = record state { current_namespace = [] }

abbrev with_f : Machine
with_f = later (bytes "n") (bytes "f") [] 7 machine empty_project outside refl refl refl

function_call-short_name_example :
    function_call body [] (bytes "f" ∷ []) [] with_f ≡ unknown_function
unfolding map_find
function_call-short_name_example =
    function_call-short_name (bytes "n") (bytes "f") [] 7 machine empty_project outside refl refl
      refl body [] [] refl refl refl

returns_one : function_call body [] (bytes "n" ∷ bytes "f" ∷ []) [] with_f ≡ returned one with_f
unfolding function_call find_function bind_params collect_args function_def map_set resolve_variable
    find_var first_of candidates map_find equal namespace_of
returns_one = refl

function_call-SameContext_example : SameContext with_f with_f
function_call-SameContext_example =
    function_call-SameContext body [] (bytes "n" ∷ bytes "f" ∷ []) [] with_f one with_f
      body-KeepsScopes refl returns_one

if_stmt-chosen_example :
    if_stmt (bool_value false) (if_tree (λ i. goes_on i) [] (some ((λ i. goes_on i) ∷ []))) state
    ≡ run_all (chosen false [] (some ((λ i. goes_on i) ∷ []))) state
if_stmt-chosen_example =
    if_stmt-chosen false (λ i. goes_on i) [] (some ((λ i. goes_on i) ∷ [])) state

abbrev pairs : List (Value × Value)
pairs = (string_value (bytes "1"), string_value (bytes "a")) ∷ (one, string_value (bytes "b")) ∷ []

index_access-map_literal_example :
    index_access (map_literal pairs) one ≡ last_given (to_string one) pairs (err out_of_range)
index_access-map_literal_example = index_access-map_literal pairs one
