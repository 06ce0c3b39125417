-- ===== src/Examples/Running.antt =====
-- Assignments, calls and blocks of a build file.
use partio.Prelude.{
  ◌≡◌, inl, refl, subst, ◌==◌, if◌then◌else◌, Result, true, false, List, [], ◌∷◌, none, ok, err,
}
use partio.Prelude.Text.{bytes, equal, unequal}
use partio.Prelude.Int.{pos}
use partio.Prelude.Maps.{map_find, map_set}
use partio.Values.{Value, int_value}
use partio.Targets.{new_target, set_property, get_list_map, new_list}
use partio.Interpreter.{
  set_local, update_var, set_var, assign_variable, Scope, Interpreter, described_twice, candidates,
  Thrown, find_var, first_of, assigned_name, assignment, assign, plus_assign, variable_decl,
  assign_property, get_var,
}
use partio.Interpreter.Variables.{get_var-assignment, get_var-assignment_other}
use partio.Interpreter.Arguments.{Parameter}
use partio.Values.{nil, cons, list_value}
use partio.Interpreter.Loops.{
  Flow, goes_on, returns, popped, for_loop, execute_body, for_stmt, IsLeft, for_stmt-returns,
  for_stmt-IsLeft,
}
use partio.Interpreter.Blocks.{
  Body, target_block, namespace_block, namespace_block-KeepsDescribed, KeepsDescribed, IsDescribed,
  target_block-KeepsDescribed, target_block-twice,
}
use partio.Interpreter.Described.{
  in_turn, in_turn-KeepsDescribed, variable_decl-KeepsDescribed, assignment-KeepsDescribed,
}

abbrev one : Value
one = int_value (pos 1)

abbrev two : Value
two = int_value (pos 2)

-- in the namespace `n`, with the variable `n:x`
abbrev start : Interpreter
start = record {
  scopes = ((bytes "n:x", one) ∷ []) ∷ [];
  current_namespace = bytes "n";
  current_target = none;
  store = new_target (bytes "app") ∷ [];
  targets = (bytes "app", 0) ∷ [];
  globals = [];
  execution_plan = [];
}

get_var-assignment_example :
    (i' : Interpreter) × (assignment (bytes "y") two assign start ≡ ok i')
    × (get_var (bytes "y") i' ≡ ok two)
get_var-assignment_example =
    get_var-assignment start (bytes "y") two ((bytes "n:x", one) ∷ []) [] refl refl (inl refl)

abbrev after : Interpreter
after = record start { scopes = ((bytes "n:x", one) ∷ (bytes "n:y", two) ∷ []) ∷ [] }

is_assigned : assignment (bytes "y") two assign start ≡ ok after
unfolding assignment assigned_name assign_variable set_var update_var set_local map_find map_set
    equal
is_assigned = refl

get_var-assignment_other_example : get_var (bytes "x") after ≡ get_var (bytes "x") start
get_var-assignment_other_example =
    get_var-assignment_other start after (bytes "y") (bytes "x") two refl
      (unfold assigned_name candidates equal in (unequal _ _ refl, (unequal _ _ refl, tt)))
      is_assigned

abbrev parameters : List Parameter
parameters =
    (record { parameter_type = bytes "int"; name = bytes "k" })
    ∷ (record { parameter_type = bytes "any"; name = bytes "v" })
    ∷ []

abbrev arguments : Scope
arguments = (bytes "0", one) ∷ (bytes "v", two) ∷ []

abbrev locals : Scope
locals = (bytes "k", one) ∷ (bytes "v", two) ∷ []

-- a block with no statements
abbrev nothing : Body
nothing = λ i. ok i

nothing-KeepsDescribed : KeepsDescribed nothing
nothing-KeepsDescribed i i' name h d = let e : i ≡ i' = cc in subst (λ x. IsDescribed x name) e d

-- `flags += 2;`
abbrev sets_flags : Body
sets_flags = assignment (bytes "flags") two plus_assign

-- `namespace m { async target lib { flags += 2; } }`, and a declaration behind it
abbrev rest_of_file : Body
rest_of_file =
    in_turn (namespace_block (target_block sets_flags (bytes "lib") true) (bytes "m"))
      (variable_decl (bytes "y") two)

abbrev two_targets : Interpreter
two_targets = record start {
  store = new_target (bytes "app") ∷ new_target (bytes "lib") ∷ [];
  targets = (bytes "app", 0) ∷ (bytes "lib", 1) ∷ [];
}

abbrev app_described : Interpreter
app_described = record two_targets {
  store = (record (new_target (bytes "app")) { is_defined = true }) ∷ new_target (bytes "lib") ∷ [];
}

abbrev all_described : Interpreter
all_described = record two_targets {
  scopes = ((bytes "n:x", one) ∷ (bytes "n:y", two) ∷ []) ∷ [];
  store =
      (record (new_target (bytes "app")) { is_defined = true })
      ∷ (record (new_target (bytes "lib")) {
        is_defined = true;
        async = true;
        flags = cons two nil;
      })
      ∷ [];
}

is_described : target_block nothing (bytes "app") false two_targets ≡ ok app_described
unfolding target_block map_find equal
is_described = refl

rest-run : rest_of_file app_described ≡ ok all_described
unfolding namespace_block variable_decl target_block assignment assign_variable assign_property
    assigned_name set_var update_var set_local map_find map_set equal set_property get_list_map
    new_list
rest-run = refl

target_block-twice_example :
    target_block sets_flags (bytes "app") true all_described ≡ err described_twice
target_block-twice_example =
    target_block-twice nothing rest_of_file sets_flags (bytes "app") false true two_targets
      app_described all_described nothing-KeepsDescribed
      (in_turn-KeepsDescribed
        (namespace_block (target_block sets_flags (bytes "lib") true) (bytes "m"))
        (variable_decl (bytes "y") two)
        (namespace_block-KeepsDescribed (target_block sets_flags (bytes "lib") true) (bytes "m") (
          target_block-KeepsDescribed sets_flags (bytes "lib") true
            (assignment-KeepsDescribed (bytes "flags") two plus_assign)))
        (variable_decl-KeepsDescribed (bytes "y") two))
      is_described rest-run

abbrev numbers : Value
numbers = list_value (cons one (cons two (cons one nil)))

-- `if (v == 2) { return v; }`
abbrev return_two : Result Thrown Value → Interpreter → Flow
return_two (ok (Value.int_value (pos n))) i = if n == 2 then returns two i else goes_on i
return_two _ i = goes_on i

abbrev finds_two : Interpreter → Flow
finds_two i = return_two (get_var (bytes "v") i) i

abbrev at_two : Interpreter
at_two = record start { scopes = ((bytes "v", two) ∷ []) ∷ start.scopes }

for_stmt-returns_example :
    for_stmt finds_two (bytes "v") [] numbers start ≡ returns two (popped at_two)
unfolding for_loop execute_body get_var find_var candidates first_of map_find equal
for_stmt-returns_example =
    for_stmt-returns finds_two (bytes "v") [] numbers ((int_value (pos 0), one) ∷ [])
      ((int_value (pos 2), one) ∷ []) (int_value (pos 1), two) two start start at_two refl refl refl

abbrev returns_one : Interpreter → Flow
returns_one i = returns one i

for_stmt-IsLeft_example : IsLeft 1 (for_stmt returns_one (bytes "k") (bytes "v") numbers start)
for_stmt-IsLeft_example =
    for_stmt-IsLeft returns_one (bytes "k") (bytes "v") numbers start (λ i. refl)
