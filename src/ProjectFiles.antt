-- ===== src/ProjectFiles.antt =====
-- src/Interpreter.cpp: the constructor and `visitProject_file`; src/main.cpp: what is built after it.
-- The statements and blocks of a build file are a function of the state.
pub mod Outcome
use partio.Prelude.{
  ℕ, ◌+◌, Bool, true, false, List, [], ◌∷◌, ◌++◌, map, Option, none, some, if◌then◌else◌, length,
  Result, ok, err,
}
use partio.Prelude.Text.{Bytes, bytes, less}
use partio.Prelude.Maps.{map_find}
use partio.Values.{Value, string_value, type_value, executable, library, sources, generator, dumb}
use partio.Targets.{Target, new_target}
use partio.Interpreter.{Interpreter, Thrown}
use partio.Interpreter.Blocks.{Body}
use partio.Cycles.{Fault, has_cycles}
use partio.Plans.{build_execution_plans, build}

-- The globals that the constructor writes, in the order of their names.
abbrev pub first_globals : Bytes → Bytes → List (Bytes × Value)
first_globals arch build_mode =
    (bytes "ARCH", string_value arch)
    ∷ (bytes "MODE", string_value build_mode)
    ∷ (bytes "dumb", type_value dumb)
    ∷ (bytes "executable", type_value executable)
    ∷ (bytes "generator", type_value generator)
    ∷ (bytes "library", type_value library)
    ∷ (bytes "sources", type_value sources)
    ∷ []

-- `Interpreter(config, project_data)`, with fresh data
abbrev pub new_interpreter : Bytes → Bytes → Interpreter
new_interpreter arch build_mode = record {
  scopes = [] ∷ [];
  current_namespace = [];
  current_target = none;
  store = [];
  targets = [];
  globals = first_globals arch build_mode;
  execution_plan = [];
}

-- `try_emplace` of a key that the map does not hold, in the order of the keys
unfoldable pub insert_key {ℓ} : {A : Type ℓ} → Bytes → A → List (Bytes × A) → List (Bytes × A)
insert_key key value [] = (key, value) ∷ []
insert_key key value ((k, v) ∷ rest) =
    let later = insert_key key value rest in
    if less key k then (key, value) ∷ (k, v) ∷ rest else (k, v) ∷ later

-- An empty target of this name, if there is none.
abbrev pub register_one : Bytes → Interpreter → Option ℕ → Interpreter
register_one name i (some t) = i
register_one name i none = record i {
  store = i.store ++ new_target name ∷ [];
  targets = insert_key name (length i.store) i.targets;
}

-- the loop over the target blocks of the file
unfoldable pub register : List Bytes → Interpreter → Interpreter
register [] i = i
register (name ∷ names) i = register names (register_one name i (map_find name i.targets))

-- How the visit of a build file ends. `aborted` is the throw on a cycle, and `unfinished` a search
-- for cycles that ran out of fuel.
pub data Visited : Type 0 where
  completed aborted unfinished : Interpreter → Visited
  failed : Thrown → Visited

abbrev pub pointers : List (Bytes × ℕ) → List ℕ
pointers [] = []
pointers ((name, t) ∷ rest) = t ∷ pointers rest

-- `buildExecutionPlans`, which clears the plan that is shared
abbrev pub plan_file : Interpreter → Interpreter
plan_file i = record i { execution_plan = build_execution_plans i.store i.targets }

abbrev pub finish_file : Interpreter → Result Fault Bool → Visited
finish_file i (ok true) = aborted i
finish_file i (ok false) = completed (plan_file i)
finish_file i (err Fault.out_of_fuel) = unfinished i

abbrev pub check_file : Result Thrown Interpreter → Visited
check_file (ok i) = finish_file i (has_cycles i.store (pointers i.targets))
check_file (err e) = failed e

-- `visitProject_file`, for the names of the target blocks in the file
unfoldable pub project_file : Body → List Bytes → Interpreter → Visited
project_file statements names i = check_file (statements (register names i))

-- The calls of `compile_target` that `main` makes after the visit, whether it threw or not, as far as
-- they return. The plan of an aborted visit is what was there before: nothing, or what the visit of an
-- imported file left in the shared data. A throw of a statement leaves a state that is not followed
-- here.
unfoldable pub built : Visited → Bytes → Option (List ℕ × Bool)
built (Visited.completed i) target = some (build i.execution_plan i.targets target)
built (Visited.aborted i) target = some (build i.execution_plan i.targets target)
built (Visited.unfinished i) target = none
built (Visited.failed e) target = none
