-- ===== src/Interpreter/Calls.antt =====
-- src/Interpreter.cpp: `visitFunction_def` and `visitFunctionCall`. The statements in the body of a
-- function are a parameter, by the number of the tree that the function points to.
pub mod Context
pub mod Names
use partio.Prelude.{
  ℕ, Bool, List, [], ◌∷◌, ◌++◌, Option, none, some, if◌then◌else◌, get_elem?, set, Result, ok, err,
  ◌>>=◌,
}
use partio.Prelude.Text.{Bytes}
use partio.Prelude.Maps.{map_find, map_set}
use partio.Values.{Value}
use partio.Interpreter.{
  Scope, Interpreter, Thrown, has_colon, is_empty, qualified, resolve_variable,
}
use partio.Interpreter.Blocks.{pop_scope}
use partio.Interpreter.Arguments.{Parameter, Argument, collect_args, bind_params}

-- src/ProjectContext.hpp
pub record Function : Type 0 where
  pub name : Bytes
  pub params : List Parameter
  pub context : ℕ

pub record Project : Type 0 where
  pub functions : List (Bytes × Function)
  pub globals : List (Bytes × Value)

-- The interpreter with the projects that its pointers show; `project_ctx` is the current one, whose
-- globals stand here and not in `state`.
pub record Machine : Type 0 where
  pub state : Interpreter
  pub projects : List Project
  pub project_ctx : ℕ

abbrev pub functions_of : Option Project → List (Bytes × Function)
functions_of (some p) = p.functions
functions_of none = []

abbrev pub globals_of : Option Project → List (Bytes × Value)
globals_of (some p) = p.globals
globals_of none = []

abbrev pub functions_in : Machine → ℕ → List (Bytes × Function)
functions_in m p = functions_of (get_elem? m.projects p)

abbrev pub write_functions : Machine → List (Bytes × Function) → Option Project → Machine
write_functions m fs (some p) = record m {
  projects = set m.projects m.project_ctx (record p { functions = fs });
}
write_functions m fs none = m

-- The name under which a function is kept.
abbrev pub function_name : Bytes → Bytes → Bytes
function_name ns name = if is_empty ns then name else qualified ns name

-- `visitFunction_def`
unfoldable pub function_def : Bytes → List Parameter → ℕ → Machine → Machine
function_def identifier params ctx m =
    let name = function_name m.state.current_namespace identifier in
    let func : Function = record { name = name; params = params; context = ctx } in
    let p = get_elem? m.projects m.project_ctx in
    write_functions m (map_set name func (functions_of p)) p

-- names with `:` between them
abbrev pub join_names : List Bytes → Bytes
join_names [] = []
join_names (name ∷ []) = name
join_names (name ∷ more ∷ rest) = name ++ b':' ∷ join_names (more ∷ rest)

-- `resolveVariable` in the current project
abbrev pub resolve : Machine → Bytes → Result Thrown Value
resolve m name =
    resolve_variable name
      (record m.state { globals = globals_of (get_elem? m.projects m.project_ctx) })

abbrev pub in_project : ℕ → Option Function → Option (Function × ℕ)
in_project p (some f) = some (f, p)
in_project p none = none

-- What the first name of a path leads to: a project, or nothing; `catch (...)` tries the full name.
abbrev pub by_first : Machine → List Bytes → Bytes → Result Thrown Value → Option (Function × ℕ)
by_first m tail full (ok (Value.project_value p)) =
    in_project p (map_find (join_names tail) (functions_in m p))
by_first m tail full (ok _) = none
by_first m tail full (err e) =
    in_project m.project_ctx (map_find full (functions_in m m.project_ctx))

-- the search by a single name or by the first name
abbrev pub by_path : Machine → List Bytes → Option (Function × ℕ)
by_path m [] = none
by_path m (name ∷ []) = in_project m.project_ctx (map_find name (functions_in m m.project_ctx))
by_path m (first ∷ more ∷ rest) =
    by_first m (more ∷ rest) (join_names (first ∷ more ∷ rest)) (resolve m first)

-- behind it, the full name in the current project
abbrev pub or_flat : Machine → Bytes → Option (Function × ℕ) → Option (Function × ℕ)
or_flat m full (some f) = some f
or_flat m full none = in_project m.project_ctx (map_find full (functions_in m m.project_ctx))

unfoldable pub find_function : Machine → List Bytes → Option (Function × ℕ)
find_function m idents = or_flat m (join_names idents) (by_path m idents)

-- `name.substr(0, name.find_last_of(':'))`
abbrev pub before_last_colon : Bytes → Bytes
before_last_colon [] = []
before_last_colon (c ∷ cs) =
    let rest = before_last_colon cs in if has_colon cs then c ∷ rest else []

unfoldable pub namespace_of : Bytes → Bytes
namespace_of name = if has_colon name then before_last_colon name else []

abbrev pub enter_function : Function → ℕ → Scope → Machine → Machine
enter_function f p local m = record m {
  project_ctx = p;
  state = record m.state {
    current_namespace = namespace_of f.name;
    scopes = local ∷ m.state.scopes;
  };
}

abbrev pub leave_function : Machine → Machine → Machine
leave_function old m = record m {
  project_ctx = old.project_ctx;
  state = record m.state {
    current_namespace = old.state.current_namespace;
    scopes = pop_scope m.state.scopes;
  };
}

-- How a call or the body of a function ends: with a value (an empty one at the end of a body), or with
-- what is thrown.
pub data Called : Type 0 where
  returned : Value → Machine → Called
  thrown : Thrown → Called
  unknown_function : Called

abbrev pub leave_called : Machine → Called → Called
leave_called old (Called.returned v m) = returned v (leave_function old m)
leave_called old (Called.thrown e) = thrown e
leave_called old Called.unknown_function = unknown_function

module _ (run_body : ℕ → Machine → Called)
    (builtins : List (Bytes × (Scope → Machine → Called))) where
  abbrev pub call_with : Function → ℕ → Machine → Result Thrown Scope → Called
  call_with f p m (ok local) = leave_called m (run_body f.context (enter_function f p local m))
  call_with f p m (err e) = thrown e

  abbrev pub call_found : Scope → Machine → Option (Function × ℕ) → Called
  call_found args m (some (f, p)) = call_with f p m (bind_params 0 f.params args [])
  call_found args m none = unknown_function

  abbrev pub builtin_of : List Bytes → Option (Scope → Machine → Called)
  builtin_of (name ∷ []) = map_find name builtins
  builtin_of _ = none

  -- `visitFunctionCall`, with the values of its arguments
  unfoldable pub function_call : List Bytes → List Argument → Machine → Called
  function_call idents given m =
      let args = collect_args 0 given [] in
      elim (builtin_of idents) [
        | some run ↦ run args m
        | none ↦ call_found args m (find_function m idents)
      ]
