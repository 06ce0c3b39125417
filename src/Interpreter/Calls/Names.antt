-- ===== src/Interpreter/Calls/Names.antt =====
-- src/Interpreter.cpp: by which names a function is found.
use partio.Prelude.{
  ℕ, ◌≡◌, ◌≢◌, refl, ap, ◌∙◌, true, false, List, [], ◌∷◌, none, some, set, get_elem?,
  get_elem?-set_self, get_elem?-lt, arith,
}
use partio.Prelude.Text.{Bytes}
use partio.Prelude.Maps.{map_find, map_set, map_find-map_set_ne}
use partio.Interpreter.{Interpreter, Scope, has_colon, is_empty, qualified}
use partio.Interpreter.Arguments.{Parameter, Argument}
use partio.Interpreter.Calls.{
  functions_of, Function, Project, Machine, Called, unknown_function, functions_in, function_def,
  find_function, before_last_colon, namespace_of, function_call,
}

has_colon-qualified : (ns name : Bytes) → has_colon (qualified ns name) ≡ true
has_colon-qualified [] name = refl
has_colon-qualified (c ∷ cs) name = ground (arith, has_colon-qualified cs name)

before_last_colon-qualified :
    (ns name : Bytes) → has_colon name ≡ false → before_last_colon (qualified ns name) ≡ ns
before_last_colon-qualified [] name h = rw h refl
before_last_colon-qualified (c ∷ cs) name h =
    rw (has_colon-qualified cs name, before_last_colon-qualified cs name h) refl

pub namespace_of-qualified :
    (ns name : Bytes) → has_colon name ≡ false → namespace_of (qualified ns name) ≡ ns
unfolding namespace_of
namespace_of-qualified ns name h =
    rw (has_colon-qualified ns name) (before_last_colon-qualified ns name h)

find_function-missing :
    (m : Machine) (name : Bytes)
    → map_find name (functions_in m m.project_ctx) ≡ none
    → find_function m (name ∷ []) ≡ none
unfolding find_function
find_function-missing m name h = rw (h, h) refl

module _ (ns name : Bytes) (params : List Parameter) (ctx : ℕ) (m : Machine) (pr : Project)
    (state : Interpreter) (here : get_elem? m.projects m.project_ctx ≡ some pr)
    (inside : m.state.current_namespace ≡ ns) (named : is_empty ns ≡ false) where
  -- The function, and the machine after its definition, in any later state of the interpreter.
  abbrev pub defined : Function
  defined = record { name = qualified ns name; params = params; context = ctx }

  abbrev pub later : Machine
  later = record (function_def name params ctx m) { state = state }

  later_is : later ≡ record m {
    state = state;
    projects =
        set m.projects m.project_ctx
          (record pr { functions = map_set (qualified ns name) defined pr.functions });
  }
  unfolding function_def
  later_is = rw (here, inside, named) refl

  functions-later :
      functions_in later later.project_ctx ≡ map_set (qualified ns name) defined pr.functions
  functions-later =
      ap (λ (x : Machine). functions_in x x.project_ctx) later_is
      ∙ ap functions_of (
          get_elem?-set_self m.projects m.project_ctx
            (record pr { functions = map_set (qualified ns name) defined pr.functions })
            (get_elem?-lt m.projects m.project_ctx here))

  -- By its short name it is not found, inside of its namespace neither, if no other function and no
  -- built-in one has this name.
  pub function_call-short_name :
      (run_body : ℕ → Machine → Called) (builtins : List (Bytes × (Scope → Machine → Called)))
      (given : List Argument)
      → has_colon name ≡ false
      → map_find name builtins ≡ none
      → map_find name pr.functions ≡ none
      → function_call run_body builtins (name ∷ []) given later ≡ unknown_function
  unfolding function_call
  function_call-short_name run_body builtins given plain no_builtin alone =
      let ne : qualified ns name ≢ name = λ e. colon_clash (has_colon-qualified ns name) plain e in
      let missing : map_find name (functions_in later later.project_ctx) ≡ none =
        rw functions-later
          (map_find-map_set_ne (qualified ns name) name defined pr.functions ne ∙ alone) in
      rw (function_call, no_builtin, find_function-missing later name missing) refl
    where
      colon_clash : {a b : Bytes} → has_colon a ≡ true → has_colon b ≡ false → a ≢ b
      colon_clash h k e = cc (rw e at h)
