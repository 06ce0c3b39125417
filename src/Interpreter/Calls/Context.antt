-- ===== src/Interpreter/Calls/Context.antt =====
-- src/Interpreter.cpp: what a call leaves behind.
use partio.Prelude.{subst, ℕ, suc, ◌≡◌, refl, List, [], Option, none, some, Result, ok, err, length}
use partio.Prelude.Text.{Bytes}
use partio.Values.{Value}
use partio.Interpreter.{Scope, Thrown}
use partio.Interpreter.Arguments.{Argument, bind_params, collect_args}
use partio.Interpreter.Loops.{pop_scope-length}
use partio.Interpreter.Calls.{
  Function, Machine, Called, returned, enter_function, leave_function, leave_called, call_with,
  call_found, builtin_of, find_function, function_call,
}

-- Bodies leave as many scopes as they find.
abbrev pub KeepsScopes : (ℕ → Machine → Called) → Type 0
KeepsScopes run_body =
    (ctx : ℕ) (m : Machine) (v : Value) (m' : Machine)
    → run_body ctx m ≡ returned v m'
    → length m'.state.scopes ≡ length m.state.scopes

-- The project, the namespace and the number of scopes are as they were.
pub record SameContext (m m' : Machine) : Type 0 where
  pub same_project : m'.project_ctx ≡ m.project_ctx
  pub same_namespace : m'.state.current_namespace ≡ m.state.current_namespace
  pub same_depth : length m'.state.scopes ≡ length m.state.scopes

module _ (run_body : ℕ → Machine → Called)
    (builtins : List (Bytes × (Scope → Machine → Called))) where
  leave_called-returned :
      (old : Machine) (c : Called) {v : Value} {m' : Machine}
      → leave_called old c ≡ returned v m'
      → (m : Machine) × (c ≡ returned v m) × (leave_function old m ≡ m')
  leave_called-returned old (Called.returned w m) h = (m, cc, cc)
  leave_called-returned old (Called.thrown e) h = cc
  leave_called-returned old Called.unknown_function h = cc

  call_with-SameContext :
      (f : Function) (p : ℕ) (m : Machine) (local : Result Thrown Scope) {v : Value} {m' : Machine}
      → KeepsScopes run_body
      → call_with run_body builtins f p m local ≡ returned v m'
      → SameContext m m'
  call_with-SameContext f p m (err e) keeps h = cc
  call_with-SameContext f p m (ok local) {v} {m'} keeps h =
      let ran = leave_called-returned m (run_body f.context (enter_function f p local m)) h in
      let depth : length ran.0.state.scopes ≡ suc (length m.state.scopes) =
        keeps f.context (enter_function f p local m) v ran.0 ran.1 in
      subst (SameContext m) ran.2 (record {
        same_project = refl;
        same_namespace = refl;
        same_depth = pop_scope-length (length m.state.scopes) ran.0.state.scopes depth;
      })

  call_found-SameContext :
      (args : Scope) (m : Machine) (found : Option (Function × ℕ)) {v : Value} {m' : Machine}
      → KeepsScopes run_body
      → call_found run_body builtins args m found ≡ returned v m'
      → SameContext m m'
  call_found-SameContext args m none keeps h = cc
  call_found-SameContext args m (some (f, p)) keeps h =
      call_with-SameContext f p m (bind_params 0 f.params args []) keeps h

  -- A call of a function that is not built in, whichever project and namespace it belongs to, comes back
  -- with the project, the namespace and the number of scopes that were there before, if it comes back
  -- with a value and the bodies of functions leave as many scopes as they find.
  pub function_call-SameContext :
      (idents : List Bytes) (given : List Argument) (m : Machine) (v : Value) (m' : Machine)
      → KeepsScopes run_body
      → builtin_of run_body builtins idents ≡ none
      → function_call run_body builtins idents given m ≡ returned v m'
      → SameContext m m'
  unfolding function_call
  function_call-SameContext idents given m v m' keeps own h =
      call_found-SameContext (collect_args 0 given []) m (find_function m idents) keeps
        (rw (own, function_call) at h)
