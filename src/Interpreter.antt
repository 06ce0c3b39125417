-- ===== src/Interpreter.antt =====
-- src/Interpreter.hpp, src/Interpreter.cpp: variables, assignments, targets and the binding of
-- arguments. The walk over the trees of ANTLR is outside: where the code visits an expression the
-- function takes its value, and where it visits statements it takes them as a function.
pub mod Variables
pub mod Blocks
pub mod Described
pub mod Arguments
pub mod Loops
pub mod Calls
pub mod Branches
pub mod Expressions
use partio.Prelude.{
  ℕ, zero, suc, ◌+◌, Bool, true, false, not, ◌&&◌, ◌||◌, List, [], ◌∷◌, ◌++◌, Option, none, some,
  ◌==◌, if◌then◌else◌, length, get_elem?, set, Result, ok, err, ◌>>=◌,
}
use partio.Prelude.Text.{Bytes, bytes}
use partio.Prelude.Maps.{map_find, map_set}
use partio.Values.{Value, target_value, ValueError, add_assign}
use partio.Targets.{Target, PropertyError, set_property}

abbrev pub Scope : Type 0
Scope = List (Bytes × Value)

-- The scopes from the innermost, `scopes.back()`, to the outermost. `store` holds the objects that
-- the pointers to targets show; `targets` and `execution_plan` are the maps of the project, which the
-- interpreters of imported files share.
pub record Interpreter : Type 0 where
  pub scopes : List Scope
  pub current_namespace : Bytes
  pub current_target : Option ℕ
  pub store : List Target
  pub targets : List (Bytes × ℕ)
  pub globals : List (Bytes × Value)
  pub execution_plan : List (Bytes × List ℕ)

pub data Thrown : Type 0 where
  undefined_variable unknown_identifier unknown_target described_twice : Thrown
  missing_argument wrong_type condition_not_bool path_too_complex target_not_found : Thrown
  value_thrown : ValueError → Thrown
  property_thrown : PropertyError → Thrown

-- `name.find(':') != npos`
abbrev pub has_colon : Bytes → Bool
has_colon [] = false
has_colon (c ∷ cs) = c == b':' || has_colon cs

abbrev pub is_empty : Bytes → Bool
is_empty [] = true
is_empty (c ∷ cs) = false

abbrev pub qualified : Bytes → Bytes → Bytes
qualified ns name = ns ++ b':' ∷ name

-- the names under which `getVar` and `resolveVariable` look, in order
unfoldable pub candidates : Bytes → Bytes → List Bytes
candidates ns name =
    if not (has_colon name) && not (is_empty ns) then qualified ns name ∷ name ∷ [] else name ∷ []

-- the inner loop: the first candidate that the map holds
unfoldable pub first_of {ℓ} : {A : Type ℓ} → List Bytes → List (Bytes × A) → Option A
first_of [] m = none
first_of (c ∷ cs) m = elim (map_find c m) [ some v ↦ some v | none ↦ first_of cs m ]

-- the loop over the scopes
unfoldable pub find_var : List Bytes → List Scope → Option Value
find_var names [] = none
find_var names (scope ∷ outer) = elim (first_of names scope) [
  | some v ↦ some v
  | none ↦ find_var names outer
]

found_or : {A : Type 0} → Thrown → Option A → Result Thrown A
found_or e (some v) = ok v
found_or e none = err e

unfoldable pub get_var : Bytes → Interpreter → Result Thrown Value
unfolding found_or
get_var name i =
    found_or undefined_variable (find_var (candidates i.current_namespace name) i.scopes)

-- `scopes.back()[name] = val`; there is always a scope
unfoldable pub set_local : Bytes → Value → List Scope → List Scope
set_local name val [] = []
set_local name val (scope ∷ outer) = map_set name val scope ∷ outer

cons_found : Scope → Option (List Scope) → Option (List Scope)
cons_found scope (some outer) = some (scope ∷ outer)
cons_found scope none = none

-- the loop of `setVar`: the scopes with the variable updated, where one of them holds it
unfoldable pub update_var : Bytes → Value → List Scope → Option (List Scope)
unfolding cons_found
update_var name val [] = none
update_var name val (scope ∷ outer) =
    let further = cons_found scope (update_var name val outer) in
    elim (map_find name scope) [ some old ↦ some (map_set name val scope ∷ outer) | none ↦ further ]

unfoldable pub set_var : Bytes → Value → Bool → List Scope → List Scope
set_var name val true scopes = set_local name val scopes
set_var name val false scopes = elim (update_var name val scopes) [
  | some ss ↦ ss
  | none ↦ set_local name val scopes
]

first_target : List Bytes → List (Bytes × ℕ) → Result Thrown Value
unfolding found_or
first_target names targets = elim (first_of names targets) [
  | some t ↦ ok (target_value t)
  | none ↦ err unknown_identifier
]

-- scopes, then globals, then targets
unfoldable pub resolve_variable : Bytes → Interpreter → Result Thrown Value
unfolding first_target
resolve_variable name i =
    let names = candidates i.current_namespace name in
    elim (find_var names i.scopes) [
      | some v ↦ ok v
      | none ↦ elim (first_of names i.globals) [
        | some v ↦ ok v
        | none ↦ first_target names i.targets
      ]
    ]

-- the reference that `getVar` returns, with `+= val` at it
unfoldable pub append_in : List Bytes → Value → Scope → Option (Result ValueError Scope)
append_in [] val scope = none
append_in (c ∷ cs) val scope = elim (map_find c scope) [
  | some old ↦ some (add_assign old val >>= λ new. ok (map_set c new scope))
  | none ↦ append_in cs val scope
]

cons_scope : Scope → Result Thrown (List Scope) → Result Thrown (List Scope)
cons_scope scope (ok outer) = ok (scope ∷ outer)
cons_scope scope (err e) = err e

put_scope : List Scope → Result ValueError Scope → Result Thrown (List Scope)
put_scope outer (ok scope) = ok (scope ∷ outer)
put_scope outer (err e) = err (value_thrown e)

unfoldable pub append_var : List Bytes → Value → List Scope → Result Thrown (List Scope)
unfolding cons_scope put_scope
append_var names val [] = err undefined_variable
append_var names val (scope ∷ outer) =
    let further = cons_scope scope (append_var names val outer) in
    elim (append_in names val scope) [ some r ↦ put_scope outer r | none ↦ further ]

-- `scopes.size() == 1`
abbrev pub at_top : List Scope → Bool
at_top scopes = length scopes == 1

-- the name that an assignment writes
unfoldable pub assigned_name : Bytes → Interpreter → Bytes
assigned_name name i =
    if at_top i.scopes && not (is_empty i.current_namespace) && not (has_colon name)
    then qualified i.current_namespace name
    else name

-- The object of a pointer is replaced by what `set_property` leaves.
put_target : Interpreter → ℕ → Result PropertyError Target → Result Thrown Interpreter
put_target i t (ok new) = ok (record i { store = set i.store t new })
put_target i t (err e) = err (property_thrown e)

set_in_target : Interpreter → ℕ → Bytes → Value → Bool → Option Target → Result Thrown Interpreter
set_in_target i t name val is_append (some old) =
    put_target i t (set_property name val is_append old)
set_in_target i t name val is_append none = err unknown_target

put_scopes : Interpreter → Result Thrown (List Scope) → Result Thrown Interpreter
put_scopes i (ok scopes) = ok (record i { scopes = scopes })
put_scopes i (err e) = err e

-- `ctx->op`
pub data AssignOp : Type 0 where
  assign plus_assign minus_assign : AssignOp

-- without a current target; no branch takes `-=`
unfoldable pub assign_variable : Bytes → Value → AssignOp → Interpreter → Result Thrown Interpreter
unfolding put_scopes
assign_variable name val AssignOp.assign i =
    ok (record i { scopes = set_var name val false i.scopes })
assign_variable name val AssignOp.plus_assign i =
    put_scopes i (append_var (candidates i.current_namespace name) val i.scopes)
assign_variable name val AssignOp.minus_assign i = ok i

-- with a current target; no branch takes `-=`
unfoldable pub assign_property :
    Bytes → Value → AssignOp → ℕ → Interpreter → Result Thrown Interpreter
unfolding set_in_target put_target
assign_property name val AssignOp.assign t i =
    set_in_target i t name val false (get_elem? i.store t)
assign_property name val AssignOp.plus_assign t i =
    set_in_target i t name val true (get_elem? i.store t)
assign_property name val AssignOp.minus_assign t i = ok i

-- `visitAssignment`, with the value of its expression
unfoldable pub assignment : Bytes → Value → AssignOp → Interpreter → Result Thrown Interpreter
assignment name val op i = elim i.current_target [
  | some t ↦ assign_property (assigned_name name i) val op t i
  | none ↦ assign_variable (assigned_name name i) val op i
]

-- `visitVariable_decl`, with the value of its expression or an empty one
unfoldable pub variable_decl : Bytes → Value → Interpreter → Result Thrown Interpreter
unfolding set_in_target put_target
variable_decl name val i =
    let written =
      if at_top i.scopes && not (is_empty i.current_namespace)
      then qualified i.current_namespace name
      else name in
    let i' = record i { scopes = set_local written val i.scopes } in
    elim i.current_target [
      | some t ↦ set_in_target i' t written val false (get_elem? i.store t)
      | none ↦ ok i'
    ]
