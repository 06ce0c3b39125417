-- ===== src/Interpreter/Arguments.antt =====
-- src/Interpreter.cpp: how `visitFunctionCall` collects its arguments and binds the parameters of a
-- function to them.
use partio.Prelude.{
  ℕ, suc, ◌≡◌, ◌≢◌, Bool, true, false, ◌||◌, ◌&&◌, List, [], ◌∷◌, Option, none, some, if◌then◌else◌,
  Result, ok, err, ◌>>=◌, All,
}
use partio.Prelude.Text.{Bytes, bytes, equal}
use partio.Prelude.Int.{pos}
use partio.Prelude.Maps.{map_find, map_set}
use partio.Values.{Value, print_int}
use partio.Interpreter.{Scope, Thrown, missing_argument, wrong_type}

pub record Parameter : Type 0 where
  pub parameter_type : Bytes
  pub name : Bytes

-- an argument of a call, with its name if it has one
pub record Argument : Type 0 where
  pub identifier : Option Bytes
  pub value : Value

key_of : Option Bytes → ℕ → Bytes
key_of (some name) position = name
key_of none position = print_int (pos position)

next_position : Option Bytes → ℕ → ℕ
next_position (some name) position = position
next_position none position = suc position

-- `finalArgs`, with the counter of positional arguments
unfoldable pub collect_args : ℕ → List Argument → Scope → Scope
unfolding key_of next_position
collect_args position [] args = args
collect_args position (a ∷ rest) args =
    collect_args (next_position a.identifier position) rest
      (map_set (key_of a.identifier position) a.value args)

abbrev pub is_string : Value → Bool
is_string (Value.string_value s) = true
is_string _ = false

abbrev pub is_list : Value → Bool
is_list (Value.list_value vs) = true
is_list _ = false

abbrev pub is_int : Value → Bool
is_int (Value.int_value n) = true
is_int _ = false

abbrev pub is_bool : Value → Bool
is_bool (Value.bool_value b) = true
is_bool _ = false

-- `typeMatch`
unfoldable pub type_matches : Bytes → Value → Bool
type_matches expected v =
    (equal expected (bytes "string") && is_string v)
    || (equal expected (bytes "list") && is_list v)
    || (equal expected (bytes "int") && is_int v)
    || (equal expected (bytes "bool") && is_bool v)
    || equal expected (bytes "auto")
    || equal expected (bytes "any")

-- the argument of the parameter at an index: by its name, else by its position
unfoldable pub argument_of : ℕ → Parameter → Scope → Option Value
argument_of i p args = elim (map_find p.name args) [
  | some v ↦ some v
  | none ↦ map_find (print_int (pos i)) args
]

bind_one : Parameter → Option Value → Result Thrown Value
bind_one p (some v) = if type_matches p.parameter_type v then ok v else err wrong_type
bind_one p none = err missing_argument

-- the loop over the parameters, with the local scope so far
unfoldable pub bind_params : ℕ → List Parameter → Scope → Scope → Result Thrown Scope
unfolding bind_one
bind_params i [] args local = ok local
bind_params i (p ∷ ps) args local =
    bind_one p (argument_of i p args) >>= λ v. bind_params (suc i) ps args (map_set p.name v local)

-- Each parameter from the index on holds its argument, which has the type of the parameter.
abbrev pub Bound : ℕ → List Parameter → Scope → Scope → Type 0
Bound i [] args scope = Unit
Bound i (p ∷ ps) args scope =
    ((v : Value) × (argument_of i p args ≡ some v)
      × (type_matches p.parameter_type v ≡ true)
      × (map_find p.name scope ≡ some v))
    × Bound (suc i) ps args scope

abbrev pub HasUniqueNames : List Parameter → Type 0
HasUniqueNames [] = Unit
HasUniqueNames (p ∷ ps) = All (λ q. q.name ≢ p.name) ps × HasUniqueNames ps
