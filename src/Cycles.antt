-- ===== src/Cycles.antt =====
-- src/Interpreter.cpp: `hasCycles`, the search for circular dependencies among targets. A target is
-- the number of the object that its pointer shows; `path` only serves the message and is left out.
pub mod Graph
pub mod Marks
pub mod Search
pub mod Correct
use partio.Prelude.{
  ℕ, zero, suc, Bool, true, false, List, [], ◌∷◌, Option, none, some, ◌==◌, if◌then◌else◌, length,
  get_elem?, map, Result, ok, err, ◌>>=◌,
}
use partio.Prelude.Text.{Bytes}
use partio.Values.{Value, Values, nil, cons}
use partio.Targets.{Target}

-- the targets in a list of values, in order; other values are passed over
abbrev pub targets_in : Values → List ℕ
targets_in nil = []
targets_in (cons (Value.target_value t) vs) = t ∷ targets_in vs
targets_in (cons v vs) = targets_in vs

abbrev pub depends_of : Option Target → List ℕ
depends_of (some t) = targets_in t.depends
depends_of none = []

-- the targets that the target `v` of the store depends on
abbrev pub dependencies : List Target → ℕ → List ℕ
dependencies store v = depends_of (get_elem? store v)

-- the states 0, 1 and 2
pub data Mark : Type 0 where
  unseen in_progress checked : Mark

-- `std::unordered_map<Target*, int>`: a pointer that was never written has the state 0.
abbrev pub Marks : Type 0
Marks = ℕ → Mark

abbrev pub mark : ℕ → Mark → Marks → Marks
mark v m state u = if u == v then m else state u

pub data Fault : Type 0 where
  out_of_fuel : Fault

abbrev pub Searched : Type 0
Searched = Result Fault (Bool × Marks)

-- the loop over `node->depends`; `self` is the recursive call
unfoldable pub scan : (ℕ → Marks → Searched) → List ℕ → Marks → Searched
scan self [] state = ok (false, state)
scan self (dep ∷ deps) state = elim (state dep) [
  | in_progress ↦ ok (true, state)
  | unseen ↦ self dep state >>= λ (found, state').
      let rest = scan self deps state' in if found then ok (true, state') else rest
  | checked ↦ scan self deps state
]

-- Fuel bounds the depth of the recursion.
unfoldable pub dfs : List Target → ℕ → ℕ → Marks → Searched
dfs store zero node state = err out_of_fuel
dfs store (suc f) node state =
    scan (dfs store f) (dependencies store node) (mark node in_progress state)
    >>= λ (found, state'). ok (found, if found then state' else mark node checked state')

-- the loop over the targets of the project
unfoldable pub search_all : (ℕ → Marks → Searched) → List ℕ → Marks → Result Fault Bool
search_all visit [] state = ok false
search_all visit (root ∷ roots) state = elim (state root) [
  | unseen ↦ visit root state >>= λ (found, state').
      let rest = search_all visit roots state' in if found then ok true else rest
  | in_progress ↦ search_all visit roots state
  | checked ↦ search_all visit roots state
]

-- `roots` are the targets of the project in the order of their names.
unfoldable pub has_cycles : List Target → List ℕ → Result Fault Bool
has_cycles store roots = search_all (dfs store (suc (length store))) roots (λ v. unseen)
