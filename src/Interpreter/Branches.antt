-- ===== src/Interpreter/Branches.antt =====
-- src/Interpreter.cpp: `visitIf_stmt`, which walks over the children of its tree.
use partio.Prelude.{
  sym, ℕ, ◌+◌, ◌≡◌, refl, ap, ◌∙◌, Bool, true, false, not, ◌&&◌, ◌||◌, List, [], ◌∷◌, ◌++◌, map,
  Option, none, some, ◌==◌, if◌then◌else◌,
}
use partio.Prelude.Text.{Bytes, bytes, equal}
use partio.Values.{Value, bool_value}
use partio.Interpreter.{Interpreter, condition_not_bool}
use partio.Interpreter.Loops.{Flow, goes_on, fails, and_then}

-- A child is a word of the source or a tree that can be visited.
pub data Child : Type 0 where
  terminal : Bytes → Child
  node : (Interpreter → Flow) → Child

-- Is the block that begins at this level the one to carry out?
abbrev pub opens : Bool → ℕ → Bool
opens condition level = (level == 1 && condition) || (level == 2 && not condition)

-- the loop over the children, with `blockLevel` and `executeMode`
unfoldable pub if_children : Bool → ℕ → Bool → List Child → Interpreter → Flow
if_children condition level mode [] i = goes_on i
if_children condition level mode (Child.terminal text ∷ rest) i =
    let opened = if_children condition (level + 1) (opens condition (level + 1)) rest i in
    let closed = if_children condition level false rest i in
    let same = if_children condition level mode rest i in
    if equal text (bytes "{") then opened else if equal text (bytes "}") then closed else same
if_children condition level true (Child.node visit ∷ rest) i =
    and_then (λ i'. if_children condition level true rest i') (visit i)
if_children condition level false (Child.node visit ∷ rest) i =
    if_children condition level false rest i

-- `visitIf_stmt`, with the value of its expression
unfoldable pub if_stmt : Value → List Child → Interpreter → Flow
if_stmt (Value.bool_value condition) children i = if_children condition 0 false children i
if_stmt _ children i = fails condition_not_bool

-- The children that the grammar gives: `if (expr) { ... }`, with or without `else { ... }`.
abbrev pub block : List (Interpreter → Flow) → List Child → List Child
block statements rest = terminal (bytes "{") ∷ map node statements ++ terminal (bytes "}") ∷ rest

abbrev pub else_part : Option (List (Interpreter → Flow)) → List Child
else_part none = []
else_part (some statements) = terminal (bytes "else") ∷ block statements []

abbrev pub if_tree :
    (Interpreter → Flow)
    → List (Interpreter → Flow)
    → Option (List (Interpreter → Flow))
    → List Child
if_tree expr thens elses =
    terminal (bytes "if")
    ∷ terminal (bytes "(")
    ∷ node expr
    ∷ terminal (bytes ")")
    ∷ block thens (else_part elses)

-- statements one after another, until an exception leaves them
abbrev pub run_all : List (Interpreter → Flow) → Interpreter → Flow
run_all [] i = goes_on i
run_all (s ∷ ss) i = and_then (λ i'. run_all ss i') (s i)

abbrev pub chosen :
    Bool
    → List (Interpreter → Flow)
    → Option (List (Interpreter → Flow))
    → List (Interpreter → Flow)
chosen true thens elses = thens
chosen false thens none = []
chosen false thens (some elses) = elses

and_then-goes_on_self : (r : Flow) → and_then (λ i. goes_on i) r ≡ r
and_then-goes_on_self (Flow.goes_on i) = refl
and_then-goes_on_self (Flow.breaks i) = refl
and_then-goes_on_self (Flow.continues i) = refl
and_then-goes_on_self (Flow.returns v i) = refl
and_then-goes_on_self (Flow.fails e) = refl

and_then_assoc :
    (f g : Interpreter → Flow) (r : Flow)
    → and_then g (and_then f r) ≡ and_then (λ i. and_then g (f i)) r
and_then_assoc f g (Flow.goes_on i) = refl
and_then_assoc f g (Flow.breaks i) = refl
and_then_assoc f g (Flow.continues i) = refl
and_then_assoc f g (Flow.returns v i) = refl
and_then_assoc f g (Flow.fails e) = refl

module _ (condition : Bool) (level : ℕ) (rest : List Child) where
  -- A block that is carried out, and then the rest.
  if_children-run :
      (ss : List (Interpreter → Flow)) (i : Interpreter)
      → if_children condition level true (map node ss ++ terminal (bytes "}") ∷ rest) i
        ≡ and_then (λ i'. if_children condition level false rest i') (run_all ss i)
  unfolding if_children equal
  if_children-run [] i = refl
  if_children-run (s ∷ ss) i =
      ap (λ f. and_then f (s i)) (λ d. λ j. if_children-run ss j d)
      ∙ sym (
          and_then_assoc (λ i'. run_all ss i') (λ i'. if_children condition level false rest i')
            (s i))

  if_children-skip :
      (ss : List (Interpreter → Flow)) (i : Interpreter)
      → if_children condition level false (map node ss ++ terminal (bytes "}") ∷ rest) i
        ≡ if_children condition level false rest i
  unfolding if_children equal
  if_children-skip [] i = refl
  if_children-skip (s ∷ ss) i = if_children-skip ss i

-- Over the children that the grammar gives, the walk carries out the statements of the first block where
-- the condition holds, those of the `else` block where it does not, and no others; without an `else` it
-- then does nothing.
pub if_stmt-chosen :
    (condition : Bool) (expr : Interpreter → Flow) (thens : List (Interpreter → Flow))
    (elses : Option (List (Interpreter → Flow))) (i : Interpreter)
    → if_stmt (bool_value condition) (if_tree expr thens elses) i
      ≡ run_all (chosen condition thens elses) i
unfolding if_stmt if_children equal
if_stmt-chosen true expr thens none i =
    if_children-run true 1 [] thens i ∙ and_then-goes_on_self (run_all thens i)
if_stmt-chosen true expr thens (some es) i =
    if_children-run true 1 (else_part (some es)) thens i
    ∙ ap (λ f. and_then f (run_all thens i)) (λ d. λ j. if_children-skip true 2 [] es j d)
    ∙ and_then-goes_on_self (run_all thens i)
if_stmt-chosen false expr thens none i = if_children-skip false 1 [] thens i
if_stmt-chosen false expr thens (some es) i =
    if_children-skip false 1 (else_part (some es)) thens i
    ∙ if_children-run false 2 [] es i
    ∙ and_then-goes_on_self (run_all es i)
