-- ===== src/Interpreter/Loops.antt =====
-- src/Interpreter.cpp: `visitFor_stmt`. The exceptions that leave a statement are a result of it.
use partio.Prelude.{ℕ, suc, ◌≡◌, refl, subst, List, [], ◌∷◌, ◌++◌, if◌then◌else◌, length, arith}
use partio.Prelude.Text.{Bytes}
use partio.Prelude.Int.{pos}
use partio.Prelude.Maps.{map_set}
use partio.Values.{Value, int_value, string_value, Values, nil, cons, Entries, no_entries, entry}
use partio.Interpreter.{Scope, Interpreter, Thrown, is_empty}
use partio.Interpreter.Blocks.{pop_scope}

-- How statements end: with the next one, with `BreakSignal`, `ContinueSignal` or `ReturnSignal`, or
-- with an error.
pub data Flow : Type 0 where
  goes_on breaks continues : Interpreter → Flow
  returns : Value → Interpreter → Flow
  fails : Thrown → Flow

-- the scope of one pass, for one name or two; the second may be the first again
abbrev pub loop_scope : Bytes → Bytes → Value → Value → Scope
loop_scope var_name1 var_name2 k v =
    if is_empty var_name2 then (var_name1, v) ∷ [] else map_set var_name2 v ((var_name1, k) ∷ [])

-- `scopes.pop_back()`, at the end of a pass or before an exception goes on
abbrev pub popped : Interpreter → Interpreter
popped i = record i { scopes = pop_scope i.scopes }

abbrev pub pop_flow : Flow → Flow
pop_flow (Flow.goes_on i) = goes_on (popped i)
pop_flow (Flow.breaks i) = breaks (popped i)
pop_flow (Flow.continues i) = continues (popped i)
pop_flow (Flow.returns v i) = returns v (popped i)
pop_flow (Flow.fails e) = fails e

-- the elements with their keys
abbrev pub number_from : ℕ → Values → List (Value × Value)
number_from n nil = []
number_from n (cons v vs) = (int_value (pos n), v) ∷ number_from (suc n) vs

abbrev pub pairs : Entries → List (Value × Value)
pairs no_entries = []
pairs (entry k v es) = (string_value k, v) ∷ pairs es

abbrev pub elements : Value → List (Value × Value)
elements (Value.list_value vs) = number_from 0 vs
elements (Value.map_value es) = pairs es
elements _ = []

-- the handlers of `BreakSignal` and `ContinueSignal` behind both loops
abbrev pub caught : Flow → Flow
caught (Flow.goes_on i) = goes_on i
caught (Flow.breaks i) = goes_on i
caught (Flow.continues i) = goes_on i
caught (Flow.returns v i) = returns v i
caught (Flow.fails e) = fails e

-- An exception ends the loop.
abbrev pub and_then : (Interpreter → Flow) → Flow → Flow
and_then next (Flow.goes_on i) = next i
and_then next (Flow.breaks i) = breaks i
and_then next (Flow.continues i) = continues i
and_then next (Flow.returns v i) = returns v i
and_then next (Flow.fails e) = fails e

and_then-goes_on :
    (next : Interpreter → Flow) (r : Flow) (j : Interpreter)
    → and_then next r ≡ goes_on j
    → (i : Interpreter) × (r ≡ goes_on i) × (next i ≡ goes_on j)
and_then-goes_on next (Flow.goes_on i) j h = (i, refl, h)
and_then-goes_on next (Flow.breaks i) j h = cc
and_then-goes_on next (Flow.continues i) j h = cc
and_then-goes_on next (Flow.returns v i) j h = cc
and_then-goes_on next (Flow.fails e) j h = cc

-- The state where the statements end has this many scopes.
abbrev pub AtDepth : ℕ → Flow → Type 0
AtDepth n (Flow.goes_on i) = length i.scopes ≡ n
AtDepth n (Flow.breaks i) = length i.scopes ≡ n
AtDepth n (Flow.continues i) = length i.scopes ≡ n
AtDepth n (Flow.returns v i) = length i.scopes ≡ n
AtDepth n (Flow.fails e) = Unit

-- Statements leave as many scopes as they find.
abbrev pub KeepsDepth : (Interpreter → Flow) → Type 0
KeepsDepth statements = (i : Interpreter) → AtDepth (length i.scopes) (statements i)

pub pop_scope-length : (n : ℕ) (ss : List Scope) → length ss ≡ suc n → length (pop_scope ss) ≡ n
pop_scope-length n [] h = absurd (omega arith)
pop_scope-length n (s ∷ ss) h = omega arith

pop_flow-AtDepth : (n : ℕ) (r : Flow) → AtDepth (suc n) r → AtDepth n (pop_flow r)
pop_flow-AtDepth n (Flow.goes_on i) h = pop_scope-length n i.scopes h
pop_flow-AtDepth n (Flow.breaks i) h = pop_scope-length n i.scopes h
pop_flow-AtDepth n (Flow.continues i) h = pop_scope-length n i.scopes h
pop_flow-AtDepth n (Flow.returns v i) h = pop_scope-length n i.scopes h
pop_flow-AtDepth n (Flow.fails e) h = tt

and_then-AtDepth :
    (n : ℕ) (next : Interpreter → Flow) (r : Flow)
    → AtDepth n r
    → ((i : Interpreter) → length i.scopes ≡ n → AtDepth n (next i))
    → AtDepth n (and_then next r)
and_then-AtDepth n next (Flow.goes_on i) h k = k i h
and_then-AtDepth n next (Flow.breaks i) h k = h
and_then-AtDepth n next (Flow.continues i) h k = h
and_then-AtDepth n next (Flow.returns v i) h k = h
and_then-AtDepth n next (Flow.fails e) h k = tt

-- What a loop ends in: never `break` or `continue`, and with the scopes that it found.
abbrev pub IsLeft : ℕ → Flow → Type 0
IsLeft n (Flow.goes_on i) = length i.scopes ≡ n
IsLeft n (Flow.breaks i) = ⊥
IsLeft n (Flow.continues i) = ⊥
IsLeft n (Flow.returns v i) = length i.scopes ≡ n
IsLeft n (Flow.fails e) = Unit

caught-IsLeft : (n : ℕ) (r : Flow) → AtDepth n r → IsLeft n (caught r)
caught-IsLeft n (Flow.goes_on i) h = h
caught-IsLeft n (Flow.breaks i) h = h
caught-IsLeft n (Flow.continues i) h = h
caught-IsLeft n (Flow.returns v i) h = h
caught-IsLeft n (Flow.fails e) h = tt

module _ (statements : Interpreter → Flow) (var_name1 var_name2 : Bytes) where
  unfoldable pub execute_body : Value × Value → Interpreter → Flow
  execute_body (k, v) i =
      pop_flow (statements (record i { scopes = loop_scope var_name1 var_name2 k v ∷ i.scopes }))

  unfoldable pub for_loop : List (Value × Value) → Interpreter → Flow
  for_loop [] i = goes_on i
  for_loop (x ∷ xs) i = and_then (λ i'. for_loop xs i') (execute_body x i)

  unfoldable pub for_stmt : Value → Interpreter → Flow
  for_stmt container i = caught (for_loop (elements container) i)

  for_loop-returns :
      (xs rest : List (Value × Value)) (x : Value × Value) (v : Value) (i j k : Interpreter)
      → for_loop xs i ≡ goes_on j
      → statements (record j { scopes = loop_scope var_name1 var_name2 x.0 x.1 ∷ j.scopes })
        ≡ returns v k
      → for_loop (xs ++ x ∷ rest) i ≡ returns v (popped k)
  unfolding for_loop execute_body
  for_loop-returns [] rest x v i j k h e =
      let same : i ≡ j = cc in rw (for_loop, same, execute_body, e) refl
  for_loop-returns (y ∷ ys) rest x v i j k h e =
      let (m, went, later) = and_then-goes_on (λ i'. for_loop ys i') (execute_body y i) j h in
      rw (for_loop, went) (for_loop-returns ys rest x v m j k later e)

  -- A `return` at one element of a loop, behind elements that were passed, leaves the loop with its
  -- value: the scope of that pass is taken away, and the elements behind are not visited.
  pub for_stmt-returns :
      (container : Value) (xs rest : List (Value × Value)) (x : Value × Value) (v : Value)
      (i j k : Interpreter)
      → elements container ≡ xs ++ x ∷ rest
      → for_loop xs i ≡ goes_on j
      → statements (record j { scopes = loop_scope var_name1 var_name2 x.0 x.1 ∷ j.scopes })
        ≡ returns v k
      → for_stmt container i ≡ returns v (popped k)
  unfolding for_stmt
  for_stmt-returns container xs rest x v i j k at before here =
      rw (at, for_loop-returns xs rest x v i j k before here) refl

  execute_body-AtDepth :
      (x : Value × Value) (i : Interpreter)
      → KeepsDepth statements
      → AtDepth (length i.scopes) (execute_body x i)
  unfolding execute_body
  execute_body-AtDepth (k, v) i keeps =
      pop_flow-AtDepth (length i.scopes) _
        (keeps (record i { scopes = loop_scope var_name1 var_name2 k v ∷ i.scopes }))

  for_loop-AtDepth :
      (n : ℕ) (xs : List (Value × Value)) (i : Interpreter)
      → KeepsDepth statements
      → length i.scopes ≡ n
      → AtDepth n (for_loop xs i)
  unfolding for_loop
  for_loop-AtDepth n [] i keeps h = h
  for_loop-AtDepth n (x ∷ xs) i keeps h =
      and_then-AtDepth n (λ i'. for_loop xs i') (execute_body x i)
        (subst (λ m. AtDepth m (execute_body x i)) h (execute_body-AtDepth x i keeps))
        (λ i' h'. for_loop-AtDepth n xs i' keeps h')

  -- If the statements of its body leave as many scopes as they find, a loop does so too, whether it
  -- ends or a `return` leaves it, and no `break` or `continue` leaves it.
  pub for_stmt-IsLeft :
      (container : Value) (i : Interpreter)
      → KeepsDepth statements
      → IsLeft (length i.scopes) (for_stmt container i)
  unfolding for_stmt
  for_stmt-IsLeft container i keeps =
      caught-IsLeft (length i.scopes) (for_loop (elements container) i)
        (for_loop-AtDepth (length i.scopes) (elements container) i keeps refl)
