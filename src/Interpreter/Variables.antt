-- ===== src/Interpreter/Variables.antt =====
-- What an assignment changes, as `getVar` sees it.
use partio.Prelude.{
  ◌≡◌, ◌≢◌, refl, ◌⊎◌, inl, inr, Bool, true, false, not, ◌&&◌, List, [], ◌∷◌, none, some, ok,
  Bool-cases, Option-cases, All,
}
use partio.Prelude.Text.{Bytes}
use partio.Prelude.Maps.{map_find, map_set, map_find-map_set_self, map_find-map_set_ne}
use partio.Values.{Value}
use partio.Interpreter.{
  Scope, Interpreter, has_colon, is_empty, qualified, candidates, first_of, find_var, found_or,
  get_var, set_local, cons_found, update_var, set_var, at_top, assigned_name, assign_variable,
  assignment, assign,
}

first_of-head :
    (n : Bytes) (ns : List Bytes) (v : Value) (s : Scope)
    → first_of (n ∷ ns) (map_set n v s) ≡ some v
unfolding first_of
first_of-head n ns v s = rw (first_of, map_find-map_set_self n v s)

first_of-map_set :
    (names : List Bytes) (n : Bytes) (v : Value) (s : Scope)
    → All (λ c. n ≢ c) names
    → first_of names (map_set n v s) ≡ first_of names s
unfolding first_of
first_of-map_set [] n v s h = refl
first_of-map_set (c ∷ cs) n v s h =
    let same = map_find-map_set_ne n c v s h.0 in
    elim (Option-cases (map_find c s)) [
      | inl missing ↦ rw (first_of, same, missing) (first_of-map_set cs n v s h.1)
      | inr (old, here) ↦ rw (first_of, same, here)
    ]

find_var-head :
    (names : List Bytes) (s s' : Scope) (ss : List Scope)
    → first_of names s' ≡ first_of names s
    → find_var names (s' ∷ ss) ≡ find_var names (s ∷ ss)
unfolding find_var
find_var-head names s s' ss h = rw (find_var, h) refl

find_var-tail :
    (names : List Bytes) (s : Scope) (ss ss' : List Scope)
    → find_var names ss' ≡ find_var names ss
    → find_var names (s ∷ ss') ≡ find_var names (s ∷ ss)
unfolding find_var
find_var-tail names s ss ss' h = elim (Option-cases (first_of names s)) [
  | inl missing ↦ rw (find_var, missing) h
  | inr (v, here) ↦ rw (find_var, here) refl
]

find_var-update_var :
    (n : Bytes) (v : Value) (ss ss' : List Scope)
    → update_var n v ss ≡ some ss'
    → find_var (n ∷ []) ss' ≡ some v
unfolding update_var find_var cons_found first_of
find_var-update_var n v [] ss' h = cc
find_var-update_var n v (s ∷ ss) ss' h = elim (Option-cases (map_find n s)) [
  | inr (old, here) ↦
      let e : map_set n v s ∷ ss ≡ ss' = cc (rw (update_var, here) at h) in
      rw (← e, find_var, first_of-head n [] v s)
  | inl missing ↦ elim (Option-cases (update_var n v ss)) [
    | inl nowhere ↦ cc (rw (update_var, missing, nowhere, cons_found) at h)
    | inr (further, there) ↦
        let e : s ∷ further ≡ ss' = cc (rw (update_var, missing, there, cons_found) at h) in
        rw (← e, find_var, first_of, missing)
          (unfold first_of in rw (find_var-update_var n v ss further there))
  ]
]

-- `setVar` sets the variable that `getVar` finds under the same, single name.
find_var-set_var :
    (n : Bytes) (v : Value) (s : Scope) (ss : List Scope)
    → find_var (n ∷ []) (set_var n v false (s ∷ ss)) ≡ some v
unfolding set_var set_local find_var
find_var-set_var n v s ss = elim (Option-cases (update_var n v (s ∷ ss))) [
  | inl nowhere ↦ rw (set_var, nowhere) (rw (set_local, find_var, first_of-head n [] v s))
  | inr (ss', there) ↦ rw (set_var, there) (find_var-update_var n v (s ∷ ss) ss' there)
]

-- A single scope is written whether it holds the variable or not.
set_var-single :
    (n : Bytes) (v : Value) (s : Scope) → set_var n v false (s ∷ []) ≡ map_set n v s ∷ []
unfolding set_var update_var cons_found set_local
set_var-single n v s = elim (Option-cases (map_find n s)) [
  | inl missing ↦ rw (set_var, update_var, missing)
  | inr (old, here) ↦ rw (set_var, update_var, here)
]

find_var-update_var_other :
    (names : List Bytes) (n : Bytes) (v : Value) (ss ss' : List Scope)
    → All (λ c. n ≢ c) names
    → update_var n v ss ≡ some ss'
    → find_var names ss' ≡ find_var names ss
unfolding update_var find_var cons_found
find_var-update_var_other names n v [] ss' a h = cc
find_var-update_var_other names n v (s ∷ ss) ss' a h = elim (Option-cases (map_find n s)) [
  | inr (old, here) ↦
      let e : map_set n v s ∷ ss ≡ ss' = cc (rw (update_var, here) at h) in
      rw (← e) (find_var-head names s (map_set n v s) ss (first_of-map_set names n v s a))
  | inl missing ↦ elim (Option-cases (update_var n v ss)) [
    | inl nowhere ↦ cc (rw (update_var, missing, nowhere, cons_found) at h)
    | inr (further, there) ↦
        let e : s ∷ further ≡ ss' = cc (rw (update_var, missing, there, cons_found) at h) in
        rw (← e) (
          find_var-tail names s ss further (find_var-update_var_other names n v ss further a there))
  ]
]

find_var-set_var_other :
    (names : List Bytes) (n : Bytes) (v : Value) (ss : List Scope)
    → All (λ c. n ≢ c) names
    → find_var names (set_var n v false ss) ≡ find_var names ss
unfolding set_var
find_var-set_var_other names n v ss a = elim (Option-cases (update_var n v ss)) [
  | inl nowhere ↦ rw (set_var, nowhere) (local ss)
  | inr (ss', there) ↦ rw (set_var, there) (find_var-update_var_other names n v ss ss' a there)
]
  where
    local : (rs : List Scope) → find_var names (set_local n v rs) ≡ find_var names rs
    local [] = unfold set_local in refl
    local (r ∷ rs) =
        unfold set_local in
        find_var-head names r (map_set n v r) rs (first_of-map_set names n v r a)

-- Without a namespace that counts there is one candidate, the name itself.
plain_name :
    (i : Interpreter) (name : Bytes)
    → (not (has_colon name) && not (is_empty i.current_namespace)) ≡ false
    → (candidates i.current_namespace name ≡ name ∷ []) × (assigned_name name i ≡ name)
unfolding candidates assigned_name
plain_name i name h = (rw h, rw (ground_false (at_top i.scopes) _ _ h))
  where
    ground_false : (a b c : Bool) → (b && c) ≡ false → (a && c && b) ≡ false
    ground_false true true true h = h
    ground_false true true false h = refl
    ground_false true false true h = refl
    ground_false true false false h = refl
    ground_false false b c h = refl

and_swap : (b c : Bool) → (b && c) ≡ true → (c && b) ≡ true
and_swap true true h = refl
and_swap true false h = h
and_swap false c h = cc

namespace_name :
    (i : Interpreter) (name : Bytes)
    → at_top i.scopes ≡ true
    → (not (has_colon name) && not (is_empty i.current_namespace)) ≡ true
    → (candidates i.current_namespace name ≡ qualified i.current_namespace name ∷ name ∷ [])
      × (assigned_name name i ≡ qualified i.current_namespace name)
unfolding candidates assigned_name
namespace_name i name top h =
    (rw h, rw (top, and_swap (not (has_colon name)) (not (is_empty i.current_namespace)) h))

find_var-assigned :
    (i : Interpreter) (name : Bytes) (val : Value) (scope : Scope) (outer : List Scope)
    → i.scopes ≡ scope ∷ outer
    → (outer ≡ []) ⊎ (is_empty i.current_namespace ≡ true) ⊎ (has_colon name ≡ true)
    → find_var
        (candidates i.current_namespace name)
        (set_var (assigned_name name i) val false i.scopes)
      ≡ some val
unfolding find_var
find_var-assigned i name val scope outer s h =
    elim (Bool-cases (not (has_colon name) && not (is_empty i.current_namespace))) [
      | inr plain ↦
          let (one_name, written) = plain_name i name plain in
          rw (one_name, written) (rw s (find_var-set_var name val scope outer))
      | inl spaced ↦ elim h [
        | inl top ↦
            let q = qualified i.current_namespace name in
            let one_scope : at_top i.scopes ≡ true = rw (s, top) refl in
            let (names, written) = namespace_name i name one_scope spaced in
            rw (names, written)
              (rw (s, top, set_var-single q val scope)
                (rw (find_var, first_of-head q (name ∷ []) val scope)))
        | inr (inl no_space) ↦
            let swapped =
              and_swap (not (has_colon name)) (not (is_empty i.current_namespace)) spaced in
            cc (rw no_space at swapped)
        | inr (inr colon) ↦ cc (rw colon at spaced)
      ]
    ]

-- Outside of targets: a variable that was assigned with `=` is read back under the name it was assigned by,
-- at the outermost level in any namespace, and inside functions and loops if there is no namespace
-- or the name is qualified.
pub get_var-assignment :
    (i : Interpreter) (name : Bytes) (val : Value) (scope : Scope) (outer : List Scope)
    → i.current_target ≡ none
    → i.scopes ≡ scope ∷ outer
    → (outer ≡ []) ⊎ (is_empty i.current_namespace ≡ true) ⊎ (has_colon name ≡ true)
    → (i' : Interpreter) × (assignment name val assign i ≡ ok i') × (get_var name i' ≡ ok val)
unfolding assignment assign_variable get_var found_or
get_var-assignment i name val scope outer t s h = (
  record i { scopes = set_var (assigned_name name i) val false i.scopes },
  rw t,
  rw (find_var-assigned i name val scope outer s h),
)

-- Outside of targets an assignment with `=` changes no variable that is looked for under other names
-- than the one that it writes.
pub get_var-assignment_other :
    (i i' : Interpreter) (name other : Bytes) (val : Value)
    → i.current_target ≡ none
    → All (λ c. assigned_name name i ≢ c) (candidates i.current_namespace other)
    → assignment name val assign i ≡ ok i'
    → get_var other i' ≡ get_var other i
unfolding assignment assign_variable get_var
get_var-assignment_other i i' name other val t a h =
    let same : record i { scopes = set_var (assigned_name name i) val false i.scopes } ≡ i' =
      cc (rw t at h) in
    rw (
      ← same,
      find_var-set_var_other (candidates i.current_namespace other) (assigned_name name i) val
          i.scopes a,
    )
