-- ===== src/Interpreter/Described.antt =====
-- The statements of src/Interpreter.hpp that can stand in a block keep described targets described.
use partio.Prelude.{
  ℕ, ◌≡◌, refl, inl, inr, Bool, ok, err, false, true, some, none, get_elem?, set, Result, Option,
  ◌>>=◌, >>=-eq-ok, Option-cases, List,
}
use partio.Prelude.Text.{Bytes}
use partio.Values.{Value}
use partio.Targets.{Target, PropertyError, set_property}
use partio.Targets.Defined.{set_property-is_defined}
use partio.Interpreter.{
  Interpreter, Thrown, Scope, AssignOp, set_in_target, put_target, put_scopes, assign_property,
  assign_variable, assigned_name, assignment, variable_decl,
}
use partio.Interpreter.Blocks.{Body, IsDescribed, KeepsDescribed, IsDescribed-same, IsDescribed-set}

-- one statement behind another
abbrev pub in_turn : Body → Body → Body
in_turn first second i = first i >>= second

pub in_turn-KeepsDescribed :
    (first second : Body)
    → KeepsDescribed first
    → KeepsDescribed second
    → KeepsDescribed (in_turn first second)
in_turn-KeepsDescribed first second keeps keeps' i i' name h d =
    let (between, ran, ran') = >>=-eq-ok (first i) second h in
    keeps' between i' name ran' (keeps i between name ran d)

unchanged :
    (i i' j : Interpreter) (name : Bytes)
    → ◌≡◌ {A = Result Thrown Interpreter} (ok j) (ok i')
    → j.targets ≡ i.targets
    → j.store ≡ i.store
    → IsDescribed i name
    → IsDescribed i' name
unchanged i i' j name h targets store d =
    let same : j ≡ i' = cc h in
    IsDescribed-same i i' name (rw (← same) targets) (rw (← same) store) d

set_in_target-IsDescribed :
    (i i' : Interpreter) (t : ℕ) (key : Bytes) (val : Value) (is_append : Bool) (name : Bytes)
    → set_in_target i t key val is_append (get_elem? i.store t) ≡ ok i'
    → IsDescribed i name
    → IsDescribed i' name
unfolding set_in_target put_target
set_in_target-IsDescribed i i' t key val is_append name h d =
    elim (Option-cases (get_elem? i.store t)) [
      | inl dangling ↦ cc (rw dangling at h)
      | inr (old, there) ↦
          written old there (set_property key val is_append old) refl (rw there at h)
    ]
  where
    written :
        (old : Target)
        → get_elem? i.store t ≡ some old
        → (r : Result PropertyError Target) → set_property key val is_append old ≡ r
        → put_target i t r ≡ ok i'
        → IsDescribed i' name
    written old there (ok new) is put =
        let same : record i { store = set i.store t new } ≡ i' = cc put in
        IsDescribed-set i i' t old new name (rw (← same) refl) (rw (← same) refl) there
          (inr (set_property-is_defined old new key val is_append is)) d
    written old there (err e) is put = cc

pub assignment-KeepsDescribed :
    (key : Bytes) (val : Value) (op : AssignOp) → KeepsDescribed (assignment key val op)
unfolding assignment assign_property assign_variable put_scopes
assignment-KeepsDescribed key val op i i' name h d = by_target i.current_target h
  where
    in_target :
        (op : AssignOp) (t : ℕ)
        → assign_property (assigned_name key i) val op t i ≡ ok i'
        → IsDescribed i' name
    in_target AssignOp.assign t k =
        set_in_target-IsDescribed i i' t (assigned_name key i) val false name k d
    in_target AssignOp.plus_assign t k =
        set_in_target-IsDescribed i i' t (assigned_name key i) val true name k d
    in_target AssignOp.minus_assign t k = unchanged i i' i name k refl refl d

    appended : (r : Result Thrown (List Scope)) → put_scopes i r ≡ ok i' → IsDescribed i' name
    appended (ok scopes) k = unchanged i i' (record i { scopes = scopes }) name k refl refl d
    appended (err e) k = cc

    outer :
        (op : AssignOp)
        → assign_variable (assigned_name key i) val op i ≡ ok i'
        → IsDescribed i' name
    outer AssignOp.assign k = unchanged i i' _ name k refl refl d
    outer AssignOp.plus_assign k = appended _ k
    outer AssignOp.minus_assign k = unchanged i i' i name k refl refl d

    by_target :
        (o : Option ℕ)
        → (elim o [
          | some t ↦ assign_property (assigned_name key i) val op t i
          | none ↦ assign_variable (assigned_name key i) val op i
        ])
          ≡ ok i'
        → IsDescribed i' name
    by_target (some t) k = in_target op t k
    by_target none k = outer op k

pub variable_decl-KeepsDescribed :
    (key : Bytes) (val : Value) → KeepsDescribed (variable_decl key val)
unfolding variable_decl
variable_decl-KeepsDescribed key val i i' name h d = elim (Option-cases i.current_target) [
  | inr (t, inside) ↦
      set_in_target-IsDescribed _ i' t _ val false name (rw inside at h)
        (IsDescribed-same i _ name refl refl d)
  | inl outside ↦ unchanged i i' _ name (rw outside at h) refl refl d
]
