-- ===== src/Values/Append.antt =====
-- `+=` of src/Value.hpp, and `+` of src/Interpreter.cpp beside it.
use partio.Prelude.{ℕ, ◌≡◌, refl, ◌⊎◌, inl, inr, Bool-cases, Result, ok}
use partio.Prelude.Int.{ℤ, fits_int, ◌+ℤ◌}
use partio.Values.{Value, ValueError, add_int, add_assign}

-- the index of the alternative in the variant
abbrev index : Value → ℕ
index Value.monostate = 0
index (Value.bool_value b) = 1
index (Value.int_value n) = 2
index (Value.string_value s) = 3
index (Value.list_value vs) = 4
index (Value.map_value es) = 5
index (Value.type_value t) = 6
index (Value.project_value p) = 7
index (Value.function_value f) = 8
index (Value.target_value t) = 9

add_int-index : (a b : ℤ) (r : Value) → add_int a b ≡ ok r → index r ≡ 2
add_int-index a b r h = elim (Bool-cases (fits_int (a +ℤ b))) [
  | inl fits ↦ let e : Value.int_value (a +ℤ b) ≡ r = cc (rw fits at h) in rw (← e)
  | inr overflow ↦ cc (rw overflow at h)
]

index-ok : (v r : Value) → ◌≡◌ {A = Result ValueError Value} (ok v) (ok r) → index r ≡ index v
index-ok v r h = let e : v ≡ r = cc in rw (← e)

-- A `+=` that succeeds either fills an empty value with the right side or leaves the alternative
-- of the value as it was.
add_assign-index :
    (v w r : Value)
    → add_assign v w ≡ ok r
    → ((v ≡ Value.monostate) × (r ≡ w)) ⊎ (index r ≡ index v)
unfolding add_assign
add_assign-index Value.monostate w r h = inl (refl, cc)
add_assign-index (Value.int_value a) (Value.int_value b) r h = inr (add_int-index a b r h)
add_assign-index (Value.int_value a) _ r h = cc
add_assign-index (Value.string_value a) (Value.string_value b) r h = inr (index-ok _ r h)
add_assign-index (Value.string_value a) _ r h = cc
add_assign-index (Value.list_value a) (Value.list_value b) r h = inr (index-ok _ r h)
add_assign-index (Value.list_value a) _ r h = inr (index-ok _ r h)
add_assign-index _ w r h = cc
