-- ===== src/Values/Equality.antt =====
-- `==` of src/Value.hpp, which compares the variants, and `visitComparisonExpr` of
-- src/Interpreter.cpp, which is its user.
use partio.Prelude.{
  ◌≡◌, refl, ap, ap₂, ◌↔◌, ◌≢◌, ℕ, Bool, true, false, not, ◌&&◌, Bool-cases, ◌==◌, inl, inr, arith,
  Result, ok,
}
use partio.Prelude.Text.{equal, equal→eq, equal_refl}
use partio.Prelude.Int.{ℤ, pos, negsuc}
use partio.Values.{
  TargetType, Value, Values, Entries, bool_value, int_value, string_value, list_value, map_value,
  type_value, project_value, function_value, target_value, nil, cons, no_entries, entry, ValueError,
  Comparison, comparison,
}

abbrev pub same_bool : Bool → Bool → Bool
same_bool true b = b
same_bool false b = not b

abbrev pub same_int : ℤ → ℤ → Bool
same_int (pos m) (pos n) = m == n
same_int (negsuc m) (negsuc n) = m == n
same_int _ _ = false

-- the number of the enumerator
abbrev pub enumerator : TargetType → ℕ
enumerator TargetType.executable = 0
enumerator TargetType.library = 1
enumerator TargetType.sources = 2
enumerator TargetType.generator = 3
enumerator TargetType.dumb = 4

unfoldable mutual
  -- `operator==`: the same alternative, and equal contents; two pointers are equal when they
  -- show the same object
  pub same : Value → Value → Bool
  same Value.monostate Value.monostate = true
  same (Value.bool_value a) (Value.bool_value b) = same_bool a b
  same (Value.int_value m) (Value.int_value n) = same_int m n
  same (Value.string_value s) (Value.string_value t) = equal s t
  same (Value.list_value vs) (Value.list_value ws) = same_values vs ws
  same (Value.map_value es) (Value.map_value ds) = same_entries es ds
  same (Value.type_value t) (Value.type_value u) = enumerator t == enumerator u
  same (Value.project_value p) (Value.project_value q) = p == q
  same (Value.function_value f) (Value.function_value g) = f == g
  same (Value.target_value t) (Value.target_value u) = t == u
  same _ _ = false

  -- `==` of `std::vector`
  pub same_values : Values → Values → Bool
  same_values nil nil = true
  same_values (cons v vs) (cons w ws) = same v w && same_values vs ws
  same_values _ _ = false

  -- `==` of `std::map`, which goes over both in order
  pub same_entries : Entries → Entries → Bool
  same_entries no_entries no_entries = true
  same_entries (entry k v es) (entry j w ds) = equal k j && same v w && same_entries es ds
  same_entries _ _ = false

-- the operator between the operands
pub data Operator : Type 0 where
  equal_to not_equal_to : Operator
  order : Comparison → Operator

-- `visitComparisonExpr`, behind its operands
unfoldable pub comparison_expr : Operator → Value → Value → Result ValueError Value
comparison_expr Operator.equal_to left right = ok (bool_value (same left right))
comparison_expr Operator.not_equal_to left right = ok (bool_value (not (same left right)))
comparison_expr (Operator.order op) left right = comparison op left right

same_bool→eq : (a b : Bool) → same_bool a b ≡ true → a ≡ b
same_bool→eq true true h = refl
same_bool→eq false false h = refl
same_bool→eq _ _ h = cc

==→eq : (m n : ℕ) → (m == n) ≡ true → m ≡ n
==→eq m n h = ground arith

same_int→eq : (m n : ℤ) → same_int m n ≡ true → m ≡ n
same_int→eq (pos m) (pos n) h = ap pos (==→eq m n h)
same_int→eq (negsuc m) (negsuc n) h = ap negsuc (==→eq m n h)
same_int→eq _ _ h = cc

enumerator→eq : (t u : TargetType) → (enumerator t == enumerator u) ≡ true → t ≡ u
enumerator→eq TargetType.executable TargetType.executable h = refl
enumerator→eq TargetType.library TargetType.library h = refl
enumerator→eq TargetType.sources TargetType.sources h = refl
enumerator→eq TargetType.generator TargetType.generator h = refl
enumerator→eq TargetType.dumb TargetType.dumb h = refl
enumerator→eq _ _ h = cc

both : (a b : Bool) → (a && b) ≡ true → (a ≡ true) × (b ≡ true)
both true b h = (refl, h)
both false b h = cc

mutual
  unfolding same

  same→eq : (v w : Value) → same v w ≡ true → v ≡ w
  same→eq Value.monostate Value.monostate h = refl
  same→eq (Value.bool_value a) (Value.bool_value b) h = ap bool_value (same_bool→eq a b h)
  same→eq (Value.int_value m) (Value.int_value n) h = ap int_value (same_int→eq m n h)
  same→eq (Value.string_value s) (Value.string_value t) h = ap string_value (equal→eq s t h)
  same→eq (Value.list_value vs) (Value.list_value ws) h = ap list_value (same_values→eq vs ws h)
  same→eq (Value.map_value es) (Value.map_value ds) h = ap map_value (same_entries→eq es ds h)
  same→eq (Value.type_value t) (Value.type_value u) h = ap type_value (enumerator→eq t u h)
  same→eq (Value.project_value p) (Value.project_value q) h = ap project_value (==→eq p q h)
  same→eq (Value.function_value f) (Value.function_value g) h = ap function_value (==→eq f g h)
  same→eq (Value.target_value t) (Value.target_value u) h = ap target_value (==→eq t u h)
  same→eq _ _ h = cc

  same_values→eq : (vs ws : Values) → same_values vs ws ≡ true → vs ≡ ws
  same_values→eq nil nil h = refl
  same_values→eq (cons v vs) (cons w ws) h =
      let parts = both (same v w) (same_values vs ws) h in
      ap₂ cons (same→eq v w parts.0) (same_values→eq vs ws parts.1)
  same_values→eq _ _ h = cc

  same_entries→eq : (es ds : Entries) → same_entries es ds ≡ true → es ≡ ds
  same_entries→eq no_entries no_entries h = refl
  same_entries→eq (entry k v es) (entry j w ds) h =
      let outer = both (equal k j && same v w) (same_entries es ds) h in
      let inner = both (equal k j) (same v w) outer.0 in
      let keys = equal→eq k j inner.0 in
      let first = same→eq v w inner.1 in
      let rest = same_entries→eq es ds outer.1 in λ i. entry (keys i) (first i) (rest i)
  same_entries→eq _ _ h = cc

mutual
  unfolding same

  same_refl : (v : Value) → same v v ≡ true
  same_refl Value.monostate = refl
  same_refl (Value.bool_value true) = refl
  same_refl (Value.bool_value false) = refl
  same_refl (Value.int_value (pos n)) = ground arith
  same_refl (Value.int_value (negsuc n)) = ground arith
  same_refl (Value.string_value s) = equal_refl s
  same_refl (Value.list_value vs) = same_values_refl vs
  same_refl (Value.map_value es) = same_entries_refl es
  same_refl (Value.type_value t) = ground arith
  same_refl (Value.project_value p) = ground arith
  same_refl (Value.function_value f) = ground arith
  same_refl (Value.target_value t) = ground arith

  same_values_refl : (vs : Values) → same_values vs vs ≡ true
  same_values_refl nil = refl
  same_values_refl (cons v vs) = rw (same_refl v, same_values_refl vs) refl

  same_entries_refl : (es : Entries) → same_entries es es ≡ true
  same_entries_refl no_entries = refl
  same_entries_refl (entry k v es) = rw (equal_refl k, same_refl v, same_entries_refl es) refl

answers→yes :
    (a : Bool)
    → ◌≡◌ {A = Result ValueError Value} (ok (bool_value a)) (ok (bool_value true))
    → a ≡ true
answers→yes true h = refl
answers→yes false h = cc

-- `==` answers true exactly when the two values are equal throughout, lists and maps at every
-- depth included, and `!=` answers true exactly when they are not.
pub comparison_expr-eq :
    (left right : Value)
    → ((comparison_expr equal_to left right ≡ ok (bool_value true)) ↔ (left ≡ right))
      × ((comparison_expr not_equal_to left right ≡ ok (bool_value true)) ↔ (left ≢ right))
unfolding comparison_expr
comparison_expr-eq left right = (
  (λ h. same→eq left right (answers→yes _ h), λ e. rw (e, same_refl right) refl),
  (
    λ h e. cc (rw (e, same_refl right) at (answers→yes _ h)),
    λ ne. elim (Bool-cases (same left right)) [
      | inl equals ↦ absurd (ne (same→eq left right equals))
      | inr differs ↦ rw differs refl
    ],
  ),
)
