-- ===== src/Values.antt =====
-- src/Value.hpp, src/Value.cpp: the values of build files. A shared pointer is the number of the
-- object it points to, and a list or a map of values is held by the value.
pub mod Append
pub mod Equality
pub mod Print
use partio.Prelude.{
  ℕ, zero, suc, ◌+◌, ◌-◌, ◌*◌, ◌/◌, ◌%◌, Bool, true, false, [], ◌∷◌, ◌++◌, ltb, leb, if◌then◌else◌,
  Result, ok, err,
}
use partio.Prelude.Text.{Bytes, bytes}
use partio.Prelude.Int.{ℤ, pos, negsuc, ◌+ℤ◌, ltb_ℤ, fits_int}

-- src/ProjectContext.hpp
pub data TargetType : Type 0 where
  executable library sources generator dumb : TargetType

mutual
  -- the alternatives of the variant, in their order
  pub data Value : Type 0 where
    monostate : Value
    bool_value : Bool → Value
    int_value : ℤ → Value
    string_value : Bytes → Value
    list_value : Values → Value
    map_value : Entries → Value
    type_value : TargetType → Value
    project_value : ℕ → Value
    function_value : ℕ → Value
    target_value : ℕ → Value

  -- `ValueList`
  pub data Values : Type 0 where
    nil : Values
    cons : Value → Values → Values

  -- `ValueMap`, in the order of the keys
  pub data Entries : Type 0 where
    no_entries : Entries
    entry : Bytes → Value → Entries → Entries

-- What the code throws, and the overflow of an `int`, which C++ leaves undefined.
pub data ValueError : Type 0 where
  append_non_string not_two_integers append_not_supported incompatible_types only_numbers :
      ValueError
  out_of_range int_overflow type_mismatch not_a_container : ValueError

abbrev pub concat : Values → Values → Values
concat nil ws = ws
concat (cons v vs) ws = cons v (concat vs ws)

abbrev pub add_int : ℤ → ℤ → Result ValueError Value
add_int a b = if fits_int (a +ℤ b) then ok (int_value (a +ℤ b)) else err int_overflow

-- `operator+=`: the new value of the left side
unfoldable pub add_assign : Value → Value → Result ValueError Value
add_assign Value.monostate other = ok other
add_assign (Value.list_value lhs) (Value.list_value rhs) = ok (list_value (concat lhs rhs))
add_assign (Value.list_value lhs) other = ok (list_value (concat lhs (cons other nil)))
add_assign (Value.string_value lhs) (Value.string_value rhs) = ok (string_value (lhs ++ rhs))
add_assign (Value.string_value lhs) other = err append_non_string
add_assign (Value.int_value lhs) (Value.int_value rhs) = add_int lhs rhs
add_assign (Value.int_value lhs) other = err not_two_integers
add_assign _ other = err append_not_supported

-- src/Interpreter.cpp: `visitAdditiveExpr` at `+`, behind its operands
unfoldable pub additive : Value → Value → Result ValueError Value
additive (Value.string_value left) (Value.string_value right) = ok (string_value (left ++ right))
additive (Value.list_value left) (Value.list_value right) = ok (list_value (concat left right))
additive (Value.int_value left) (Value.int_value right) = add_int left right
additive left right = err incompatible_types

-- The decimal digits of a number, at most `f + 1` of them.
unfoldable pub decimal : ℕ → ℕ → Bytes
decimal zero n = (48 + n % 10) ∷ []
decimal (suc f) n =
    let front = decimal f (n / 10) in
    if ltb n 10 then (48 + n) ∷ [] else front ++ (48 + n % 10) ∷ []

-- `std::to_string` of an `int`
abbrev pub print_int : ℤ → Bytes
print_int (pos n) = decimal n n
print_int (negsuc n) = b'-' ∷ decimal (suc n) (suc n)

abbrev pub print_bool : Bool → Bytes
print_bool true = bytes "true"
print_bool false = bytes "false"

unfoldable mutual
  pub to_string : Value → Bytes
  to_string Value.monostate = bytes "null"
  to_string (Value.bool_value b) = print_bool b
  to_string (Value.int_value n) = print_int n
  to_string (Value.string_value s) = s
  to_string (Value.list_value nil) = bytes "[]"
  to_string (Value.list_value (cons v vs)) = b'[' ∷ join_values (cons v vs) ++ bytes "]"
  to_string (Value.map_value no_entries) = bytes "{}"
  to_string (Value.map_value (entry k v es)) = b'{' ∷ join_entries (entry k v es) ++ bytes "}"
  to_string _ = bytes "<unknown_type>"

  -- `transform`, `join_with(", ")` and `to<std::string>`
  join_values : Values → Bytes
  join_values nil = []
  join_values (cons v nil) = to_string v
  join_values (cons v (cons w vs)) = to_string v ++ bytes ", " ++ join_values (cons w vs)

  join_entries : Entries → Bytes
  join_entries no_entries = []
  join_entries (entry k v no_entries) = b'"' ∷ k ++ bytes "\": " ++ to_string v
  join_entries (entry k v (entry j w es)) =
      (b'"' ∷ k ++ bytes "\": " ++ to_string v) ++ bytes ", " ++ join_entries (entry j w es)

-- `std::stoi`: the digits in front, with the number so far
unfoldable pub stoi : ℕ → Bytes → ℕ
stoi n [] = n
stoi n (c ∷ cs) =
    let more = stoi (n * 10 + (c - 48)) cs in if leb 48 c then (if leb c 57 then more else n) else n

-- src/Interpreter.hpp: `visitNumberLiteral`, at a text that starts with a digit
unfoldable pub number_literal : Bytes → Result ValueError Value
number_literal text =
    let n = pos (stoi 0 text) in if fits_int n then ok (int_value n) else err out_of_range

pub data Comparison : Type 0 where
  less_than greater_than less_than_or_equal_to greater_than_or_equal_to : Comparison

-- src/Interpreter.cpp: `visitComparisonExpr` at an order, behind its operands
unfoldable pub compare_ints : Comparison → ℤ → ℤ → Bool
compare_ints Comparison.less_than l r = ltb_ℤ l r
compare_ints Comparison.greater_than l r = ltb_ℤ r l
compare_ints Comparison.less_than_or_equal_to l r = if ltb_ℤ r l then false else true
compare_ints Comparison.greater_than_or_equal_to l r = if ltb_ℤ l r then false else true

unfoldable pub comparison : Comparison → Value → Value → Result ValueError Value
unfolding compare_ints
comparison op (Value.int_value l) (Value.int_value r) = ok (bool_value (compare_ints op l r))
comparison op left right = err only_numbers
