-- ===== src/Interpreter/Expressions.antt =====
-- src/Interpreter.hpp, src/Interpreter.cpp: literals, references and indices. The values of
-- subexpressions are arguments.
use partio.Prelude.{
  refl, arith, inr, inl, ap, Bool-cases, ◌∙◌, ◌≡◌, ℕ, zero, suc, Bool, true, false, List, [], ◌∷◌,
  ◌++◌, Option, none, some, if◌then◌else◌, Result, ok, err, ◌>>=◌,
}
use partio.Prelude.Text.{equal_refl, equal→eq, Bytes, bytes, equal, less}
use partio.Prelude.Int.{pos, negsuc}
use partio.Prelude.Maps.{map_find}
use partio.Values.{
  Value, Values, nil, cons, Entries, no_entries, entry, to_string, bool_value, string_value,
  list_value, map_value, target_value, ValueError, out_of_range, type_mismatch, not_a_container,
}
use partio.Interpreter.{
  qualified, Interpreter, Thrown, target_not_found, path_too_complex, resolve_variable, get_var,
}

-- The parts of a string literal: text, an escape, or the value of an expression in it.
pub data Part : Type 0 where
  text escape : Bytes → Part
  interpolation : Value → Part

-- `esc.substr(1)`
abbrev pub behind_first : Bytes → Bytes
behind_first [] = []
behind_first (c ∷ cs) = cs

abbrev pub unescape : Bytes → Bytes
unescape esc =
    if equal esc (bytes "\\n")
    then bytes "\n"
    else if equal esc (bytes "\\t")
    then bytes "\t"
    else if equal esc (bytes "\\\"")
    then bytes "\""
    else if equal esc (bytes "\\$")
    then bytes "$"
    else behind_first esc

abbrev pub part_text : Part → Bytes
part_text (Part.text t) = t
part_text (Part.escape e) = unescape e
part_text (Part.interpolation v) = to_string v

abbrev pub join_parts : List Part → Bytes
join_parts [] = []
join_parts (p ∷ ps) = part_text p ++ join_parts ps

-- `visitStringLiteral`
unfoldable pub string_literal : List Part → Value
string_literal parts = string_value (join_parts parts)

-- `visitBoolLiteral`
unfoldable pub bool_literal : Bytes → Value
bool_literal t = bool_value (equal t (bytes "true"))

-- `m[key] = val` of a `std::map`, in the order of the keys
unfoldable pub set_entry : Bytes → Value → Entries → Entries
set_entry key val no_entries = entry key val no_entries
set_entry key val (entry k v es) =
    let later = set_entry key val es in
    if equal k key
    then entry k val es
    else if less key k
    then entry key val (entry k v es)
    else entry k v later

abbrev pub map_entries : List (Value × Value) → Entries → Entries
map_entries [] m = m
map_entries ((key, val) ∷ rest) m = map_entries rest (set_entry (to_string key) val m)

-- `visitMapLiteral`
unfoldable pub map_literal : List (Value × Value) → Value
map_literal given = map_value (map_entries given no_entries)

abbrev pub values_of : List Value → Values
values_of [] = nil
values_of (v ∷ vs) = cons v (values_of vs)

-- `visitListLiteral`, of expressions that have a value
unfoldable pub list_literal : List Value → Value
list_literal vs = list_value (values_of vs)

-- `at` of a map and of a list, which throw where there is no element
unfoldable pub entry_at : Bytes → Entries → Result ValueError Value
entry_at key no_entries = err out_of_range
entry_at key (entry k v es) = if equal k key then ok v else entry_at key es

unfoldable pub value_at : ℕ → Values → Result ValueError Value
value_at i nil = err out_of_range
value_at zero (cons v vs) = ok v
value_at (suc i) (cons v vs) = value_at i vs

-- A negative index is a large number of 64 bits.
abbrev pub list_at : Value → Values → Result ValueError Value
list_at (Value.int_value (pos i)) vs = value_at i vs
list_at (Value.int_value (negsuc i)) vs = err out_of_range
list_at _ vs = err type_mismatch

-- `visitIndexAccess`
unfoldable pub index_access : Value → Value → Result ValueError Value
index_access (Value.map_value es) index = entry_at (to_string index) es
index_access (Value.list_value vs) index = list_at index vs
index_access _ index = err not_a_container

-- `visitVarReference`, with the name behind `$`
abbrev pub var_reference : Bytes → Interpreter → Result Thrown Value
var_reference name i = get_var name i

abbrev pub target_of : Option ℕ → Result Thrown Value
target_of (some t) = ok (target_value t)
target_of none = err target_not_found

-- A path of two names: a target of the project that the first one is, or else a name with `:` in it.
-- All projects share the map of targets.
abbrev pub by_prefix : Bytes → Bytes → Interpreter → Value → Result Thrown Value
by_prefix prefix target i (Value.project_value p) = target_of (map_find target i.targets)
by_prefix prefix target i _ = resolve_variable (qualified prefix target) i

-- `visitIdReference`
unfoldable pub id_reference : List Bytes → Interpreter → Result Thrown Value
id_reference (name ∷ []) i = resolve_variable name i
id_reference (prefix ∷ target ∷ []) i =
    resolve_variable prefix i >>= λ v. by_prefix prefix target i v
id_reference _ i = err path_too_complex

-- The value of the last pair whose key has this text.
abbrev pub last_given :
    Bytes → List (Value × Value) → Result ValueError Value → Result ValueError Value
last_given key [] found = found
last_given key ((k, v) ∷ rest) found =
    last_given key rest (if equal (to_string k) key then ok v else found)

entry_at-set_entry :
    (q k : Bytes) (v : Value) (m : Entries)
    → entry_at q (set_entry k v m) ≡ (if equal k q then ok v else entry_at q m)
unfolding entry_at set_entry
entry_at-set_entry q k v no_entries = refl
entry_at-set_entry q k v (entry k0 v0 es) = elim (Bool-cases (equal k0 k)) [
  | inl same ↦ rw (same, equal→eq k0 k same) (overwritten (equal k q))
  | inr other ↦ elim (Bool-cases (less k k0)) [
    | inl before ↦ rw (other, before) refl
    | inr behind ↦
        rw (other, behind, entry_at-set_entry q k v es)
          (ground (arith, equal→eq k q, equal→eq k0 q, equal_refl q))
  ]
]
  where
    overwritten :
        (b : Bool)
        → (if b then ok v else entry_at q es)
          ≡ (if b then ok v else (if b then ok v0 else entry_at q es))
    overwritten true = refl
    overwritten false = refl

map_entries-last :
    (q : Bytes) (given : List (Value × Value)) (m : Entries)
    → entry_at q (map_entries given m) ≡ last_given q given (entry_at q m)
map_entries-last q [] m = refl
map_entries-last q ((k, v) ∷ rest) m =
    map_entries-last q rest (set_entry (to_string k) v m)
    ∙ ap (last_given q rest) (entry_at-set_entry q (to_string k) v m)

-- A map literal gives at an index the value of the last pair whose key has the text of the index, and
-- throws where there is none.
pub index_access-map_literal :
    (given : List (Value × Value)) (index : Value)
    → index_access (map_literal given) index ≡ last_given (to_string index) given (err out_of_range)
unfolding index_access map_literal entry_at
index_access-map_literal given index = map_entries-last (to_string index) given no_entries
