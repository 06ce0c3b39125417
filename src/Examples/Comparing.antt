-- ===== src/Examples/Comparing.antt =====
-- Values of build files compared.
use partio.Prelude.{◌≡◌, ◌≢◌, ◌↔◌, refl, true, ok}
use partio.Prelude.Text.{bytes, equal}
use partio.Prelude.Int.{negsuc}
use partio.Values.{
  Value, nil, cons, no_entries, entry, bool_value, int_value, string_value, list_value, map_value,
}
use partio.Values.Equality.{same, equal_to, not_equal_to, comparison_expr, comparison_expr-eq}

abbrev flags : Value
flags = list_value (cons (string_value (bytes "-O2")) (cons (int_value (negsuc 4)) nil))

abbrev options : Value
options = map_value (entry (bytes "flags") flags no_entries)

abbrev other_options : Value
other_options = map_value (entry (bytes "flags") (list_value nil) no_entries)

differs_inside : comparison_expr not_equal_to options other_options ≡ ok (bool_value true)
unfolding comparison_expr same equal
differs_inside = refl

same_inside : comparison_expr equal_to options options ≡ ok (bool_value true)
unfolding comparison_expr same equal
same_inside = refl

comparison_expr-eq_example :
    ((comparison_expr equal_to options other_options ≡ ok (bool_value true))
      ↔ (options ≡ other_options))
    × ((comparison_expr not_equal_to options other_options ≡ ok (bool_value true))
        ↔ (options ≢ other_options))
comparison_expr-eq_example = comparison_expr-eq options other_options
