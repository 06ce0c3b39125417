-- ===== src/Values/Print.antt =====
-- Decimal digits: `to_string` of src/Value.cpp beside `visitNumberLiteral`.
use partio.Prelude.{
  ℕ, zero, suc, ◌+◌, ◌-◌, ◌*◌, ◌/◌, ◌%◌, ◌≤◌, ◌<◌, ◌≡◌, refl, sym, ap, ◌∙◌, inl, inr, [], ◌∷◌, ◌++◌,
  append-nil, append_assoc, arith, ltb, leb, Bool-cases, ok, true,
}
use partio.Prelude.Text.{Bytes}
use partio.Prelude.Int.{pos}
use partio.Values.{int_value, decimal, to_string, stoi, number_literal}

stoi-digit : (n d : ℕ) (cs : Bytes) → d < 10 → stoi n ((48 + d) ∷ cs) ≡ stoi (n * 10 + d) cs
unfolding stoi
stoi-digit n d cs h =
    let low : leb 48 (48 + d) ≡ true = ground arith in
    let high : leb (48 + d) 57 ≡ true = ground arith in
    let value : n * 10 + (48 + d - 48) ≡ n * 10 + d = omega arith in rw (low, high, value)

-- Reading goes on behind the digits of `n` with `n`.
stoi-decimal : (f n : ℕ) (cs : Bytes) → n ≤ f → stoi 0 (decimal f n ++ cs) ≡ stoi n cs
unfolding decimal
stoi-decimal zero n cs h =
    stoi-digit 0 (n % 10) cs (omega arith) ∙ ap (λ (x : ℕ). stoi x cs) (omega arith)
stoi-decimal (suc f) n cs h = elim (Bool-cases (ltb n 10)) [
  | inl small ↦
      rw small (stoi-digit 0 n cs (ground arith) ∙ ap (λ (x : ℕ). stoi x cs) (omega arith))
  | inr large ↦
      let d = n % 10 in
      rw (large, append_assoc (decimal f (n / 10)) ((48 + d) ∷ []) cs)
        (stoi-decimal f (n / 10) ((48 + d) ∷ cs) (ground arith)
          ∙ stoi-digit (n / 10) d cs (omega arith)
          ∙ ap (λ (x : ℕ). stoi x cs) (omega arith))
]

-- The decimal digits of an `int` that is not negative are read back as the number.
pub number_literal-to_string :
    (n : ℕ)
    → n ≤ 2147483647
    → number_literal (to_string (int_value (pos n))) ≡ ok (int_value (pos n))
unfolding number_literal to_string
number_literal-to_string n h =
    let whole : stoi 0 (decimal n n) ≡ n =
      ap (stoi 0) (sym (append-nil (decimal n n)))
      ∙ stoi-decimal n n [] (omega arith)
      ∙ unfold stoi in refl in
    let fits : leb n 2147483647 ≡ true = ground arith in rw (whole, fits)
