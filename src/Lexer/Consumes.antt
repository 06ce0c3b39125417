-- ===== src/Lexer/Consumes.antt =====
-- The moves of the cursor and the column in the loops of src/Lexer.hpp.
use partio.Prelude.{
  ℕ, zero, suc, ◌+◌, ◌%◌, ◌≡◌, refl, sym, ◌∙◌, inl, inr, Bool, [], ◌∷◌, ◌++◌, append_assoc, arith,
  if◌then◌else◌, length, length-append, Result, ok, Bool-cases, List-cases,
}
use partio.Prelude.Text.{Bytes}
use partio.Lexer.{
  Lexer, Fault, u32_mod, is_blank, starts_comment, advance_while, advance, run_while, skip_comment,
  skip,
}

-- Between two states of the lexer `passed` was read, on the same line as far as `line` says.
pub record Consumes {P : Type 0} (l l' : Lexer P) (passed : Bytes) : Type 0 where
  pub bytes_are : l.rest ≡ passed ++ l'.rest
  pub col_is : l'.col % u32_mod ≡ (l.col + length passed) % u32_mod
  pub line_is : l'.line ≡ l.line

abbrev pub Moves : {P : Type 0} → Lexer P → Lexer P → Type 0
Moves l l' = (passed : Bytes) × Consumes l l' passed

advance_while_lem :
    (p : ℕ → Bool) (xs : Bytes) (col : ℕ)
    → (xs ≡ (advance_while p xs col).0 ++ (advance_while p xs col).1)
      × ((advance_while p xs col).2 % u32_mod ≡ (col + length (advance_while p xs col).0) % u32_mod)
unfolding advance_while
advance_while_lem p [] col = (refl, omega arith)
advance_while_lem p (c ∷ cs) col = ground (arith, advance_while_lem p cs ((col + 1) % u32_mod))

module _ {P : Type 0} where
  pub Moves-refl : (l : Lexer P) → Moves l l
  Moves-refl l = ([], record { bytes_are = refl; col_is = omega arith; line_is = refl })

  pub Consumes-trans :
      (l l₁ l₂ : Lexer P) (xs ys : Bytes)
      → Consumes l l₁ xs
      → Consumes l₁ l₂ ys
      → Consumes l l₂ (xs ++ ys)
  Consumes-trans l l₁ l₂ xs ys h k = record {
    bytes_are = rw (h.bytes_are, k.bytes_are) (sym (append_assoc xs ys l₂.rest));
    col_is = omega (arith, h.col_is, k.col_is, length-append xs ys);
    line_is = k.line_is ∙ h.line_is;
  }

  pub Moves-trans : (l l₁ l₂ : Lexer P) → Moves l l₁ → Moves l₁ l₂ → Moves l l₂
  Moves-trans l l₁ l₂ (xs, h) (ys, k) = (xs ++ ys, Consumes-trans l l₁ l₂ xs ys h k)

  pub advance-Moves :
      (l : Lexer P) (c : ℕ) (cs : Bytes) → l.rest ≡ c ∷ cs → Consumes l (advance l) (c ∷ [])
  unfolding advance
  advance-Moves l c cs h = record { bytes_are = rw h refl; col_is = omega arith; line_is = refl }

  pub run_while-Moves :
      (p : ℕ → Bool) (l : Lexer P) → Consumes l (run_while p l).1 (run_while p l).0
  unfolding run_while
  run_while-Moves p l =
      let (split, column) = advance_while_lem p l.rest l.col in
      record { bytes_are = split; col_is = column; line_is = refl }

  pub skip_comment-Moves : (l : Lexer P) → Moves l (skip_comment l)
  unfolding skip_comment
  skip_comment-Moves l = (_, run_while-Moves _ l)

  pub skip-nil : (f : ℕ) (l : Lexer P) → l.rest ≡ [] → skip (suc f) l ≡ ok l
  unfolding skip
  skip-nil f l e = simp (e, skip)

  pub skip-cons :
      (f : ℕ) (l : Lexer P) (c : ℕ) (cs : Bytes)
      → l.rest ≡ c ∷ cs
      → skip (suc f) l ≡ (
          if is_blank c
          then skip f (advance l)
          else if starts_comment (c ∷ cs)
          then skip f (skip_comment l)
          else ok l)
  unfolding skip
  skip-cons f l c cs e = simp (e, skip)

  Moves-of_ok : (l l' : Lexer P) → ◌≡◌ {A = Result Fault (Lexer P)} (ok l) (ok l') → Moves l l'
  Moves-of_ok l l' h = let e : l ≡ l' = cc in rw (← e) (Moves-refl l)

  pub skip-Moves : (f : ℕ) (l l' : Lexer P) → skip f l ≡ ok l' → Moves l l'
  skip-Moves zero l l' h = unfold skip in ground arith
  skip-Moves (suc f) l l' h = elim (List-cases l.rest) [
    | inl empty ↦ Moves-of_ok l l' (rw (skip-nil f l empty) at h)
    | inr (c, cs, e) ↦
        let h' = rw (skip-cons f l c cs e) at h in
        elim (Bool-cases (is_blank c)) [
          | inl blank ↦
              Moves-trans l (advance l) l' (c ∷ [], advance-Moves l c cs e)
                (skip-Moves f (advance l) l' (rw blank at h'))
          | inr other ↦ elim (Bool-cases (starts_comment (c ∷ cs))) [
            | inl comment ↦
                Moves-trans l (skip_comment l) l' (skip_comment-Moves l)
                  (skip-Moves f (skip_comment l) l' (rw (other, comment) at h'))
            | inr neither ↦ Moves-of_ok l l' (rw (other, neither) at h')
          ]
        ]
  ]
