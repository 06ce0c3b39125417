-- ===== src/Lexer/Blanks.antt =====
-- The loops of src/Lexer.hpp over blanks and comments, in front of a word.
use partio.Prelude.{
  ℕ, zero, suc, ◌≡◌, refl, sym, ap, ◌∙◌, Bool, true, false, not, ◌&&◌, [], ◌∷◌, ◌++◌, arith, ◌==◌,
  ok, Bool-cases, List-cases, inl, inr, ◌⊎◌, All,
}
use partio.Prelude.Text.{Bytes}
use partio.Lexer.{
  LexerMode, standard, directive, Lexer, is_blank, starts_comment, is_directive, is_word_start,
  advance, run_while, skip_comment, skip, advance_while, first_byte, drop_one,
}
use partio.Lexer.Consumes.{skip-nil, skip-cons}
use partio.Lexer.Directive.{not_comment, skip_comment-directive}

pub advance_while-All :
    (p : ℕ → Bool) (xs : Bytes) (col : ℕ) → All (λ c. p c ≡ true) (advance_while p xs col).0
unfolding advance_while
advance_while-All p [] col = tt
advance_while-All p (c ∷ cs) col = elim (Bool-cases (p c)) [
  | inl goes ↦ rw goes (goes, advance_while-All p cs _)
  | inr stops ↦ rw stops tt
]

pub advance_while-stops :
    (p : ℕ → Bool) (xs : Bytes) (col : ℕ)
    → ((advance_while p xs col).1 ≡ []) ⊎ (p (first_byte (advance_while p xs col).1) ≡ false)
unfolding advance_while
advance_while-stops p [] col = inl refl
advance_while-stops p (c ∷ cs) col = elim (Bool-cases (p c)) [
  | inl goes ↦ rw goes (advance_while-stops p cs _)
  | inr stops ↦ rw stops (inr stops)
]

pub advance_while-split :
    (p : ℕ → Bool) (xs : Bytes) (col : ℕ)
    → xs ≡ (advance_while p xs col).0 ++ (advance_while p xs col).1
unfolding advance_while
advance_while-split p [] col = refl
advance_while-split p (c ∷ cs) col = elim (Bool-cases (p c)) [
  | inl goes ↦ rw goes (ap (λ (ys : Bytes). c ∷ ys) (advance_while-split p cs _))
  | inr stops ↦ rw stops refl
]

pub advance_while-starts :
    (p : ℕ → Bool) (c : ℕ) (cs : Bytes) (col : ℕ)
    → p c ≡ true
    → first_byte (advance_while p (c ∷ cs) col).0 ≡ c
unfolding advance_while
advance_while-starts p c cs col goes = rw goes refl

mode-cases : (m : LexerMode) → (m ≡ standard) ⊎ (m ≡ directive)
mode-cases LexerMode.standard = inl refl
mode-cases LexerMode.directive = inr refl

module _ {P : Type 0} where
  comment-ends :
      (l : Lexer P)
      → l.mode ≡ standard
      → ((skip_comment l).rest ≡ []) ⊎ (first_byte (skip_comment l).rest ≡ b'\n')
  unfolding skip_comment run_while
  comment-ends l m =
      elim (advance_while-stops (λ c. not (c == b'\n') && not (is_directive l.mode)) l.rest l.col) [
        | inl empty ↦ inl empty
        | inr stops ↦ inr (is_newline _ l.mode m stops)
      ]
    where
      is_newline :
          (c : ℕ) (m : LexerMode)
          → m ≡ standard
          → (not (c == b'\n') && not (is_directive m)) ≡ false
          → c ≡ b'\n'
      is_newline c LexerMode.standard e h = ground arith
      is_newline c LexerMode.directive e h = cc

  advance-rest : (l : Lexer P) → (advance l).rest ≡ drop_one l.rest
  unfolding advance
  advance-rest l = refl

  -- At the end of a source or of a line nothing is skipped.
  stays :
      (f : ℕ) (l l' : Lexer P)
      → skip f l ≡ ok l'
      → (l.rest ≡ []) ⊎ (first_byte l.rest ≡ b'\n')
      → is_word_start (first_byte l'.rest) ≡ false
  stays zero l l' h e = unfold skip in cc
  stays (suc f) l l' h e = elim (List-cases l.rest) [
    | inl empty ↦ let same : l ≡ l' = cc (rw (skip-nil f l empty) at h) in rw (← same, empty) refl
    | inr (c, cs, is) ↦
        let newline : c ≡ b'\n' = elim e [
          | inl empty ↦ cc (empty, is)
          | inr first ↦ sym (ap first_byte is) ∙ first
        ] in
        let at_line = is ∙ ap (λ (b : ℕ). b ∷ cs) newline in
        let h' = rw (skip-cons f l b'\n' cs at_line, not_comment b'\n' cs refl) at h in
        let same : l ≡ l' = cc h' in rw (← same, at_line) refl
  ]

  -- In front of a word only blanks were skipped: behind a comment stands the end of the line.
  pub skip-blanks :
      (f : ℕ) (l l' : Lexer P)
      → skip f l ≡ ok l'
      → is_word_start (first_byte l'.rest) ≡ true
      → (blanks : Bytes) × All (λ b. is_blank b ≡ true) blanks × (l.rest ≡ blanks ++ l'.rest)
  skip-blanks zero l l' h w = unfold skip in cc
  skip-blanks (suc f) l l' h w = elim (List-cases l.rest) [
    | inl empty ↦
        let same : l ≡ l' = cc (rw (skip-nil f l empty) at h) in
        ([], tt, ap (λ (x : Lexer P). x.rest) same)
    | inr (c, cs, e) ↦
        let h' = rw (skip-cons f l c cs e) at h in
        elim (Bool-cases (is_blank c)) [
          | inl blank ↦
              let (blanks, only, split) = skip-blanks f (advance l) l' (rw blank at h') w in
              (
                c ∷ blanks,
                (blank, only),
                e
                    ∙ ap (λ (bs : Bytes). c ∷ bs)
                        (sym (ap drop_one e) ∙ sym (advance-rest l) ∙ split),
              )
          | inr other ↦ elim (Bool-cases (starts_comment (c ∷ cs))) [
            | inl comment ↦ elim (mode-cases l.mode) [
              | inl standard_mode ↦ cc (
                w,
                stays f (skip_comment l) l' (rw (other, comment) at h')
                    (comment-ends l standard_mode),
              )
              | inr directive_mode ↦
                  skip-blanks f l l'
                    (rw (other, comment, skip_comment-directive l directive_mode) at h') w
            ]
            | inr neither ↦
                let same : l ≡ l' = cc (rw (other, neither) at h') in
                ([], tt, ap (λ (x : Lexer P). x.rest) same)
          ]
        ]
  ]
