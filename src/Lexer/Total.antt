-- ===== src/Lexer/Total.antt =====
-- The end of the loops of src/Lexer.hpp outside of directives.
use partio.Prelude.{
  ℕ, zero, suc, ◌<◌, ◌≡◌, ◌≢◌, ap, true, false, not, ◌&&◌, [], ◌∷◌, arith, ◌==◌, length,
  length-append, Result, ok, err, Bool-cases, List-cases, inl, inr,
}
use partio.Prelude.Text.{Bytes}
use partio.Token.{TokenKind, Token}
use partio.StringPool.{StringPool}
use partio.Lexer.{
  standard, Lexer, Fault, hang, is_blank, starts_comment, is_directive, advance, run_while,
  skip_comment, skip, with_text, lex_identifier, lex_number, lex_string, lex_system_include,
  lex_switch, lex_byte, next_token,
}
use partio.Lexer.Consumes.{skip-nil, skip-cons}
use partio.Lexer.Progress.{
  Advances, advance-Advances, run_while-Advances, lex_here-nil, lex_here-cons,
}

slash_first : (c : ℕ) (cs : Bytes) → starts_comment (c ∷ cs) ≡ true → c ≡ b'/'
slash_first c [] h = ground arith
slash_first c (d ∷ ds) h = ground arith

module _ {P : Type 0} where
  pub Advances-length : (l l' : Lexer P) → Advances l l' → length l'.rest < length l.rest
  Advances-length l l' (xs, h, pos) = omega (arith, ap length h.bytes_are, length-append xs l'.rest)

  skip_comment-Advances :
      (l : Lexer P) (c : ℕ) (cs : Bytes)
      → l.mode ≡ standard
      → l.rest ≡ c ∷ cs
      → starts_comment (c ∷ cs) ≡ true
      → Advances l (skip_comment l)
  unfolding skip_comment
  skip_comment-Advances l c cs m e h =
      run_while-Advances (λ b. not (b == b'\n') && not (is_directive l.mode)) l c cs e
        (ground (arith, slash_first c cs h))

  skip_total :
      (f : ℕ) (l : Lexer P)
      → l.mode ≡ standard
      → length l.rest < f
      → (l' : Lexer P) × (skip f l ≡ ok l')
  skip_total zero l m h = absurd (omega arith)
  skip_total (suc f) l m h = elim (List-cases l.rest) [
    | inl empty ↦ (l, skip-nil f l empty)
    | inr (c, cs, e) ↦ elim (Bool-cases (is_blank c)) [
      | inl blank ↦
          let shorter = Advances-length l (advance l) (advance-Advances l c cs e) in
          let (l', done) = skip_total f (advance l) (unfold advance in m) (omega arith) in
          (l', rw (skip-cons f l c cs e, blank) done)
      | inr other ↦ elim (Bool-cases (starts_comment (c ∷ cs))) [
        | inl comment ↦
            let shorter =
              Advances-length l (skip_comment l) (skip_comment-Advances l c cs m e comment) in
            let (l', done) =
              skip_total f (skip_comment l) (unfold skip_comment run_while in m) (omega arith) in
            (l', rw (skip-cons f l c cs e, other, comment) done)
        | inr neither ↦ (l, rw (skip-cons f l c cs e, other, neither))
      ]
    ]
  ]

module _ (sp : StringPool) where
  open sp use {Pool, intern}

  with_text-answers :
      (kind : TokenKind) (text : Bytes) (column flags : ℕ) (l : Lexer Pool)
      → with_text sp kind text column flags l ≢ err hang
  unfolding with_text
  with_text-answers kind text column flags l = ground arith

  lex_identifier-answers : (l : Lexer Pool) → lex_identifier sp l ≢ err hang
  unfolding lex_identifier
  lex_identifier-answers l = with_text-answers _ _ _ _ _

  lex_number-answers : (l : Lexer Pool) → lex_number sp l ≢ err hang
  unfolding lex_number
  lex_number-answers l = with_text-answers _ _ _ _ _

  lex_string-answers : (l : Lexer Pool) → lex_string sp l ≢ err hang
  unfolding lex_string
  lex_string-answers l = with_text-answers _ _ _ _ _

  lex_system_include-answers : (l : Lexer Pool) → lex_system_include sp l ≢ err hang
  unfolding lex_system_include
  lex_system_include-answers l = with_text-answers _ _ _ _ _

  lex_switch-answers :
      (again : Lexer Pool → Result Fault (Token × Lexer Pool)) (c column : ℕ) (l : Lexer Pool)
      → (c == b'\n') ≡ false
      → lex_switch sp again c column l ≢ err hang
  unfolding lex_switch
  lex_switch-answers again c column l n = ground arith

  lex_byte-answers :
      (again : Lexer Pool → Result Fault (Token × Lexer Pool)) (c : ℕ) (l : Lexer Pool)
      → lex_byte sp again c l ≢ err hang
  unfolding lex_byte
  lex_byte-answers again c l = ground (
    arith,
    lex_system_include-answers l,
    lex_string-answers l,
    lex_identifier-answers l,
    lex_number-answers l,
    lex_switch-answers again c l.col (advance l),
  )

  -- In standard mode `next_token` ends with a round of fuel for each byte of the source: it gives a
  -- token, unless the pool cannot store the text.
  pub next_token_total :
      (f : ℕ) (l : Lexer Pool)
      → l.mode ≡ standard
      → length l.rest < f
      → next_token sp f l ≢ err hang
  unfolding next_token
  next_token_total zero l m h = absurd (omega arith)
  next_token_total (suc f) l m h =
      let (l', skipped) = skip_total (suc f) l m h in
      rw skipped (elim (List-cases l'.rest) [
        | inl empty ↦ rw (lex_here-nil sp (next_token sp f) l' empty) (ground arith)
        | inr (c, cs, e) ↦
            rw (lex_here-cons sp (next_token sp f) l' c cs e)
              (lex_byte-answers (next_token sp f) c l')
      ])
