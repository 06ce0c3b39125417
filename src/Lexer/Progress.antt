-- ===== src/Lexer/Progress.antt =====
-- How far `next_token` of src/Lexer.hpp moves, token by token.
use partio.Prelude.{
  ℕ, zero, suc, ◌≤◌, ◌≡◌, refl, sym, ap, ◌∙◌, ◌⊎◌, inl, inr, Bool, true, false, not, ◌&&◌, [], ◌∷◌,
  ◌++◌, arith, ◌==◌, if◌then◌else◌, length, length-append, Result, ok, Bool-cases, >>=-eq-ok,
  List-cases, Option-cases,
}
use partio.Prelude.Text.{Bytes}
use partio.Token.{TokenKind, Token}
use partio.StringPool.{StringPool}
use partio.Lexer.{
  standard, directive, Lexer, Fault, is_directive, is_digit, is_word_start, is_word, simple_token,
  advance_while, peek, advance, set_mode, run_while, skip, with_text, lex_identifier, lex_number,
  quoted, lex_string, lex_system_include, lex_switch, lex_byte, lex_here, next_token,
}
use partio.Lexer.Consumes.{
  Consumes, Moves, Moves-refl, Moves-trans, Consumes-trans, advance-Moves, run_while-Moves,
  skip-Moves,
}

abbrev pub Advances : {P : Type 0} → Lexer P → Lexer P → Type 0
Advances l l' = (passed : Bytes) × Consumes l l' passed × (1 ≤ length passed)

module _ {P : Type 0} where
  Advances-trans : (l l₁ l₂ : Lexer P) → Advances l l₁ → Moves l₁ l₂ → Advances l l₂
  Advances-trans l l₁ l₂ (xs, h, pos) (ys, k) =
      (xs ++ ys, Consumes-trans l l₁ l₂ xs ys h k, omega (arith, length-append xs ys))

  Moves-Advances : (l l₁ l₂ : Lexer P) → Moves l l₁ → Advances l₁ l₂ → Advances l l₂
  Moves-Advances l l₁ l₂ (xs, h) (ys, k, pos) =
      (xs ++ ys, Consumes-trans l l₁ l₂ xs ys h k, omega (arith, length-append xs ys))

  -- only the mode or the pool differ
  abbrev SamePlace : Lexer P → Lexer P → Type 0
  SamePlace l l' = (l'.rest ≡ l.rest) × (l'.col ≡ l.col) × (l'.line ≡ l.line)

  Advances-place : (l l₁ l₂ : Lexer P) → Advances l l₁ → SamePlace l₁ l₂ → Advances l l₂
  Advances-place l l₁ l₂ (xs, h, pos) (r, c, n) = (
    xs,
    record {
      bytes_are = h.bytes_are ∙ ap (◌++◌ xs) (sym r);
      col_is = omega (arith, h.col_is);
      line_is = n ∙ h.line_is;
    },
    pos,
  )

  pub advance-Advances :
      (l : Lexer P) (c : ℕ) (cs : Bytes) → l.rest ≡ c ∷ cs → Advances l (advance l)
  advance-Advances l c cs e = (c ∷ [], advance-Moves l c cs e, omega arith)

  pub run_while-Advances :
      (p : ℕ → Bool) (l : Lexer P) (c : ℕ) (cs : Bytes)
      → l.rest ≡ c ∷ cs
      → p c ≡ true
      → Advances l (run_while p l).1
  unfolding run_while advance_while
  run_while-Advances p l c cs e h =
      ((run_while p l).0, run_while-Moves p l, rw e (rw h (omega arith)))

  closing-Moves :
      (close : ℕ) (l : Lexer P) → 1 ≤ close → Moves l (if peek l == close then advance l else l)
  closing-Moves close l h = elim (List-cases l.rest) [
    | inl empty ↦ rw (not_closing empty) (Moves-refl l)
    | inr (c, cs, e) ↦ elim (Bool-cases (peek l == close)) [
      | inl closed ↦ rw closed (c ∷ [], advance-Moves l c cs e)
      | inr open_end ↦ rw open_end (Moves-refl l)
    ]
  ]
    where
      not_closing : l.rest ≡ [] → (peek l == close) ≡ false
      not_closing e = rw e (ground arith)

  quoted-Advances :
      (close : ℕ) (l : Lexer P) (c : ℕ) (cs : Bytes)
      → 1 ≤ close
      → l.rest ≡ c ∷ cs
      → Advances l (quoted close l).1
  unfolding quoted
  quoted-Advances close l c cs h e =
      let text_end = (run_while (λ b. not (b == close) && not (b == b'\n')) (advance l)).1 in
      Advances-trans l (advance l) (quoted close l).1 (advance-Advances l c cs e) (
        Moves-trans (advance l) text_end (quoted close l).1 (_, run_while-Moves _ (advance l))
          (closing-Moves close text_end h))

module _ (sp : StringPool) where
  open sp use {Pool, intern}

  with_text-Advances :
      (kind : TokenKind) (text : Bytes) (column flags : ℕ) (l l₁ l' : Lexer Pool) (t : Token)
      → with_text sp kind text column flags l₁ ≡ ok (t, l')
      → Advances l l₁
      → Advances l l'
  unfolding with_text
  with_text-Advances kind text column flags l l₁ l' t h a =
      elim (Option-cases (intern l₁.pool text)) [
        | inl failed ↦ cc (rw (failed, with_text) at h)
        | inr ((p, id), e) ↦
            let same : record l₁ { pool = p } ≡ l' = cc (rw (e, with_text) at h) in
            Advances-place l l₁ l' a (rw (← same) (refl, refl, refl))
      ]

  lex_identifier-Advances :
      (l l' : Lexer Pool) (t : Token) (c : ℕ) (cs : Bytes)
      → l.rest ≡ c ∷ cs
      → is_word_start c ≡ true
      → lex_identifier sp l ≡ ok (t, l')
      → Advances l l'
  unfolding lex_identifier
  lex_identifier-Advances l l' t c cs e w h =
      with_text-Advances _ _ _ _ l (run_while is_word l).1 l' t h
        (run_while-Advances is_word l c cs e (ground arith))

  lex_number-Advances :
      (l l' : Lexer Pool) (t : Token) (c : ℕ) (cs : Bytes)
      → l.rest ≡ c ∷ cs
      → is_digit c ≡ true
      → lex_number sp l ≡ ok (t, l')
      → Advances l l'
  unfolding lex_number
  lex_number-Advances l l' t c cs e d h =
      with_text-Advances _ _ _ _ l (run_while is_digit l).1 l' t h
        (run_while-Advances is_digit l c cs e d)

  lex_string-Advances :
      (l l' : Lexer Pool) (t : Token) (c : ℕ) (cs : Bytes)
      → l.rest ≡ c ∷ cs
      → lex_string sp l ≡ ok (t, l')
      → Advances l l'
  unfolding lex_string
  lex_string-Advances l l' t c cs e h =
      with_text-Advances _ _ _ _ l (quoted b'"' l).1 l' t h
        (quoted-Advances b'"' l c cs (omega arith) e)

  lex_system_include-Advances :
      (l l' : Lexer Pool) (t : Token) (c : ℕ) (cs : Bytes)
      → l.rest ≡ c ∷ cs
      → lex_system_include sp l ≡ ok (t, l')
      → Advances l l'
  unfolding lex_system_include set_mode
  lex_system_include-Advances l l' t c cs e h =
      with_text-Advances _ _ _ _ l (set_mode standard (quoted b'>' l).1) l' t h (
        Advances-place l (quoted b'>' l).1 _ (quoted-Advances b'>' l c cs (omega arith) e)
          (refl, refl, refl))

  lex_switch-Advances :
      (again : Lexer Pool → Result Fault (Token × Lexer Pool)) (c column : ℕ) (l l₁ l' : Lexer Pool)
      (t : Token)
      → (c == b'\n') ≡ false
      → Advances l l₁
      → lex_switch sp again c column l₁ ≡ ok (t, l')
      → Advances l l'
  unfolding lex_switch set_mode
  lex_switch-Advances again c column l l₁ l' t n a h = elim (Bool-cases (c == b'#')) [
    | inl hash ↦
        let same : set_mode directive l₁ ≡ l' = cc (rw (n, hash) at h) in
        Advances-place l l₁ l' a (rw (← same) (refl, refl, refl))
    | inr other ↦ let same : l₁ ≡ l' = cc (rw (n, other) at h) in rw (← same) a
  ]

  lex_byte-Advances :
      (again : Lexer Pool → Result Fault (Token × Lexer Pool)) (c : ℕ) (cs : Bytes)
      (l l' : Lexer Pool) (t : Token)
      → l.rest ≡ c ∷ cs
      → lex_byte sp again c l ≡ ok (t, l')
      → Advances l l'
  unfolding lex_byte
  lex_byte-Advances again c cs l l' t e h = elim (Bool-cases (is_directive l.mode && c == b'<')) [
    | inl include ↦ lex_system_include-Advances l l' t c cs e (rw include at h)
    | inr no_include ↦ elim (Bool-cases (c == b'"')) [
      | inl quote ↦ lex_string-Advances l l' t c cs e (rw (no_include, quote) at h)
      | inr no_quote ↦ elim (Bool-cases (c == b'\n')) [
        | inl newline ↦
            let same : advance l ≡ l' = cc (rw (no_include, no_quote, newline) at h) in
            rw (← same) (advance-Advances l c cs e)
        | inr no_newline ↦ elim (Bool-cases (is_word_start c)) [
          | inl word ↦
              lex_identifier-Advances l l' t c cs e word
                (rw (no_include, no_quote, no_newline, word) at h)
          | inr no_word ↦ elim (Bool-cases (is_digit c)) [
            | inl digit ↦
                lex_number-Advances l l' t c cs e digit
                  (rw (no_include, no_quote, no_newline, no_word, digit) at h)
            | inr other ↦
                lex_switch-Advances again c l.col l (advance l) l' t no_newline
                  (advance-Advances l c cs e)
                  (rw (no_include, no_quote, no_newline, no_word, other) at h)
          ]
        ]
      ]
    ]
  ]

  pub lex_here-nil :
      (again : Lexer Pool → Result Fault (Token × Lexer Pool)) (l : Lexer Pool)
      → l.rest ≡ []
      → lex_here sp again l ≡ ok (simple_token TokenKind.token_eof l l.col 0, l)
  unfolding lex_here
  lex_here-nil again l e = simp (e, lex_here)

  pub lex_here-cons :
      (again : Lexer Pool → Result Fault (Token × Lexer Pool)) (l : Lexer Pool) (c : ℕ) (cs : Bytes)
      → l.rest ≡ c ∷ cs
      → lex_here sp again l ≡ lex_byte sp again c l
  unfolding lex_here
  lex_here-cons again l c cs e = simp (e, lex_here)

  at_end :
      (f : ℕ) (l l₁ l' : Lexer Pool) (t : Token)
      → l₁.rest ≡ []
      → Moves l l₁
      → lex_here sp (next_token sp f) l₁ ≡ ok (t, l')
      → (t.kind ≡ TokenKind.token_eof) × (l'.rest ≡ []) × Moves l l'
  at_end f l l₁ l' t empty moved here =
      let last = rw (lex_here-nil (next_token sp f) l₁ empty) at here in
      let token : simple_token TokenKind.token_eof l₁ l₁.col 0 ≡ t = cc last in
      let same : l₁ ≡ l' = cc last in (rw (← token), rw (← same) empty, rw (← same) moved)

  -- Each token is the last one, `TOKEN_EOF` with the whole source read, or takes at least one byte
  -- of the source. In both cases the cursor only moves forward over the source and the column counts
  -- the bytes passed (modulo 2 ^ 32). The line stays the same, also past newlines.
  pub next_token-Advances :
      (f : ℕ) (l l' : Lexer Pool) (t : Token)
      → next_token sp f l ≡ ok (t, l')
      → ((t.kind ≡ TokenKind.token_eof) × (l'.rest ≡ []) × Moves l l') ⊎ Advances l l'
  unfolding next_token
  next_token-Advances zero l l' t h = cc
  next_token-Advances (suc f) l l' t h =
      let (l₁, skipped, here) = >>=-eq-ok (skip (suc f) l) (lex_here sp (next_token sp f)) h in
      let moved = skip-Moves (suc f) l l₁ skipped in
      elim (List-cases l₁.rest) [
        | inl empty ↦ inl (at_end f l l₁ l' t empty moved here)
        | inr (c, cs, e) ↦ inr (
            Moves-Advances l l₁ l' moved (
              lex_byte-Advances (next_token sp f) c cs l₁ l' t e
                (rw (lex_here-cons (next_token sp f) l₁ c cs e) at here)))
      ]
