-- ===== src/Lexer/Ends.antt =====
-- src/Lexer.hpp: token by token to the end of a source.
use partio.Prelude.{
  false, ℕ, zero, suc, ◌<◌, ◌≡◌, ◌≢◌, refl, ◌∙◌, ◌⊎◌, inl, inr, ◌∷◌, ◌&&◌, ◌==◌, arith, length,
  Result, ok, err, >>=-eq-ok, Bool-cases, List-cases, Option-cases,
}
use partio.Prelude.Text.{Bytes}
use partio.Token.{TokenKind, Token}
use partio.StringPool.{StringPool}
use partio.Lexer.{
  simple_token, lex_here, standard, Lexer, Fault, hang, pool_fault, is_blank, starts_comment,
  is_directive, is_digit, is_word, is_word_start, advance, set_mode, run_while, quoted,
  skip_comment, skip, with_text, lex_identifier, lex_number, lex_string, lex_system_include,
  lex_switch, lex_byte, next_token,
}
use partio.Lexer.Consumes.{skip-nil, skip-cons}
use partio.Lexer.Progress.{lex_here-nil, lex_here-cons, next_token-Advances}
use partio.Lexer.Total.{Advances-length, next_token_total}

module _ {P : Type 0} where
  quoted-mode : (close : ℕ) (l : Lexer P) → (quoted close l).1.mode ≡ l.mode
  unfolding quoted run_while advance
  quoted-mode close l = ground arith

  advance-mode : (l : Lexer P) → (advance l).mode ≡ l.mode
  unfolding advance
  advance-mode l = refl

  skip_comment-mode : (l : Lexer P) → (skip_comment l).mode ≡ l.mode
  unfolding skip_comment run_while
  skip_comment-mode l = refl

  mode_of_ok : (l l' : Lexer P) → ◌≡◌ {A = Result Fault (Lexer P)} (ok l) (ok l') → l'.mode ≡ l.mode
  mode_of_ok l l' h = let e : l ≡ l' = cc in rw e refl

  skip-mode : (f : ℕ) (l l' : Lexer P) → skip f l ≡ ok l' → l'.mode ≡ l.mode
  skip-mode zero l l' h = unfold skip in cc
  skip-mode (suc f) l l' h = elim (List-cases l.rest) [
    | inl empty ↦ mode_of_ok l l' (rw (skip-nil f l empty) at h)
    | inr (c, cs, e) ↦
        let h' = rw (skip-cons f l c cs e) at h in
        elim (Bool-cases (is_blank c)) [
          | inl blank ↦ skip-mode f (advance l) l' (rw blank at h') ∙ advance-mode l
          | inr other ↦ elim (Bool-cases (starts_comment (c ∷ cs))) [
            | inl comment ↦
                skip-mode f (skip_comment l) l' (rw (other, comment) at h') ∙ skip_comment-mode l
            | inr neither ↦ mode_of_ok l l' (rw (other, neither) at h')
          ]
        ]
  ]

module _ (sp : StringPool) where
  open sp use {Pool, intern}

  -- The lexer is outside of directives, or has met the `#` of one.
  abbrev InStandard : Token → Lexer Pool → Type 0
  InStandard t l' = (l'.mode ≡ standard) ⊎ (t.kind ≡ TokenKind.token_hash)

  with_text-InStandard :
      (kind : TokenKind) (text : Bytes) (column flags : ℕ) (l l' : Lexer Pool) (t : Token)
      → with_text sp kind text column flags l ≡ ok (t, l')
      → l.mode ≡ standard
      → InStandard t l'
  unfolding with_text
  with_text-InStandard kind text column flags l l' t h m =
      elim (Option-cases (intern l.pool text)) [
        | inl failed ↦ cc (rw (failed, with_text) at h)
        | inr ((p, id), e) ↦
            let stored = rw (e, with_text) at h in
            let same : record l { pool = p } ≡ l' = cc stored in inl (rw (← same) m)
      ]

  lex_switch-InStandard :
      (again : Lexer Pool → Result Fault (Token × Lexer Pool)) (c column : ℕ) (l l' : Lexer Pool)
      (t : Token)
      → (c == b'\n') ≡ false
      → lex_switch sp again c column l ≡ ok (t, l')
      → l.mode ≡ standard
      → InStandard t l'
  unfolding lex_switch
  lex_switch-InStandard again c column l l' t n h m = elim (Bool-cases (c == b'#')) [
    | inl hash ↦
        let made = rw (n, hash) at h in
        let token : simple_token TokenKind.token_hash l column 1 ≡ t = cc made in
        inr (rw (← token) refl)
    | inr other ↦
        let made = rw (n, other) at h in let same : l ≡ l' = cc made in inl (rw (← same) m)
  ]

  lex_byte-InStandard :
      (again : Lexer Pool → Result Fault (Token × Lexer Pool)) (c : ℕ) (l l' : Lexer Pool)
      (t : Token)
      → lex_byte sp again c l ≡ ok (t, l')
      → l.mode ≡ standard
      → InStandard t l'
  unfolding lex_byte lex_system_include lex_string lex_identifier lex_number set_mode run_while
      advance
  lex_byte-InStandard again c l l' t h m = elim (Bool-cases (is_directive l.mode && c == b'<')) [
    | inl include ↦
        with_text-InStandard TokenKind.token_system_include _ _ _
          (set_mode standard (quoted b'>' l).1) l' t (rw include at h) refl
    | inr no_include ↦ elim (Bool-cases (c == b'"')) [
      | inl quote ↦
          with_text-InStandard TokenKind.token_string _ _ _ (quoted b'"' l).1 l' t
            (rw (no_include, quote) at h) (quoted-mode b'"' l ∙ m)
      | inr no_quote ↦ elim (Bool-cases (c == b'\n')) [
        | inl newline ↦
            let made = rw (no_include, no_quote, newline) at h in
            let same : advance l ≡ l' = cc made in inl (rw (← same) m)
        | inr no_newline ↦ elim (Bool-cases (is_word_start c)) [
          | inl word ↦
              with_text-InStandard _ _ _ _ (run_while is_word l).1 l' t
                (rw (no_include, no_quote, no_newline, word) at h) m
          | inr no_word ↦ elim (Bool-cases (is_digit c)) [
            | inl digit ↦
                with_text-InStandard TokenKind.token_number _ _ _ (run_while is_digit l).1 l' t
                  (rw (no_include, no_quote, no_newline, no_word, digit) at h) m
            | inr other ↦
                lex_switch-InStandard again c l.col (advance l) l' t no_newline
                  (rw (no_include, no_quote, no_newline, no_word, other) at h) m
          ]
        ]
      ]
    ]
  ]

  next_token-InStandard :
      (f : ℕ) (l l' : Lexer Pool) (t : Token)
      → next_token sp f l ≡ ok (t, l')
      → l.mode ≡ standard
      → InStandard t l'
  unfolding next_token
  next_token-InStandard zero l l' t h m = cc
  next_token-InStandard (suc f) l l' t h m =
      let (l₁, skipped, here) = >>=-eq-ok (skip (suc f) l) (lex_here sp (next_token sp f)) h in
      let m' : l₁.mode ≡ standard = skip-mode (suc f) l l₁ skipped ∙ m in
      elim (List-cases l₁.rest) [
        | inl empty ↦
            let last = rw (lex_here-nil sp (next_token sp f) l₁ empty) at here in
            let same : l₁ ≡ l' = cc last in inl (rw (← same) m')
        | inr (c, cs, e) ↦
            lex_byte-InStandard (next_token sp f) c l₁ l' t
              (rw (lex_here-cons sp (next_token sp f) l₁ c cs e) at here) m'
      ]

  -- One token after another leads to the last one, to the `#` of a directive, or to a text that the pool
  -- cannot store.
  pub data Ends : Lexer Pool → Type 0 where
    at_eof :
        {l : Lexer Pool} (f : ℕ) (t : Token) (l' : Lexer Pool)
        → next_token sp f l ≡ ok (t, l')
        → t.kind ≡ TokenKind.token_eof
        → Ends l
    at_hash :
        {l : Lexer Pool} (f : ℕ) (t : Token) (l' : Lexer Pool)
        → next_token sp f l ≡ ok (t, l')
        → t.kind ≡ TokenKind.token_hash
        → Ends l
    pool_full : {l : Lexer Pool} (f : ℕ) → next_token sp f l ≡ err pool_fault → Ends l
    after :
        {l : Lexer Pool} (f : ℕ) (t : Token) (l' : Lexer Pool)
        → next_token sp f l ≡ ok (t, l')
        → Ends l'
        → Ends l

  one_token :
      (l : Lexer Pool)
      → l.mode ≡ standard
      → ((t : Token) × (l' : Lexer Pool) × (next_token sp (suc (length l.rest)) l ≡ ok (t, l')))
        ⊎ (next_token sp (suc (length l.rest)) l ≡ err pool_fault)
  one_token l m =
      split (next_token sp (suc (length l.rest)) l)
        (next_token_total sp (suc (length l.rest)) l m (omega arith))
    where
      split :
          (r : Result Fault (Token × Lexer Pool))
          → r ≢ err hang
          → ((t : Token) × (l' : Lexer Pool) × (r ≡ ok (t, l'))) ⊎ (r ≡ err pool_fault)
      split (ok (t, l')) answers = inl (t, l', refl)
      split (err Fault.hang) answers = absurd (answers refl)
      split (err Fault.pool_fault) answers = inr refl

  -- The bound on the bytes that are left.
  ends_within : (n : ℕ) (l : Lexer Pool) → l.mode ≡ standard → length l.rest < n → Ends l
  ends_within zero l m h = absurd (omega arith)
  ends_within (suc n) l m h = elim (one_token l m) [
    | inr full ↦ pool_full (suc (length l.rest)) full
    | inl (t, l', run) ↦ elim (next_token-Advances sp (suc (length l.rest)) l l' t run) [
      | inl (last, empty, moved) ↦ at_eof (suc (length l.rest)) t l' run last
      | inr further ↦
          let shorter : length l'.rest < length l.rest = Advances-length l l' further in
          elim (next_token-InStandard (suc (length l.rest)) l l' t run m) [
            | inr hash ↦ at_hash (suc (length l.rest)) t l' run hash
            | inl m' ↦ after (suc (length l.rest)) t l' run (ends_within n l' m' (omega arith))
          ]
    ]
  ]

  -- From standard mode every source is lexed, by finitely many calls of `next_token` that each come back,
  -- to its `TOKEN_EOF`, or to the first `#` that is a token, or to a text that the pool cannot store.
  pub next_token-Ends : (l : Lexer Pool) → l.mode ≡ standard → Ends l
  next_token-Ends l m = ends_within (suc (length l.rest)) l m (omega arith)
