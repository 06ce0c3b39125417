-- ===== src/Lexer/Identifiers.antt =====
-- The pool of strings behind a token of src/Lexer.hpp, and the text that it holds for an identifier.
use partio.Prelude.{
  ℕ, zero, suc, ◌≡◌, ◌≢◌, refl, sym, subst, ◌∙◌, Bool, false, ◌&&◌, ◌∷◌, arith, ◌%◌, ◌==◌, Result,
  ok, >>=-eq-ok, Bool-cases, List-cases, Option-cases, inl, inr,
}
use partio.Prelude.Text.{Bytes}
use partio.Token.{TokenKind, Token}
use partio.StringPool.{StringPool}
use partio.Keywords.{lookup, keywords}
use partio.Lexer.{
  LexerMode, standard, directive, Lexer, Fault, u32_mod, is_blank, starts_comment, is_directive,
  is_digit, is_word_start, is_word, advance, set_mode, run_while, quoted, skip_comment, skip,
  with_text, lex_identifier, lex_number, lex_string, lex_system_include, lex_switch, lex_byte,
  lex_here, next_token, punctuation, simple_token,
}
use partio.Lexer.Consumes.{skip-nil, skip-cons}
use partio.Lexer.Progress.{lex_here-nil, lex_here-cons}

pub punctuation-ne-identifier : (c : ℕ) → punctuation c ≢ TokenKind.token_identifier
unfolding punctuation
punctuation-ne-identifier c = ground arith

module _ {P : Type 0} where
  advance-pool : (l : Lexer P) → (advance l).pool ≡ l.pool
  unfolding advance
  advance-pool l = refl

  set_mode-pool : (m : LexerMode) (l : Lexer P) → (set_mode m l).pool ≡ l.pool
  unfolding set_mode
  set_mode-pool m l = refl

  run_while-pool : (p : ℕ → Bool) (l : Lexer P) → (run_while p l).1.pool ≡ l.pool
  unfolding run_while
  run_while-pool p l = refl

  skip_comment-pool : (l : Lexer P) → (skip_comment l).pool ≡ l.pool
  unfolding skip_comment run_while
  skip_comment-pool l = refl

  quoted-pool : (close : ℕ) (l : Lexer P) → (quoted close l).1.pool ≡ l.pool
  unfolding quoted run_while advance
  quoted-pool close l = ground arith

  pool_of_ok : (l l' : Lexer P) → ◌≡◌ {A = Result Fault (Lexer P)} (ok l) (ok l') → l'.pool ≡ l.pool
  pool_of_ok l l' h = let e : l ≡ l' = cc in rw e refl

  pub skip-pool : (f : ℕ) (l l' : Lexer P) → skip f l ≡ ok l' → l'.pool ≡ l.pool
  skip-pool zero l l' h = unfold skip in cc
  skip-pool (suc f) l l' h = elim (List-cases l.rest) [
    | inl empty ↦ pool_of_ok l l' (rw (skip-nil f l empty) at h)
    | inr (c, cs, e) ↦
        let h' = rw (skip-cons f l c cs e) at h in
        elim (Bool-cases (is_blank c)) [
          | inl blank ↦ skip-pool f (advance l) l' (rw blank at h') ∙ advance-pool l
          | inr other ↦ elim (Bool-cases (starts_comment (c ∷ cs))) [
            | inl comment ↦
                skip-pool f (skip_comment l) l' (rw (other, comment) at h') ∙ skip_comment-pool l
            | inr neither ↦ pool_of_ok l l' (rw (other, neither) at h')
          ]
        ]
  ]

module _ (sp : StringPool) where
  open sp use {
    Pool, IsValid, Holds, intern, get_string, intern-IsValid, intern-Holds, intern-kept,
    get_string-Holds,
  }

  -- The pool stays valid and keeps the texts of `p`, and an identifier has a text that the table does
  -- not know.
  pub record Names (p : Pool) (t : Token) (l' : Lexer Pool) : Type 0 where
    pub valid : IsValid l'.pool
    pub kept : (s : Bytes) (j : ℕ) → Holds p s j → Holds l'.pool s j
    pub held :
        t.kind ≡ TokenKind.token_identifier
        → Holds l'.pool (get_string l'.pool t.string_id) t.string_id
    pub name :
        t.kind ≡ TokenKind.token_identifier
        → (text : Bytes) × (lookup keywords text ≡ TokenKind.token_identifier)
          × (get_string l'.pool t.string_id ≡ text)

  with_text-Names :
      (kind : TokenKind) (text : Bytes) (column flags : ℕ) (l l' : Lexer Pool) (t : Token)
      → with_text sp kind text column flags l ≡ ok (t, l')
      → IsValid l.pool
      → (kind ≡ TokenKind.token_identifier → lookup keywords text ≡ TokenKind.token_identifier)
      → Names l.pool t l'
  unfolding with_text
  with_text-Names kind text column flags l l' t h v k = elim (Option-cases (intern l.pool text)) [
    | inl failed ↦ cc (rw (failed, with_text) at h)
    | inr ((p, id), e) ↦
        let stored = rw (e, with_text) at h in
        let stored_text : Holds p text id = intern-Holds l.pool text p id v e in
        let text_is : get_string p id ≡ text = get_string-Holds p text id stored_text in
        let same : record l { pool = p } ≡ l' = cc stored in
        let token : record {
          kind = kind;
          string_id = id;
          line = l.line;
          column = column;
          flags = flags % u32_mod;
        }
            ≡ t =
          cc stored in
        rw (← same, ← token)
          (record {
            valid = intern-IsValid l.pool text p id v e;
            kept = intern-kept l.pool text p id v e;
            held = λ i. subst (λ (s : Bytes). Holds p s id) (sym text_is) stored_text;
            name = λ i. (text, k i, text_is);
          })
  ]

  simple-Names :
      (kind : TokenKind) (l l₁ l' : Lexer Pool) (column flags : ℕ) (t : Token)
      → ◌≡◌ {A = Result Fault (Token × Lexer Pool)}
          (ok (simple_token kind l₁ column flags, l))
          (ok (t, l'))
      → IsValid l.pool
      → kind ≢ TokenKind.token_identifier
      → Names l.pool t l'
  simple-Names kind l l₁ l' column flags t h v ne =
      let same : l ≡ l' = cc h in
      let token : simple_token kind l₁ column flags ≡ t = cc h in
      rw (← same, ← token)
        (record {
          valid = v;
          kept = λ s j x. x;
          held = λ i. absurd (ne i);
          name = λ i. absurd (ne i);
        })

  lex_switch-Names :
      (again : Lexer Pool → Result Fault (Token × Lexer Pool)) (c column : ℕ) (l l' : Lexer Pool)
      (t : Token)
      → (c == b'\n') ≡ false
      → lex_switch sp again c column l ≡ ok (t, l')
      → IsValid l.pool
      → Names l.pool t l'
  unfolding lex_switch
  lex_switch-Names again c column l l' t n h v = elim (Bool-cases (c == b'#')) [
    | inl hash ↦
        subst (λ (p : Pool). Names p t l') (set_mode-pool directive l)
          (simple-Names TokenKind.token_hash (set_mode directive l) l l' column 1 t
            (rw (n, hash) at h) (subst IsValid (sym (set_mode-pool directive l)) v) (λ e. cc))
    | inr other ↦
        simple-Names (punctuation c) l l l' column 1 t (rw (n, other) at h) v
          (punctuation-ne-identifier c)
  ]

  lex_identifier-Names :
      (l l' : Lexer Pool) (t : Token)
      → lex_identifier sp l ≡ ok (t, l')
      → IsValid l.pool
      → Names l.pool t l'
  unfolding lex_identifier
  lex_identifier-Names l l' t h v =
      subst (λ (p : Pool). Names p t l') (run_while-pool is_word l)
        (with_text-Names (lookup keywords (run_while is_word l).0) (run_while is_word l).0 _ _
          (run_while is_word l).1 l' t h (subst IsValid (sym (run_while-pool is_word l)) v)
          (λ e. e))

  lex_number-Names :
      (l l' : Lexer Pool) (t : Token)
      → lex_number sp l ≡ ok (t, l')
      → IsValid l.pool
      → Names l.pool t l'
  unfolding lex_number
  lex_number-Names l l' t h v =
      subst (λ (p : Pool). Names p t l') (run_while-pool is_digit l)
        (with_text-Names TokenKind.token_number _ _ _ (run_while is_digit l).1 l' t h
          (subst IsValid (sym (run_while-pool is_digit l)) v) (λ e. cc))

  lex_string-Names :
      (l l' : Lexer Pool) (t : Token)
      → lex_string sp l ≡ ok (t, l')
      → IsValid l.pool
      → Names l.pool t l'
  unfolding lex_string
  lex_string-Names l l' t h v =
      subst (λ (p : Pool). Names p t l') (quoted-pool b'"' l)
        (with_text-Names TokenKind.token_string _ _ _ (quoted b'"' l).1 l' t h
          (subst IsValid (sym (quoted-pool b'"' l)) v) (λ e. cc))

  lex_system_include-Names :
      (l l' : Lexer Pool) (t : Token)
      → lex_system_include sp l ≡ ok (t, l')
      → IsValid l.pool
      → Names l.pool t l'
  unfolding lex_system_include set_mode
  lex_system_include-Names l l' t h v =
      subst (λ (p : Pool). Names p t l') (quoted-pool b'>' l)
        (with_text-Names TokenKind.token_system_include _ _ _ (set_mode standard (quoted b'>' l).1)
          l' t h (subst IsValid (sym (quoted-pool b'>' l)) v) (λ e. cc))

  lex_byte-Names :
      (again : Lexer Pool → Result Fault (Token × Lexer Pool)) (c : ℕ) (l l' : Lexer Pool)
      (t : Token)
      → lex_byte sp again c l ≡ ok (t, l')
      → IsValid l.pool
      → Names l.pool t l'
  unfolding lex_byte
  lex_byte-Names again c l l' t h v = elim (Bool-cases (is_directive l.mode && c == b'<')) [
    | inl include ↦ lex_system_include-Names l l' t (rw include at h) v
    | inr no_include ↦ elim (Bool-cases (c == b'"')) [
      | inl quote ↦ lex_string-Names l l' t (rw (no_include, quote) at h) v
      | inr no_quote ↦ elim (Bool-cases (c == b'\n')) [
        | inl newline ↦
            subst (λ (p : Pool). Names p t l') (advance-pool l)
              (simple-Names TokenKind.token_newline (advance l) (advance l) l' _ 1 t
                (rw (no_include, no_quote, newline) at h) (subst IsValid (sym (advance-pool l)) v)
                (λ e. cc))
        | inr no_newline ↦ elim (Bool-cases (is_word_start c)) [
          | inl word ↦
              lex_identifier-Names l l' t (rw (no_include, no_quote, no_newline, word) at h) v
          | inr no_word ↦ elim (Bool-cases (is_digit c)) [
            | inl digit ↦
                lex_number-Names l l' t (rw (no_include, no_quote, no_newline, no_word, digit) at h)
                  v
            | inr other ↦
                subst (λ (p : Pool). Names p t l') (advance-pool l)
                  (lex_switch-Names again c l.col (advance l) l' t no_newline
                    (rw (no_include, no_quote, no_newline, no_word, other) at h)
                    (subst IsValid (sym (advance-pool l)) v))
          ]
        ]
      ]
    ]
  ]

  -- A token that is an identifier has a text that is no keyword, and the pool gives back that text
  -- for its id; the texts that the pool had keep their ids.
  pub next_token-Names :
      (f : ℕ) (l l' : Lexer Pool) (t : Token)
      → next_token sp f l ≡ ok (t, l')
      → IsValid l.pool
      → Names l.pool t l'
  unfolding next_token
  next_token-Names zero l l' t h v = cc
  next_token-Names (suc f) l l' t h v =
      let (l₁, skipped, here) = >>=-eq-ok (skip (suc f) l) (lex_here sp (next_token sp f)) h in
      let v' : IsValid l₁.pool = subst IsValid (sym (skip-pool (suc f) l l₁ skipped)) v in
      subst (λ (p : Pool). Names p t l') (skip-pool (suc f) l l₁ skipped)
        (elim (List-cases l₁.rest) [
          | inl empty ↦
              simple-Names TokenKind.token_eof l₁ l₁ l' l₁.col 0 t
                (rw (lex_here-nil sp (next_token sp f) l₁ empty) at here) v' (λ e. cc)
          | inr (c, cs, e) ↦
              lex_byte-Names (next_token sp f) c l₁ l' t
                (rw (lex_here-cons sp (next_token sp f) l₁ c cs e) at here) v'
        ])
