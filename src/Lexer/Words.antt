-- ===== src/Lexer/Words.antt =====
-- The identifiers of src/Lexer.hpp as words of the source: blanks, then the longest run of letters,
-- digits and underscores, which does not start with a digit.
use partio.Prelude.{
  ℕ, zero, suc, ◌≡◌, ◌≢◌, refl, sym, ap, ◌∙◌, subst, true, false, ◌&&◌, [], ◌∷◌, ◌++◌, arith, ◌%◌,
  ◌==◌, Result, ok, >>=-eq-ok, Bool-cases, List-cases, Option-cases, inl, inr, ◌⊎◌, All, All-append,
  append_assoc,
}
use partio.Prelude.Text.{Bytes}
use partio.Token.{TokenKind, Token}
use partio.StringPool.{StringPool}
use partio.Keywords.{lookup, keywords}
use partio.Lexer.{
  directive, Lexer, Fault, u32_mod, is_blank, is_directive, is_digit, is_word_start, is_word,
  advance, set_mode, run_while, skip, with_text, lex_identifier, lex_number, lex_string,
  lex_system_include, lex_switch, lex_byte, lex_here, next_token, punctuation, simple_token,
  advance_while, first_byte,
}
use partio.Lexer.Blanks.{
  advance_while-All, advance_while-stops, advance_while-split, advance_while-starts, skip-blanks,
}
use partio.Lexer.Identifiers.{skip-pool, punctuation-ne-identifier}
use partio.Lexer.Progress.{lex_here-nil, lex_here-cons}

-- The first word of a text: `text` is what stands between the blanks and `rest`.
pub record IsWord (source text rest : Bytes) : Type 0 where
  pub blanks : Bytes
  pub only_blanks : All (λ b. is_blank b ≡ true) blanks
  pub source_is : source ≡ blanks ++ (text ++ rest)
  pub start : is_word_start (first_byte text) ≡ true
  pub only_word : All (λ b. is_word b ≡ true) text
  pub ends : is_word (first_byte rest) ≡ false

IsWord-behind :
    (source blanks after text rest : Bytes)
    → All (λ b. is_blank b ≡ true) blanks
    → source ≡ blanks ++ after
    → IsWord after text rest
    → IsWord source text rest
IsWord-behind source blanks after text rest only split w = record {
  blanks = blanks ++ w.blanks;
  only_blanks = All-append (λ b. is_blank b ≡ true) blanks w.blanks only w.only_blanks;
  source_is =
      split
      ∙ ap (λ (bs : Bytes). blanks ++ bs) w.source_is
      ∙ sym (append_assoc blanks w.blanks (text ++ rest));
  start = w.start;
  only_word = w.only_word;
  ends = w.ends;
}

no_word :
    (rest : Bytes)
    → (rest ≡ []) ⊎ (is_word (first_byte rest) ≡ false)
    → is_word (first_byte rest) ≡ false
no_word rest (inl empty) = rw empty refl
no_word rest (inr stops) = stops

start-is_word : (c : ℕ) → is_word_start c ≡ true → is_word c ≡ true
start-is_word c h = ground arith

module _ (sp : StringPool) where
  open sp use {Pool, IsValid, intern, get_string, intern-Holds, get_string-Holds}

  with_text-text :
      (kind : TokenKind) (text : Bytes) (column flags : ℕ) (l l' : Lexer Pool) (t : Token)
      → with_text sp kind text column flags l ≡ ok (t, l')
      → IsValid l.pool
      → (t.kind ≡ kind) × (l'.rest ≡ l.rest) × (get_string l'.pool t.string_id ≡ text)
  unfolding with_text
  with_text-text kind text column flags l l' t h v = elim (Option-cases (intern l.pool text)) [
    | inl failed ↦ cc (rw (failed, with_text) at h)
    | inr ((p, id), e) ↦
        let stored = rw (e, with_text) at h in
        let same : record l { pool = p } ≡ l' = cc stored in
        let token : record {
          kind = kind;
          string_id = id;
          line = l.line;
          column = column;
          flags = flags % u32_mod;
        }
            ≡ t =
          cc stored in
        rw (← same, ← token)
          (refl, refl, get_string-Holds p text id (intern-Holds l.pool text p id v e))
  ]

  with_text-kind :
      (kind : TokenKind) (text : Bytes) (column flags : ℕ) (l l' : Lexer Pool) (t : Token)
      → with_text sp kind text column flags l ≡ ok (t, l')
      → t.kind ≡ kind
  unfolding with_text
  with_text-kind kind text column flags l l' t h = elim (Option-cases (intern l.pool text)) [
    | inl failed ↦ cc (rw (failed, with_text) at h)
    | inr ((p, id), e) ↦
        let stored = rw (e, with_text) at h in
        let token : record {
          kind = kind;
          string_id = id;
          line = l.line;
          column = column;
          flags = flags % u32_mod;
        }
            ≡ t =
          cc stored in
        rw (← token) refl
  ]

  simple-kind :
      (kind : TokenKind) (l l₁ l' : Lexer Pool) (column flags : ℕ) (t : Token)
      → ◌≡◌ {A = Result Fault (Token × Lexer Pool)}
          (ok (simple_token kind l₁ column flags, l))
          (ok (t, l'))
      → t.kind ≡ kind
  simple-kind kind l l₁ l' column flags t h =
      let token : simple_token kind l₁ column flags ≡ t = cc h in rw (← token) refl

  lex_switch-kind :
      (again : Lexer Pool → Result Fault (Token × Lexer Pool)) (c column : ℕ) (l l' : Lexer Pool)
      (t : Token)
      → (c == b'\n') ≡ false
      → lex_switch sp again c column l ≡ ok (t, l')
      → t.kind ≢ TokenKind.token_identifier
  unfolding lex_switch
  lex_switch-kind again c column l l' t n h i = elim (Bool-cases (c == b'#')) [
    | inl hash ↦ cc (
      i,
      simple-kind TokenKind.token_hash (set_mode directive l) l l' column 1 t (rw (n, hash) at h),
    )
    | inr other ↦
        punctuation-ne-identifier c
          (sym (simple-kind (punctuation c) l l l' column 1 t (rw (n, other) at h)) ∙ i)
  ]

  -- Only `lex_identifier` gives an identifier.
  lex_byte-word :
      (again : Lexer Pool → Result Fault (Token × Lexer Pool)) (c : ℕ) (l l' : Lexer Pool)
      (t : Token)
      → lex_byte sp again c l ≡ ok (t, l')
      → t.kind ≡ TokenKind.token_identifier
      → (is_word_start c ≡ true) × (lex_identifier sp l ≡ ok (t, l'))
  unfolding lex_byte lex_system_include lex_string lex_number
  lex_byte-word again c l l' t h i = elim (Bool-cases (is_directive l.mode && c == b'<')) [
    | inl include ↦
        cc (i, with_text-kind TokenKind.token_system_include _ _ _ _ l' t (rw include at h))
    | inr no_include ↦ elim (Bool-cases (c == b'"')) [
      | inl quote ↦
          cc (i, with_text-kind TokenKind.token_string _ _ _ _ l' t (rw (no_include, quote) at h))
      | inr no_quote ↦ elim (Bool-cases (c == b'\n')) [
        | inl newline ↦ cc (
          i,
          simple-kind TokenKind.token_newline (advance l) (advance l) l' _ 1 t
              (rw (no_include, no_quote, newline) at h),
        )
        | inr no_newline ↦ elim (Bool-cases (is_word_start c)) [
          | inl word ↦ (word, rw (no_include, no_quote, no_newline, word) at h)
          | inr no_word ↦ elim (Bool-cases (is_digit c)) [
            | inl digit ↦ cc (
              i,
              with_text-kind TokenKind.token_number _ _ _ _ l' t
                  (rw (no_include, no_quote, no_newline, no_word, digit) at h),
            )
            | inr other ↦ absurd (
                lex_switch-kind again c l.col (advance l) l' t no_newline
                  (rw (no_include, no_quote, no_newline, no_word, other) at h) i)
          ]
        ]
      ]
    ]
  ]

  lex_identifier-IsWord :
      (c : ℕ) (cs : Bytes) (l l' : Lexer Pool) (t : Token)
      → l.rest ≡ c ∷ cs
      → is_word_start c ≡ true
      → lex_identifier sp l ≡ ok (t, l')
      → IsValid l.pool
      → t.kind ≡ TokenKind.token_identifier
      → (text : Bytes) × (IsWord l.rest text l'.rest)
        × (lookup keywords text ≡ TokenKind.token_identifier)
        × (get_string l'.pool t.string_id ≡ text)
  unfolding lex_identifier run_while
  lex_identifier-IsWord c cs l l' t e start h v i =
      let text = (advance_while is_word l.rest l.col).0 in
      let rest = (advance_while is_word l.rest l.col).1 in
      let (kind, left, given) =
        with_text-text (lookup keywords text) text l.col _ (run_while is_word l).1 l' t h v in
      let left_is : l'.rest ≡ rest = left in
      let first : first_byte text ≡ c =
        ap (λ (bs : Bytes). first_byte (advance_while is_word bs l.col).0) e
        ∙ advance_while-starts is_word c cs l.col (start-is_word c start) in
      (
        text,
        record {
          blanks = [];
          only_blanks = tt;
          source_is =
              advance_while-split is_word l.rest l.col
              ∙ ap (λ (bs : Bytes). text ++ bs) (sym left_is);
          start = ap is_word_start first ∙ start;
          only_word = advance_while-All is_word l.rest l.col;
          ends =
              ap (λ (bs : Bytes). is_word (first_byte bs)) left_is
              ∙ no_word rest (advance_while-stops is_word l.rest l.col);
        },
        sym kind ∙ i,
        given,
      )

  -- With a valid pool, a token that is an identifier is the first word of the source behind blanks, with all its bytes:
  -- it is no keyword, the cursor stands directly behind it, and the pool gives it back for the id of
  -- the token.
  pub next_token-IsWord :
      (f : ℕ) (l l' : Lexer Pool) (t : Token)
      → next_token sp f l ≡ ok (t, l')
      → IsValid l.pool
      → t.kind ≡ TokenKind.token_identifier
      → (text : Bytes) × (IsWord l.rest text l'.rest)
        × (lookup keywords text ≡ TokenKind.token_identifier)
        × (get_string l'.pool t.string_id ≡ text)
  unfolding next_token
  next_token-IsWord zero l l' t h v i = cc
  next_token-IsWord (suc f) l l' t h v i =
      let (l₁, skipped, here) = >>=-eq-ok (skip (suc f) l) (lex_here sp (next_token sp f)) h in
      elim (List-cases l₁.rest) [
        | inl empty ↦ cc (
          i,
          simple-kind TokenKind.token_eof l₁ l₁ l' l₁.col 0 t
              (rw (lex_here-nil sp (next_token sp f) l₁ empty) at here),
        )
        | inr (c, cs, e) ↦
            let (start, word) =
              lex_byte-word (next_token sp f) c l₁ l' t
                (rw (lex_here-cons sp (next_token sp f) l₁ c cs e) at here) i in
            let (text, is, no_keyword, given) =
              lex_identifier-IsWord c cs l₁ l' t e start word
                (subst IsValid (sym (skip-pool (suc f) l l₁ skipped)) v) i in
            let (blanks, only, split) =
              skip-blanks (suc f) l l₁ skipped (ap is_word_start (ap first_byte e) ∙ start) in
            (
              text,
              IsWord-behind l.rest blanks l₁.rest text l'.rest only split is,
              no_keyword,
              given,
            )
      ]
