-- ===== src/Lexer.antt =====
-- src/Lexer.hpp: the lexer as a function of its state. The pointers `cursor` and `end` are the
-- bytes between them, `rest`; the pool of strings is an interface (`StringPool`).
mod State
pub mod Consumes
pub mod Progress
pub mod Total
pub mod Directive
pub mod Identifiers
pub mod Blanks
pub mod Words
pub mod SameIds
pub mod Ends
unfoldable pub use State.*
use partio.Prelude.{
  ℕ, zero, suc, ◌+◌, ◌-◌, ◌%◌, not, ◌&&◌, [], ◌∷◌, none, some, ◌==◌, if◌then◌else◌, length, Result,
  ok, err, ◌>>=◌,
}
use partio.Prelude.Text.{Bytes}
use partio.Token.{TokenKind, Token}
use partio.StringPool.{StringPool}
use partio.Keywords.{lookup, keywords}

module _ (sp : StringPool) where
  open sp use {Pool, intern}

  abbrev pub Lexed : Type 0
  Lexed = Result Fault (Token × Lexer Pool)

  -- `pool->intern(text)`, and the token with the id
  unfoldable pub with_text : TokenKind → Bytes → ℕ → ℕ → Lexer Pool → Lexed
  with_text kind text column flags l = elim (intern l.pool text) [
    | none ↦ err pool_fault
    | some (p, id) ↦ ok (
      record {
        kind = kind;
        string_id = id;
        line = l.line;
        column = column;
        flags = flags % u32_mod;
      },
      record l { pool = p },
    )
  ]

  unfoldable pub lex_identifier : Lexer Pool → Lexed
  lex_identifier l =
      let (text, l') = run_while is_word l in
      with_text (lookup keywords text) text l.col (length text) l'

  unfoldable pub lex_number : Lexer Pool → Lexed
  lex_number l =
      let (text, l') = run_while is_digit l in
      with_text TokenKind.token_number text l.col (length text) l'

  unfoldable pub lex_string : Lexer Pool → Lexed
  lex_string l =
      let (text, l') = quoted b'"' l in
      with_text TokenKind.token_string text l.col (length text % u32_mod + 2) l'

  unfoldable pub lex_system_include : Lexer Pool → Lexed
  lex_system_include l =
      let (text, l') = quoted b'>' l in
      with_text TokenKind.token_system_include text l.col (length text % u32_mod + 2)
        (set_mode standard l')

  -- `case '\n'` of the switch, after `advance()`; `again` is the recursive call of `next_token`
  unfoldable pub lex_newline_case : (Lexer Pool → Lexed) → ℕ → Lexer Pool → Lexed
  lex_newline_case again start_col l =
      let l' = record l { line = (l.line + 1) % u32_mod; col = 1 } in
      let skipped = again l' in
      if is_directive l.mode
      then ok (
        record {
          kind = TokenKind.token_newline;
          string_id = 0;
          line = (l'.line + u32_mod - 1) % u32_mod;
          column = start_col;
          flags = 1;
        },
        set_mode standard l',
      )
      else skipped

  -- the switch on `c`, after `advance()`
  unfoldable pub lex_switch : (Lexer Pool → Lexed) → ℕ → ℕ → Lexer Pool → Lexed
  lex_switch again c start_col l =
      let newline = lex_newline_case again start_col l in
      if c == b'\n'
      then newline
      else if c == b'#'
      then ok (simple_token TokenKind.token_hash l start_col 1, set_mode directive l)
      else ok (simple_token (punctuation c) l start_col 1, l)

  -- `next_token` at the byte `c`
  unfoldable pub lex_byte : (Lexer Pool → Lexed) → ℕ → Lexer Pool → Lexed
  lex_byte again c l =
      if is_directive l.mode && c == b'<'
      then lex_system_include l
      else if c == b'"'
      then lex_string l
      else if c == b'\n'
      then ok (simple_token TokenKind.token_newline (advance l) (next_col l.col) 1, advance l)
      else if is_word_start c
      then lex_identifier l
      else if is_digit c
      then lex_number l
      else lex_switch again c l.col (advance l)

  -- what `next_token` does behind the blanks
  unfoldable pub lex_here : (Lexer Pool → Lexed) → Lexer Pool → Lexed
  lex_here again l = elim l.rest [
    | [] ↦ ok (simple_token TokenKind.token_eof l l.col 0, l)
    | c ∷ cs ↦ lex_byte again c l
  ]

  unfoldable pub next_token : ℕ → Lexer Pool → Lexed
  next_token zero l = err hang
  next_token (suc f) l = skip (suc f) l >>= λ l'. lex_here (next_token f) l'
