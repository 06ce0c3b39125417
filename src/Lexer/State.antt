-- ===== src/Lexer/State.antt =====
-- The state of the lexer, the classes of bytes, and the loops that move the cursor.
use partio.Prelude.{
  ℕ, zero, suc, ◌+◌, ◌%◌, ◌^◌, Bool, true, false, not, ◌&&◌, ◌||◌, [], ◌∷◌, ◌==◌, leb,
  if◌then◌else◌, Result, ok, err,
}
use partio.Prelude.Text.{Bytes}
use partio.Token.{TokenKind, Token}

pub data LexerMode : Type 0 where
  standard directive : LexerMode

pub record Lexer (P : Type 0) : Type 0 where
  pub rest : Bytes
  pub line : ℕ
  pub col : ℕ
  pub mode : LexerMode
  pub pool : P

-- `hang`: the fuel is used up. `pool_fault`: `intern` failed.
pub data Fault : Type 0 where
  hang pool_fault : Fault

abbrev pub u32_mod : ℕ
u32_mod = 2 ^ 32

abbrev pub next_col : ℕ → ℕ
next_col col = (col + 1) % u32_mod

abbrev pub is_directive : LexerMode → Bool
is_directive standard = false
is_directive directive = true

-- The character classes of the "C" locale.
abbrev pub is_alpha : ℕ → Bool
is_alpha c = (leb b'a' c && leb c b'z') || (leb b'A' c && leb c b'Z')

abbrev pub is_digit : ℕ → Bool
is_digit c = leb b'0' c && leb c b'9'

abbrev pub is_word_start : ℕ → Bool
is_word_start c = is_alpha c || c == b'_'

abbrev pub is_word : ℕ → Bool
is_word c = is_alpha c || is_digit c || c == b'_'

abbrev pub is_blank : ℕ → Bool
is_blank c = c == b' ' || c == b'\t' || c == b'\r'

abbrev pub initial : {P : Type 0} → Bytes → P → Lexer P
initial source p = record { rest = source; line = 1; col = 1; mode = standard; pool = p }

-- the kinds of the single-byte tokens of the switch
unfoldable pub punctuation : ℕ → TokenKind
punctuation c =
    if c == b'{'
    then TokenKind.token_lbrace
    else if c == b'}'
    then TokenKind.token_rbrace
    else if c == b'('
    then TokenKind.token_lparen
    else if c == b')'
    then TokenKind.token_rparen
    else if c == b';'
    then TokenKind.token_semicolon
    else if c == b'<'
    then TokenKind.token_less
    else if c == b'>'
    then TokenKind.token_greater
    else TokenKind.token_unknown

-- The loops of the form `while (cursor < end && p(peek())) advance();`: the bytes passed, those
-- left and the new column.
unfoldable pub advance_while : (ℕ → Bool) → Bytes → ℕ → Bytes × Bytes × ℕ
advance_while p [] col = ([], [], col)
advance_while p (c ∷ cs) col =
    let (text, rest, after) = advance_while p cs (next_col col) in
    if p c then (c ∷ text, rest, after) else ([], c ∷ cs, col)

abbrev pub first_byte : Bytes → ℕ
first_byte [] = 0
first_byte (c ∷ cs) = c

abbrev pub drop_one : Bytes → Bytes
drop_one [] = []
drop_one (c ∷ cs) = cs

abbrev pub starts_comment : Bytes → Bool
starts_comment (c ∷ d ∷ cs) = c == b'/' && d == b'/'
starts_comment _ = false

module _ {P : Type 0} where
  abbrev pub peek : Lexer P → ℕ
  peek l = first_byte l.rest

  unfoldable pub advance : Lexer P → Lexer P
  advance l = record l { rest = drop_one l.rest; col = next_col l.col }

  unfoldable pub set_mode : LexerMode → Lexer P → Lexer P
  set_mode m l = record l { mode = m }

  unfoldable pub run_while : (ℕ → Bool) → Lexer P → Bytes × Lexer P
  run_while p l =
      let (text, rest, after) = advance_while p l.rest l.col in
      (text, record l { rest = rest; col = after })

  -- the inner loop over a comment, with its `break` in directive mode
  unfoldable pub skip_comment : Lexer P → Lexer P
  skip_comment l = (run_while (λ c. not (c == b'\n') && not (is_directive l.mode)) l).1

  -- `skip_whitespace_and_comments`, a round for each unit of fuel
  unfoldable pub skip : ℕ → Lexer P → Result Fault (Lexer P)
  skip zero l = err hang
  skip (suc f) l =
      let past_blank = skip f (advance l) in
      let past_comment = skip f (skip_comment l) in
      elim l.rest [
        | [] ↦ ok l
        | c ∷ cs ↦
            if is_blank c
            then past_blank
            else if starts_comment (c ∷ cs)
            then past_comment
            else ok l
      ]

  -- What `lex_string` and `lex_system_include` share: an opening byte, the text up to the closing
  -- byte or the end of the line, and the closing byte if it is there.
  unfoldable pub quoted : ℕ → Lexer P → Bytes × Lexer P
  quoted close l =
      let (text, l') = run_while (λ c. not (c == close) && not (c == b'\n')) (advance l) in
      (text, if peek l' == close then advance l' else l')

  abbrev pub simple_token : TokenKind → Lexer P → ℕ → ℕ → Token
  simple_token kind l column flags = record {
    kind = kind;
    string_id = 0;
    line = l.line;
    column = column;
    flags = flags;
  }
