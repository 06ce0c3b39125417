-- ===== src/Examples/Lexing.antt =====
-- Tokens of small texts, with a pool that keeps every text in a list.
use partio.Prelude.{◌⊎◌, List, ◌≡◌, refl, [], ok, err}
use partio.Prelude.Text.{Bytes, bytes}
use partio.Token.{TokenKind, Token}
use partio.Keywords.{lookup, keywords, raw_keywords}
use partio.Keywords.Sorted.{find_kind}
use partio.Keywords.Search.{lookup-keywords}
use partio.Lexer.{
  standard, directive, Lexer, hang, initial, next_token, skip, skip_comment, run_while,
  advance_while, advance, lex_here, lex_byte, lex_switch, lex_newline_case, punctuation,
}
use partio.Lexer.Progress.{Advances, next_token-Advances}
use partio.Lexer.Consumes.{Moves}
use partio.Lexer.Ends.{Ends, next_token-Ends}
use partio.Lexer.Directive.{next_token_hangs}
use partio.Examples.Pool.{list_pool}

abbrev Pool : Type 0
Pool = List Bytes

abbrev at_brace : Lexer Pool
at_brace = initial (bytes "  { x") []

abbrev past_brace : Lexer Pool
past_brace = record { rest = bytes " x"; line = 1; col = 4; mode = standard; pool = [] }

abbrev brace : Token
brace = record { kind = TokenKind.token_lbrace; string_id = 0; line = 1; column = 3; flags = 1 }

brace_is_lexed : next_token list_pool 6 at_brace ≡ ok (brace, past_brace)
unfolding next_token skip skip_comment run_while advance_while advance lex_here lex_byte lex_switch
    lex_newline_case punctuation
brace_is_lexed = refl

lookup-keywords_example : lookup keywords (bytes "while") ≡ find_kind raw_keywords (bytes "while")
lookup-keywords_example = lookup-keywords (bytes "while")

next_token-Advances_example :
    ((brace.kind ≡ TokenKind.token_eof) × (past_brace.rest ≡ []) × Moves at_brace past_brace)
    ⊎ Advances at_brace past_brace
next_token-Advances_example =
    next_token-Advances list_pool 6 at_brace past_brace brace brace_is_lexed

next_token-Ends_example : Ends list_pool at_brace
next_token-Ends_example = next_token-Ends list_pool at_brace refl

abbrev at_comment : Lexer Pool
at_comment = record { rest = bytes " // x"; line = 1; col = 2; mode = directive; pool = [] }

next_token_hangs_example : next_token list_pool 100 at_comment ≡ err hang
next_token_hangs_example =
    next_token_hangs list_pool 100 at_comment (bytes " ") (bytes " x") (refl, tt) refl refl
