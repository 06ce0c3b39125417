-- ===== src/Examples/Naming.antt =====
-- Two identifiers of a source, lexed into a small pool of strings.
use partio.Prelude.{arith, ◌≡◌, ◌↔◌, refl, ◌∙◌, Result, ok, err}
use partio.Prelude.Text.{Bytes, bytes, equal}
use partio.Token.{TokenKind, Token}
use partio.StringPool.Memory.{chunk_read, chunk_write, data_of, encode_id, id_chunk, id_offset}
use partio.StringPool.Operations.{
  TextPool, add_text, aligned_used, find_text, first_slot, free_slot, get_string, grow_table,
  hash_fnv1a, holds_text, intern, is_crowded, look_up, make_room, move_entries, move_entry,
  new_pool, next_slot, roomy, store_text,
}
use partio.StringPool.Start.{text_pool, text_pool-HasOneId, or_empty, new_pool-IsValid}
use partio.Keywords.Search.{lookup-keywords}
use partio.Keywords.Sorted.{find_kind}
use partio.Keywords.{raw_keywords, keywords, lookup}
use partio.Lexer.{
  Lexer, Fault, initial, simple_token, next_token, skip, skip_comment, run_while, advance_while,
  advance, lex_here, lex_byte, lex_identifier, lex_switch, with_text, set_mode, quoted,
}
use partio.Lexer.Words.{IsWord, next_token-IsWord}
use partio.Lexer.SameIds.{none_yet, next_token-same_id}

abbrev source : Lexer TextPool
source = initial (bytes " ab ab") (new_pool 4)

abbrev Lexed : Type 0
Lexed = Result Fault (Token × Lexer TextPool)

abbrev token_of : Lexed → Token
token_of (ok (t, l)) = t
token_of (err e) = simple_token TokenKind.token_eof source 0 0

abbrev lexer_of : Lexed → Lexer TextPool
lexer_of (ok (t, l)) = l
lexer_of (err e) = source

abbrev first : Lexed
first = next_token text_pool 8 source

abbrev second : Lexed
second = next_token text_pool 8 (lexer_of first)

first-run : next_token text_pool 8 source ≡ ok (token_of first, lexer_of first)
unfolding next_token skip skip_comment run_while advance_while advance lex_here lex_byte
    lex_identifier lex_switch with_text set_mode quoted new_pool intern get_string grow_table roomy
    is_crowded move_entries move_entry free_slot first_slot next_slot hash_fnv1a find_text
    holds_text look_up add_text make_room store_text aligned_used encode_id id_chunk id_offset
    chunk_read chunk_write data_of equal
first-run = refl

second-run : next_token text_pool 8 (lexer_of first) ≡ ok (token_of second, lexer_of second)
unfolding next_token skip skip_comment run_while advance_while advance lex_here lex_byte
    lex_identifier lex_switch with_text set_mode quoted new_pool intern get_string grow_table roomy
    is_crowded move_entries move_entry free_slot first_slot next_slot hash_fnv1a find_text
    holds_text look_up add_text make_room store_text aligned_used encode_id id_chunk id_offset
    chunk_read chunk_write data_of equal
second-run = refl

not_listed : find_kind raw_keywords (bytes "ab") ≡ TokenKind.token_identifier
unfolding find_kind raw_keywords equal
not_listed = refl

first-kind : (token_of first).kind ≡ TokenKind.token_identifier
unfolding next_token skip skip_comment run_while advance_while advance lex_here lex_byte
    lex_identifier lex_switch with_text set_mode quoted new_pool intern get_string grow_table roomy
    is_crowded move_entries move_entry free_slot first_slot next_slot hash_fnv1a find_text
    holds_text look_up add_text make_room store_text aligned_used encode_id id_chunk id_offset
    chunk_read chunk_write data_of equal
first-kind = lookup-keywords (bytes "ab") ∙ not_listed

second-kind : (token_of second).kind ≡ TokenKind.token_identifier
unfolding next_token skip skip_comment run_while advance_while advance lex_here lex_byte
    lex_identifier lex_switch with_text set_mode quoted new_pool intern get_string grow_table roomy
    is_crowded move_entries move_entry free_slot first_slot next_slot hash_fnv1a find_text
    holds_text look_up add_text make_room store_text aligned_used encode_id id_chunk id_offset
    chunk_read chunk_write data_of equal
second-kind = lookup-keywords (bytes "ab") ∙ not_listed

next_token-same_id_example :
    (first_text second_text : Bytes) × (IsWord source.rest first_text (lexer_of first).rest)
    × (IsWord (lexer_of first).rest second_text (lexer_of second).rest)
    × (((token_of first).string_id ≡ (token_of second).string_id) ↔ (first_text ≡ second_text))
next_token-same_id_example =
    next_token-same_id text_pool source (lexer_of first) (lexer_of first) (lexer_of second) 8 8
      (token_of first) (token_of second) text_pool-HasOneId
      (new_pool-IsValid 4 (2, omega arith, refl)) first-run none_yet second-run first-kind
      second-kind

next_token-IsWord_example :
    (text : Bytes) × (IsWord source.rest text (lexer_of first).rest)
    × (lookup keywords text ≡ TokenKind.token_identifier)
    × (or_empty (get_string (lexer_of first).pool (token_of first).string_id) ≡ text)
next_token-IsWord_example =
    next_token-IsWord text_pool 8 source (lexer_of first) (token_of first) first-run
      (new_pool-IsValid 4 (2, omega arith, refl)) first-kind
