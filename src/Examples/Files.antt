-- ===== src/Examples/Files.antt =====
-- A file system of one file, and a preprocessor over it.
use partio.Prelude.{◌≡◌, refl, List, [], ◌∷◌, some, ok, true, false}
use partio.Prelude.Text.{Bytes, bytes, equal, less}
use partio.Token.{TokenKind, Token, is_kind}
use partio.Lexer.{
  directive, Lexer, next_token, initial, skip, skip_comment, run_while, advance_while, advance,
  lex_here, lex_byte, lex_switch, lex_newline_case, lex_identifier, with_text, punctuation,
  set_mode,
}
use partio.Keywords.{lookup, keywords}
use partio.SourceManager.{
  FileSystem, SourceBuffer, SourceManager, load_file, load_canonical, load_new, resolve,
  search_paths, find_loaded,
}
use partio.SourceManager.Cache.{load_file-again}
use partio.Preprocessor.{
  IncludeEntry, Preprocessor, next, lex_top, handle_directive, handle_token, top_directive,
}
use partio.Preprocessor.Include.{Closes, next-Closes}
use partio.Examples.Pool.{list_pool}

abbrev one_file : FileSystem
one_file = record {
  join = λ dir name. name;
  parent_path = λ path. bytes "/";
  exists = λ path. equal path (bytes "a.h");
  canonical = λ path. path;
  contents = λ path. some (bytes "#include <a.h>\n;");
}

abbrev fresh : SourceManager
fresh = record { loaded_files = []; include_paths = bytes "/usr" ∷ [] }

abbrev buffer : SourceBuffer
buffer = record { filepath = bytes "a.h"; source = bytes "#include <a.h>\n;" }

abbrev loaded : SourceManager
loaded = record fresh { loaded_files = (bytes "a.h", buffer) ∷ [] }

is_loaded : load_file one_file fresh (bytes "a.h") (bytes "/") false ≡ (loaded, some buffer)
unfolding load_file load_canonical load_new resolve search_paths find_loaded equal
is_loaded = refl

load_file-again_example :
    load_file one_file loaded (bytes "a.h") (bytes "/usr") true ≡ (loaded, some buffer)
load_file-again_example =
    load_file-again one_file fresh loaded (bytes "a.h") (bytes "a.h") (bytes "/") (bytes "/usr")
      false true buffer is_loaded (unfold resolve search_paths equal in refl)
      (unfold resolve search_paths equal in refl) (unfold resolve search_paths equal in refl)

abbrev entry : IncludeEntry
entry = record { lexer = initial buffer.source tt; buffer = buffer }

abbrev start : Preprocessor (List Bytes)
start = record { src_mgr = loaded; pool = []; stack = entry ∷ [] }

-- `#` is handed out; `include` is read and dropped.
abbrev hash : Token
hash = record { kind = TokenKind.token_hash; string_id = 0; line = 1; column = 1; flags = 1 }

abbrev behind : Lexer (Unit {0})
behind = record { rest = bytes " <a.h>\n;"; line = 1; col = 9; mode = directive; pool = tt }

abbrev after : Preprocessor (List Bytes)
after = record start {
  pool = bytes "include" ∷ [];
  stack = (record { lexer = behind; buffer = buffer }) ∷ [];
}

hash_is_next : next one_file list_pool 30 3 start start.stack ≡ ok (hash, after)
unfolding next lex_top handle_directive handle_token top_directive next_token skip skip_comment
    run_while advance_while advance lex_here lex_byte lex_switch lex_newline_case lex_identifier
    with_text punctuation set_mode is_kind lookup keywords less equal
hash_is_next = refl

next-Closes_example : Closes one_file list_pool start after
next-Closes_example =
    next-Closes one_file list_pool 30 3 start after hash start.stack refl hash_is_next tt
