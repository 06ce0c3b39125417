-- ===== src/Preprocessor.antt =====
-- src/Preprocessor.hpp: a stack of lexers over included files. All lexers share one pool, which
-- stands here once; a lexer on the stack holds `tt` in its place. The target is never used.
pub mod Include
use partio.Prelude.{
  ℕ, zero, suc, Bool, true, false, List, [], ◌∷◌, Option, none, some, if◌then◌else◌, Result, ok,
  err, ◌>>=◌,
}
use partio.Prelude.Text.{Bytes, bytes, equal}
use partio.Token.{TokenKind, Token, is_kind}
use partio.StringPool.{StringPool}
use partio.Lexer.{LexerMode, directive, Lexer, Fault, hang, set_mode, initial, Lexed, next_token}
use partio.Parser.{eof_token}
use partio.SourceManager.{FileSystem, SourceBuffer, SourceManager, load_file}

-- the top of the stack first
pub record IncludeEntry : Type 0 where
  pub lexer : Lexer (Unit {0})
  pub buffer : SourceBuffer

pub record Preprocessor (P : Type 0) : Type 0 where
  pub src_mgr : SourceManager
  pub pool : P
  pub stack : List IncludeEntry

abbrev pub attach : {P : Type 0} → P → Lexer (Unit {0}) → Lexer P
attach p l = record { rest = l.rest; line = l.line; col = l.col; mode = l.mode; pool = p }

abbrev pub detach : {P : Type 0} → Lexer P → Lexer (Unit {0})
detach l = record { rest = l.rest; line = l.line; col = l.col; mode = l.mode; pool = tt }

module _ (fs : FileSystem) (sp : StringPool) where
  open sp use {Pool, get_string}

  abbrev pub State : Type 0
  State = Preprocessor Pool

  -- `stack.back().buffer->filepath.parent_path()`, or an empty path
  pub current_dir : List IncludeEntry → Bytes
  current_dir [] = []
  current_dir (e ∷ es) = fs.parent_path e.buffer.filepath

  push_loaded : State → SourceManager × Option SourceBuffer → State × Bool
  push_loaded s (m, none) = (record s { src_mgr = m }, false)
  push_loaded s (m, some buffer) = (
    record s {
      src_mgr = m;
      stack = record { lexer = initial buffer.source tt; buffer = buffer } ∷ s.stack;
    },
    true,
  )

  pub push_file : State → Bytes → Bool → State × Bool
  push_file s filepath is_system =
      push_loaded s (load_file fs s.src_mgr filepath (current_dir s.stack) is_system)

  -- `stack.back().lexer->next_token()`, where the stack is `e ∷ below`
  unfoldable pub lex_top :
      ℕ → State → IncludeEntry → List IncludeEntry → Result Fault (Token × State)
  lex_top f s e below = next_token sp f (attach s.pool e.lexer) >>= λ (t, l).
      ok (t, record s { pool = l.pool; stack = record e { lexer = detach l } ∷ below })

  unfoldable pub handle_include : ℕ → State → List IncludeEntry → Result Fault (State × Bool)
  handle_include f s [] = ok (s, false)
  handle_include f s (e ∷ below) = lex_top f s e below >>= λ (t, s').
      let path = get_string s'.pool t.string_id in
      let local = push_file s' path false in
      let system = push_file s' path true in
      if is_kind t.kind TokenKind.token_string
      then ok (local.0, true)
      else if is_kind t.kind TokenKind.token_system_include
      then ok (system.0, true)
      else ok (s', false)

  -- behind `#`
  unfoldable pub handle_directive : ℕ → State → List IncludeEntry → Result Fault (State × Bool)
  handle_directive f s [] = ok (s, false)
  handle_directive f s (e ∷ below) = lex_top f s e below >>= λ (t, s').
      let include = handle_include f s' s'.stack in
      if is_kind t.kind TokenKind.token_identifier
      then (if equal (get_string s'.pool t.string_id) (bytes "include")
          then include
          else ok (s', false))
      else ok (s', false)

  -- `set_mode(Directive)` on the top of the stack
  unfoldable pub top_directive : List IncludeEntry → List IncludeEntry
  top_directive [] = []
  top_directive (e ∷ es) = record e { lexer = set_mode directive e.lexer } ∷ es

  -- What `next_token` does with the token `t` that the top lexer gave; `again` goes on with the loop.
  unfoldable pub handle_token :
      (State → Result Fault (Token × State))
      → ℕ
      → Token
      → List IncludeEntry
      → State
      → Result Fault (Token × State)
  handle_token again f t below s =
      let popped = again (record s { stack = below }) in
      let stack = top_directive s.stack in
      let after_hash = handle_directive f (record s { stack = stack }) stack >>= λ (s', handled).
      let next = again s' in if handled then next else ok (t, s') in
      if is_kind t.kind TokenKind.token_eof
      then popped
      else if is_kind t.kind TokenKind.token_hash
      then after_hash
      else ok (t, s)

  -- `next_token`, a round of its loop for each unit of fuel; `f` is the fuel of the lexers
  unfoldable pub next : ℕ → ℕ → State → List IncludeEntry → Result Fault (Token × State)
  next f zero s stack = err hang
  next f (suc rounds) s [] = ok (eof_token, s)
  next f (suc rounds) s (e ∷ below) =
      lex_top f s e below >>= λ (t, s'). handle_token (λ r. next f rounds r r.stack) f t below s'
