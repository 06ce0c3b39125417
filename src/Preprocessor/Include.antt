-- ===== src/Preprocessor/Include.antt =====
-- What `handle_directive` of src/Preprocessor.hpp does with `include`.
use partio.Prelude.{
  ℕ, zero, suc, ◌≡◌, refl, sym, ap, ◌∙◌, Bool, false, List, [], ◌∷◌, ◌++◌, map, if◌then◌else◌,
  Result, ok, >>=-eq-ok, Bool-cases, inl, inr,
}
use partio.Prelude.Text.{bytes, equal, equal→eq}
use partio.Token.{TokenKind, Token, is_kind}
use partio.Token.Ordinal.{is_kind_iff}
use partio.StringPool.{StringPool}
use partio.Keywords.{lookup, keywords, raw_keywords}
use partio.Keywords.Sorted.{find_kind}
use partio.Keywords.Search.{lookup-keywords}
use partio.Lexer.{Lexer, Fault, next_token}
use partio.Lexer.Identifiers.{Names, next_token-Names}
use partio.SourceManager.{FileSystem, SourceBuffer}
use partio.Preprocessor.{
  IncludeEntry, Preprocessor, attach, detach, lex_top, handle_include, handle_directive,
  top_directive, handle_token, next,
}

-- `include` is in the table of keywords.
lookup-include : lookup keywords (bytes "include") ≡ TokenKind.token_kw_include
lookup-include = lookup-keywords (bytes "include") ∙ in_table
  where
    in_table : find_kind raw_keywords (bytes "include") ≡ TokenKind.token_kw_include
    in_table = unfold find_kind raw_keywords equal in refl

abbrev pub buffers : List IncludeEntry → List SourceBuffer
buffers = map (λ e. e.buffer)

module _ (fs : FileSystem) (sp : StringPool) where
  open sp use {Pool, IsValid, get_string}

  -- Between two states no file was loaded, and of the files that were open some of the last ones
  -- may be closed.
  pub record Closes (s s' : Preprocessor Pool) : Type 0 where
    pub closed : List SourceBuffer
    pub stack_is : buffers s.stack ≡ closed ++ buffers s'.stack
    pub same_files : s'.src_mgr ≡ s.src_mgr
    pub valid : IsValid s'.pool

  record TopLexed (s s' : Preprocessor Pool) (e : IncludeEntry) (below : List IncludeEntry)
      (t : Token) : Type 0 where
    entry : IncludeEntry
    stack_is : s'.stack ≡ entry ∷ below
    same_buffer : entry.buffer ≡ e.buffer
    same_files : s'.src_mgr ≡ s.src_mgr
    valid : IsValid s'.pool
    no_include :
        t.kind ≡ TokenKind.token_identifier
        → equal (get_string s'.pool t.string_id) (bytes "include") ≡ false

  not_include :
      (p : Pool) (t : Token) (l : Lexer Pool)
      → Names sp p t l
      → t.kind ≡ TokenKind.token_identifier
      → equal (get_string l.pool t.string_id) (bytes "include") ≡ false
  not_include p t l n k =
      let (text, unknown, stored) = n.name k in
      elim (Bool-cases (equal (get_string l.pool t.string_id) (bytes "include"))) [
        | inl same ↦
            let e : text ≡ bytes "include" = sym stored ∙ equal→eq _ _ same in
            cc (lookup-include, unknown, ap (lookup keywords) e)
        | inr differs ↦ differs
      ]

  lex_top_lem :
      (f : ℕ) (s s' : Preprocessor Pool) (e : IncludeEntry) (below : List IncludeEntry) (t : Token)
      → lex_top fs sp f s e below ≡ ok (t, s')
      → IsValid s.pool
      → TopLexed s s' e below t
  unfolding lex_top
  lex_top_lem f s s' e below t h v =
      let ((t', l'), lexed, rest) = >>=-eq-ok (next_token sp f (attach s.pool e.lexer)) _ h in
      let names = next_token-Names sp f (attach s.pool e.lexer) l' t' lexed v in
      let token : t' ≡ t = cc rest in
      let state : record s { pool = l'.pool; stack = record e { lexer = detach l' } ∷ below } ≡ s' =
        cc rest in
      rw (← state, ← token)
        (record {
          entry = record e { lexer = detach l' };
          stack_is = refl;
          same_buffer = refl;
          same_files = refl;
          valid = names.valid;
          no_include = not_include s.pool t' l' names;
        })

  record Unhandled (s' : Preprocessor Pool) (s : Preprocessor Pool) (stack : List IncludeEntry)
      (b : Bool) : Type 0 where
    unhandled : b ≡ false
    same_buffers : buffers s'.stack ≡ buffers stack
    same_files : s'.src_mgr ≡ s.src_mgr
    valid : IsValid s'.pool

  -- Whatever follows `#`, the preprocessor reads one token of it and does not handle the directive.
  handle_directive_lem :
      (f : ℕ) (s s' : Preprocessor Pool) (stack : List IncludeEntry) (b : Bool)
      → handle_directive fs sp f s stack ≡ ok (s', b)
      → s.stack ≡ stack
      → IsValid s.pool
      → Unhandled s' s stack b
  unfolding handle_directive
  handle_directive_lem f s s' [] b h at v =
      let same : s ≡ s' = cc h in
      rw (← same)
        (record { unhandled = cc h; same_buffers = ap buffers at; same_files = refl; valid = v })
  handle_directive_lem f s s' (e ∷ below) b h at v =
      let ((t, s₁), lexed, rest) = >>=-eq-ok (lex_top fs sp f s e below) _ h in
      let top = lex_top_lem f s s₁ e below t lexed v in
      let ignored = left_alone f s₁ s' t b rest top.no_include in
      rw (← ignored.0) (record {
        unhandled = ignored.1;
        same_buffers = ap buffers top.stack_is ∙ ap (λ x. x ∷ buffers below) top.same_buffer;
        same_files = top.same_files;
        valid = top.valid;
      })
    where
      left_alone :
          (f : ℕ) (s₁ s' : Preprocessor Pool) (t : Token) (b : Bool)
          → (if is_kind t.kind TokenKind.token_identifier
              then (if equal (get_string s₁.pool t.string_id) (bytes "include")
                  then handle_include fs sp f s₁ s₁.stack
                  else ok (s₁, false))
              else ok (s₁, false))
            ≡ ok (s', b)
          → (t.kind ≡ TokenKind.token_identifier
              → equal (get_string s₁.pool t.string_id) (bytes "include") ≡ false)
          → (s₁ ≡ s') × (b ≡ false)
      left_alone f s₁ s' t b h unnamed =
          elim (Bool-cases (is_kind t.kind TokenKind.token_identifier)) [
            | inl word ↦
                let e =
                  rw (word, unnamed ((is_kind_iff t.kind TokenKind.token_identifier).0 word)) at
                    h in
                (cc e, cc e)
            | inr other ↦ let e = rw other at h in (cc e, cc e)
          ]

  Closes-refl :
      (s s' : Preprocessor Pool)
      → buffers s'.stack ≡ buffers s.stack
      → s'.src_mgr ≡ s.src_mgr
      → IsValid s'.pool
      → Closes s s'
  Closes-refl s s' e m v = record { closed = []; stack_is = sym e; same_files = m; valid = v }

  buffers-top_directive :
      (stack : List IncludeEntry) → buffers (top_directive fs sp stack) ≡ buffers stack
  unfolding top_directive
  buffers-top_directive [] = refl
  buffers-top_directive (e ∷ es) = refl

  handle_token-Closes :
      (again : Preprocessor Pool → Result Fault (Token × Preprocessor Pool))
      → ((r r' : Preprocessor Pool) (u : Token)
          → again r ≡ ok (u, r')
          → IsValid r.pool
          → Closes r r')
      → (f : ℕ) (t u : Token) (b : SourceBuffer) (below : List IncludeEntry)
        (s s' : Preprocessor Pool)
      → handle_token fs sp again f t below s ≡ ok (u, s')
      → buffers s.stack ≡ b ∷ buffers below
      → IsValid s.pool
      → Closes s s'
  unfolding handle_token
  handle_token-Closes again keep f t u b below s s' h at v =
      elim (Bool-cases (is_kind t.kind TokenKind.token_eof)) [
        | inl eof ↦
            let rest = keep (record s { stack = below }) s' u (rw eof at h) v in
            record {
              closed = b ∷ rest.closed;
              stack_is = at ∙ ap (λ x. b ∷ x) rest.stack_is;
              same_files = rest.same_files;
              valid = rest.valid;
            }
        | inr more ↦ elim (Bool-cases (is_kind t.kind TokenKind.token_hash)) [
          | inl hash ↦
              let hashed : Preprocessor Pool = record s { stack = top_directive fs sp s.stack } in
              let ((s₁, handled), done, rest) =
                >>=-eq-ok (handle_directive fs sp f hashed hashed.stack) _ (rw (more, hash) at h) in
              let kept = handle_directive_lem f hashed s₁ hashed.stack handled done refl v in
              let same : s₁ ≡ s' = cc (rw kept.unhandled at rest) in
              rw (← same) (
                Closes-refl s s₁ (kept.same_buffers ∙ buffers-top_directive s.stack) kept.same_files
                  kept.valid)
          | inr other ↦
              let same : s ≡ s' = cc (rw (more, other) at h) in
              rw (← same) (Closes-refl s s refl refl v)
        ]
      ]

  -- No directive of any file is carried out: while the preprocessor hands out a token it loads no
  -- file and opens none. It only closes files, the last opened first, and the stack of open files
  -- keeps the others in their order. This holds for every text, `#include` lines among them, as
  -- long as the pool of strings keeps what it is given.
  pub next-Closes :
      (f rounds : ℕ) (s s' : Preprocessor Pool) (t : Token) (stack : List IncludeEntry)
      → s.stack ≡ stack
      → next fs sp f rounds s stack ≡ ok (t, s')
      → IsValid s.pool
      → Closes s s'
  unfolding next
  next-Closes f zero s s' t stack at h v = cc
  next-Closes f (suc rounds) s s' t [] at h v =
      let same : s ≡ s' = cc h in rw (← same) (Closes-refl s s refl refl v)
  next-Closes f (suc rounds) s s' t (e ∷ below) at h v =
      let ((t₁, s₁), lexed, rest) = >>=-eq-ok (lex_top fs sp f s e below) _ h in
      let top = lex_top_lem f s s₁ e below t₁ lexed v in
      let kept =
        handle_token-Closes (λ r. next fs sp f rounds r r.stack)
          (λ r r' u again valid. next-Closes f rounds r r' u r.stack refl again valid) f t₁ t
          e.buffer below s₁ s' rest
          (ap buffers top.stack_is ∙ ap (λ x. x ∷ buffers below) top.same_buffer) top.valid in
      record {
        closed = kept.closed;
        stack_is =
            ap buffers at
            ∙ sym (ap (λ x. x ∷ buffers below) top.same_buffer)
            ∙ sym (ap buffers top.stack_is)
            ∙ kept.stack_is;
        same_files = kept.same_files ∙ top.same_files;
        valid = kept.valid;
      }
