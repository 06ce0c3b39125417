-- ===== src/Lexer/SameIds.antt =====
-- src/Lexer.hpp with src/StringPool.hpp: the ids of the identifiers of a source.
use partio.Prelude.{ℕ, ◌≡◌, ◌↔◌, sym, ap, ◌∙◌, subst, ok}
use partio.Prelude.Text.{Bytes}
use partio.Token.{TokenKind, Token}
use partio.StringPool.{StringPool, HasOneId}
use partio.Lexer.{Lexer, next_token}
use partio.Lexer.Words.{IsWord, next_token-IsWord}
use partio.Lexer.Identifiers.{Names, next_token-Names}

module _ (sp : StringPool) where
  open sp use {Pool, IsValid, Holds, get_string, get_string-Holds}

  -- The states between which tokens were lexed.
  pub data Lexes (l : Lexer Pool) : Lexer Pool → Type 0 where
    none_yet : Lexes l l
    one_more :
        {m n : Lexer Pool} (f : ℕ) (t : Token)
        → Lexes l m
        → next_token sp f m ≡ ok (t, n)
        → Lexes l n

  Lexes-IsValid : {l m : Lexer Pool} → IsValid l.pool → Lexes l m → IsValid m.pool
  Lexes-IsValid v none_yet = v
  Lexes-IsValid v (one_more {m} {n} f t before run) =
      (next_token-Names sp f m n t run (Lexes-IsValid v before)).valid

  Lexes-kept :
      {l m : Lexer Pool}
      → IsValid l.pool
      → Lexes l m
      → (s : Bytes) (j : ℕ) → Holds l.pool s j
      → Holds m.pool s j
  Lexes-kept v none_yet s j h = h
  Lexes-kept v (one_more {m} {n} f t before run) s j h =
      (next_token-Names sp f m n t run (Lexes-IsValid v before)).kept s j
        (Lexes-kept v before s j h)

  -- With a valid pool in which a text has one id, two identifiers have the same id exactly where the words of
  -- the source that they were read from are the same, however many tokens stand between them.
  pub next_token-same_id :
      (l m n k : Lexer Pool) (f g : ℕ) (t u : Token)
      → HasOneId sp
      → IsValid l.pool
      → next_token sp f l ≡ ok (t, m)
      → Lexes m n
      → next_token sp g n ≡ ok (u, k)
      → t.kind ≡ TokenKind.token_identifier
      → u.kind ≡ TokenKind.token_identifier
      → (first second : Bytes) × (IsWord l.rest first m.rest)
        × (IsWord n.rest second k.rest)
        × ((t.string_id ≡ u.string_id) ↔ (first ≡ second))
  next_token-same_id l m n k f g t u promise v run between run' i j =
      let before : Names sp l.pool t m = next_token-Names sp f l m t run v in
      let vn : IsValid n.pool = Lexes-IsValid before.valid between in
      let after : Names sp n.pool u k = next_token-Names sp g n k u run' vn in
      let (first, is_first, key, given) = next_token-IsWord sp f l m t run v i in
      let (second, is_second, key', given') = next_token-IsWord sp g n k u run' vn j in
      let early : Holds k.pool first t.string_id =
        subst (λ (s : Bytes). Holds k.pool s t.string_id) given
          (after.kept _ _ (Lexes-kept before.valid between _ _ (before.held i))) in
      let late : Holds k.pool second u.string_id =
        subst (λ (s : Bytes). Holds k.pool s u.string_id) given' (after.held j) in
      (
        first,
        second,
        is_first,
        is_second,
        (
          λ e.
              sym (get_string-Holds k.pool _ _ early)
              ∙ ap (get_string k.pool) e
              ∙ get_string-Holds k.pool _ _ late,
          λ e.
              promise.one_id k.pool second t.string_id u.string_id after.valid
                (subst (λ (s : Bytes). Holds k.pool s t.string_id) e early) late,
        ),
      )
