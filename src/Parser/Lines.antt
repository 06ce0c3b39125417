-- ===== src/Parser/Lines.antt =====
-- From `parse_directive` of src/Parser.hpp to the grammar of a line.
use partio.Prelude.{◌≡◌, refl, inl, inr, true, false, ◌||◌, List, [], ◌∷◌, ok, Bool-cases}
use partio.Token.{TokenKind, Token, is_kind}
use partio.Token.Ordinal.{is_kind_iff}
use partio.Parser.{Parser, load, skip_line, skip_path, skip_include, skip_newline, parse_directive}
use partio.Parser.Grammar.{Line, is_not}
use partio.Parser.Kinds.{
  newline-include, eof-include, newline-string, eof-string, newline-kw_include, eof-kw_include,
}
use partio.Parser.Blocks.{expect}

abbrev LineRest : List Token → Type 0
LineRest ts =
    (rest : List Token) × (skip_newline (skip_line (load ts).current_tok (load ts).rest)
      ≡ load rest)
    × Line ts rest

-- The first token ends the line, or the line goes on behind it.
line_from :
    (t : Token) (ts : List Token)
    → (is_kind t.kind TokenKind.token_newline ≡ false
        → is_kind t.kind TokenKind.token_eof ≡ false
        → skip_line t ts ≡ skip_line (load ts).current_tok (load ts).rest)
    → ((is_kind t.kind TokenKind.token_newline || is_kind t.kind TokenKind.token_eof) ≡ true
        → skip_line t ts ≡ load (t ∷ ts))
    → LineRest ts
    → LineRest (t ∷ ts)
unfolding skip_newline
line_from t ts goes stops (rest, skipped, line) =
    elim (Bool-cases (is_kind t.kind TokenKind.token_newline)) [
      | inl newline ↦ (
        ts,
        rw (stops (rw newline refl), newline),
        Line.newline ((is_kind_iff t.kind TokenKind.token_newline).0 newline),
      )
      | inr word ↦ elim (Bool-cases (is_kind t.kind TokenKind.token_eof)) [
        | inl eof ↦ (
          t ∷ ts,
          rw (stops (rw (word, eof) refl), word),
          Line.end_token ((is_kind_iff t.kind TokenKind.token_eof).0 eof),
        )
        | inr more ↦ (rest, rw (goes word more) skipped, Line.word word more line)
      ]
    ]

skip_line-Line : (ts : List Token) → LineRest ts
unfolding skip_line
skip_line-Line [] = ([], unfold skip_newline is_kind in refl, Line.file_end)
skip_line-Line (t ∷ []) =
    line_from t [] (λ a b. rw (a, b) (unfold is_kind in refl)) (λ a. rw a refl) (skip_line-Line [])
skip_line-Line (t ∷ u ∷ us) =
    line_from t (u ∷ us) (λ a b. rw (a, b) refl) (λ a. rw a refl) (skip_line-Line (u ∷ us))

-- What is passed over belongs to the line.
abbrev Within : List Token → Parser → Type 0
Within ts p =
    (us : List Token) × (p ≡ load us) × ((rest : List Token) → Line us rest → Line ts rest)

skip_path-Within : (ts : List Token) → Within ts (skip_path (load ts))
unfolding skip_path
skip_path-Within [] = ([], unfold is_kind in refl, λ rest l. l)
skip_path-Within (t ∷ ts) = elim (Bool-cases (is_kind t.kind TokenKind.token_system_include)) [
  | inl system ↦
      let k = (is_kind_iff t.kind TokenKind.token_system_include).0 system in
      (
        ts,
        rw system refl,
        λ rest l.
            Line.word
              (is_not t TokenKind.token_system_include TokenKind.token_newline k newline-include)
              (is_not t TokenKind.token_system_include TokenKind.token_eof k eof-include) l,
      )
  | inr not_system ↦ elim (Bool-cases (is_kind t.kind TokenKind.token_string)) [
    | inl local ↦
        let k = (is_kind_iff t.kind TokenKind.token_string).0 local in
        (
          ts,
          rw (not_system, local) refl,
          λ rest l.
              Line.word (is_not t TokenKind.token_string TokenKind.token_newline k newline-string)
                (is_not t TokenKind.token_string TokenKind.token_eof k eof-string) l,
        )
    | inr other ↦ (t ∷ ts, rw (not_system, other) refl, λ rest l. l)
  ]
]

skip_include-Within : (ts : List Token) → Within ts (skip_include (load ts))
unfolding skip_include
skip_include-Within [] = ([], unfold is_kind in refl, λ rest l. l)
skip_include-Within (t ∷ ts) = elim (Bool-cases (is_kind t.kind TokenKind.token_kw_include)) [
  | inl command ↦
      let k = (is_kind_iff t.kind TokenKind.token_kw_include).0 command in
      let (us, at, within) = skip_path-Within ts in
      (
        us,
        rw command at,
        λ rest l.
            Line.word
              (is_not t TokenKind.token_kw_include TokenKind.token_newline k newline-kw_include)
              (is_not t TokenKind.token_kw_include TokenKind.token_eof k eof-kw_include)
              (within rest l),
      )
  | inr other ↦ (t ∷ ts, rw other refl, λ rest l. l)
]

-- A directive never throws.
pub parse_directive-Line :
    (t : Token) (ts : List Token)
    → t.kind ≡ TokenKind.token_hash
    → (rest : List Token) × (parse_directive (load (t ∷ ts)) ≡ ok (load rest)) × Line ts rest
unfolding parse_directive
parse_directive-Line t ts e =
    let (us, at, within) = skip_include-Within ts in
    let (rest, skipped, line) = skip_line-Line us in
    (rest, rw (expect t TokenKind.token_hash ts e) (rw at (rw skipped refl)), within rest line)
