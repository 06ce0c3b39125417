-- ===== src/Parser/Directives.antt =====
-- From the grammar of a line to `parse_directive` of src/Parser.hpp.
use partio.Prelude.{◌≡◌, refl, Bool-cases, inl, inr, ◌||◌, List, [], ◌∷◌, ok}
use partio.Token.{TokenKind, Token, is_kind}
use partio.Parser.{load, skip_line, skip_path, skip_include, skip_newline, parse_directive}
use partio.Parser.Grammar.{Line, is, is_not}
use partio.Parser.Kinds.{
  newline-eof, include-eof, string-eof, kw_include-eof, include-newline, string-newline,
  kw_include-newline,
}
use partio.Parser.Blocks.{expect}

skip_line_complete :
    (ts rest : List Token)
    → Line ts rest
    → skip_newline (skip_line (load ts).current_tok (load ts).rest) ≡ load rest
unfolding skip_line skip_newline
skip_line_complete ts rest Line.file_end = unfold is_kind in refl
skip_line_complete (t ∷ []) rest (Line.newline e) =
    rw (is t TokenKind.token_newline e) (rw (is t TokenKind.token_newline e))
skip_line_complete (t ∷ u ∷ us) rest (Line.newline e) =
    rw (is t TokenKind.token_newline e) (rw (is t TokenKind.token_newline e))
skip_line_complete (t ∷ []) rest (Line.end_token e) =
    rw
      (
        is t TokenKind.token_eof e,
        is_not t TokenKind.token_eof TokenKind.token_newline e newline-eof,
      )
      (rw (is_not t TokenKind.token_eof TokenKind.token_newline e newline-eof))
skip_line_complete (t ∷ u ∷ us) rest (Line.end_token e) =
    rw
      (
        is t TokenKind.token_eof e,
        is_not t TokenKind.token_eof TokenKind.token_newline e newline-eof,
      )
      (rw (is_not t TokenKind.token_eof TokenKind.token_newline e newline-eof))
skip_line_complete (t ∷ []) rest (Line.word a b Line.file_end) = rw (a, b) (unfold is_kind in refl)
skip_line_complete (t ∷ u ∷ us) rest (Line.word a b l) =
    rw (a, b) (skip_line_complete (u ∷ us) rest l)

skip_path_complete :
    (ts rest : List Token)
    → Line ts rest
    → (us : List Token) × Line us rest × (skip_path (load ts) ≡ load us)
unfolding skip_path
skip_path_complete ts rest Line.file_end = ([], Line.file_end, unfold is_kind in refl)
skip_path_complete ts rest (Line.end_token {t} e) = (
  ts,
  Line.end_token e,
  rw (
    is_not t TokenKind.token_eof TokenKind.token_system_include e include-eof,
    is_not t TokenKind.token_eof TokenKind.token_string e string-eof,
  ),
)
skip_path_complete ts rest (Line.newline {t} e) = (
  ts,
  Line.newline e,
  rw (
    is_not t TokenKind.token_newline TokenKind.token_system_include e include-newline,
    is_not t TokenKind.token_newline TokenKind.token_string e string-newline,
  ),
)
skip_path_complete ts rest (Line.word {t} {ts = us} a b l) =
    elim (Bool-cases
      (is_kind t.kind TokenKind.token_system_include || is_kind t.kind TokenKind.token_string)) [
        | inl path ↦ (us, l, rw path)
        | inr none_here ↦ (ts, Line.word a b l, rw none_here)
      ]

skip_include_complete :
    (ts rest : List Token)
    → Line ts rest
    → (us : List Token) × Line us rest × (skip_include (load ts) ≡ load us)
unfolding skip_include
skip_include_complete ts rest Line.file_end = ([], Line.file_end, unfold is_kind in refl)
skip_include_complete ts rest (Line.end_token {t} e) = (
  ts,
  Line.end_token e,
  rw (is_not t TokenKind.token_eof TokenKind.token_kw_include e kw_include-eof),
)
skip_include_complete ts rest (Line.newline {t} e) = (
  ts,
  Line.newline e,
  rw (is_not t TokenKind.token_newline TokenKind.token_kw_include e kw_include-newline),
)
skip_include_complete ts rest (Line.word {t} {ts = us} a b l) =
    elim (Bool-cases (is_kind t.kind TokenKind.token_kw_include)) [
      | inl command ↦
          let (vs, l', skipped) = skip_path_complete us rest l in (vs, l', rw command skipped)
      | inr other ↦ (ts, Line.word a b l, rw other)
    ]

pub parse_directive_complete :
    (t : Token) (ts rest : List Token)
    → t.kind ≡ TokenKind.token_hash
    → Line ts rest
    → parse_directive (load (t ∷ ts)) ≡ ok (load rest)
unfolding parse_directive
parse_directive_complete t ts rest e l =
    let (us, l', skipped) = skip_include_complete ts rest l in
    rw (expect t TokenKind.token_hash ts e) (rw skipped (rw (skip_line_complete us rest l')))
