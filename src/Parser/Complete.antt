-- ===== src/Parser/Complete.antt =====
-- From the grammar to `parse_translation_unit` of src/Parser.hpp.
use partio.Prelude.{ℕ, zero, suc, ◌<◌, ◌≡◌, ap, ◌∙◌, List, ◌∷◌, arith, length, ok}
use partio.Token.{TokenKind, Token, is_kind}
use partio.AstNodes.{
  AstNode, translation_unit_node, Nodes, nil, append, push_back, append-push_back, append-nil,
}
use partio.Parser.{load, parse_declaration, parse_declarations, parse_translation_unit}
use partio.Parser.Grammar.{Declarator, Declarations, is, is_not}
use partio.Parser.Kinds.{eof-hash, eof-newline, hash-newline, type_token-other}
use partio.Parser.Grammar.{Line-length, Declarator-length}
use partio.Parser.Blocks.{parse_declarator_complete}
use partio.Parser.Directives.{parse_directive_complete}

parse_declaration_complete :
    (f : ℕ) (t u : Token) (ts : List Token) (n : AstNode) (rest : List Token)
    → u.kind ≡ TokenKind.token_identifier
    → Declarator t.string_id u.string_id ts n rest
    → length ts < f
    → parse_declaration f (load (t ∷ u ∷ ts)) ≡ ok (load rest, n)
unfolding parse_declaration
parse_declaration_complete f t u ts n rest e d h =
    rw (is u TokenKind.token_identifier e)
      (parse_declarator_complete f t.string_id u.string_id ts n rest d h)

parse_declarations_complete :
    (f : ℕ) (ts : List Token) (ns acc : Nodes)
    → Declarations ts ns
    → length ts < f
    → parse_declarations f (load ts) acc ≡ ok (append acc ns)
unfolding parse_declarations
parse_declarations_complete zero ts ns acc d h = absurd (omega arith)
parse_declarations_complete (suc f) ts ns acc Declarations.end h =
    unfold is_kind in rw (append-nil acc)
parse_declarations_complete (suc f) ts ns acc (Declarations.end_token {t} e) h =
    rw (is t TokenKind.token_eof e, append-nil acc)
parse_declarations_complete (suc f) ts ns acc (Declarations.blank {t} {ts = us} e d) h =
    rw
      (
        is_not t TokenKind.token_newline TokenKind.token_eof e eof-newline,
        is_not t TokenKind.token_newline TokenKind.token_hash e hash-newline,
        is t TokenKind.token_newline e,
      )
      (parse_declarations_complete f us ns acc d (omega arith))
parse_declarations_complete (suc f) ts ns acc (Declarations.directive {t} {ts = us} {rest} e l d)
      h =
    rw
      (
        is_not t TokenKind.token_hash TokenKind.token_eof e eof-hash,
        is t TokenKind.token_hash e,
        parse_directive_complete t us rest e l,
      )
      (parse_declarations_complete f rest ns acc d (omega (arith, Line-length us rest l)))
parse_declarations_complete (suc f) ts ns acc
      (Declarations.declaration {t} {u} {ts = us} {rest} {n} {ns = ms} ty e g d) h =
    let (no_eof, no_hash, no_newline) = type_token-other t.kind ty in
    rw
      (
        no_eof,
        no_hash,
        no_newline,
        ty,
        parse_declaration_complete f t u us n rest e g (omega arith),
      )
      (parse_declarations_complete f rest ms (push_back acc n) d
          (omega (arith, Declarator-length us rest g))
        ∙ ap ok (append-push_back acc n ms))

-- Every file that the grammar describes is parsed to the nodes that it describes.
pub parse_translation_unit_complete :
    (ts : List Token) (ns : Nodes)
    → Declarations ts ns
    → parse_translation_unit ts ≡ ok (translation_unit_node ns)
unfolding parse_translation_unit
parse_translation_unit_complete ts ns d =
    rw (parse_declarations_complete (suc (length ts)) ts ns nil d (omega arith))
