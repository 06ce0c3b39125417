-- ===== src/Examples/Parsing.antt =====
-- A file of a directive, a prototype and a function.
use partio.Prelude.{◌⊎◌, ◌≢◌, err, ℕ, ◌≡◌, refl, List, [], ◌∷◌, ok}
use partio.Token.{TokenKind, Token, is_kind}
use partio.AstNodes.{
  function_decl_node, number_node, return_node, translation_unit_node, Nodes, nil, cons, to,
  no_body, body,
}
use partio.Parser.{ParseError, out_of_fuel, parse_translation_unit, is_type_token}
use partio.Parser.Grammar.{Value, Statements, Declarator, Line, Declarations}
use partio.Parser.Sound.{parse_translation_unit_sound}
use partio.Parser.Complete.{parse_translation_unit_complete}

abbrev token : TokenKind → ℕ → Token
token kind id = record { kind = kind; string_id = id; line = 1; column = 1; flags = 0 }

abbrev body_tokens : List Token
body_tokens =
    token TokenKind.token_kw_return 0
    ∷ token TokenKind.token_number 5
    ∷ token TokenKind.token_semicolon 0
    ∷ token TokenKind.token_rbrace 0
    ∷ []

-- `# x`, `char f();`, `int g() { return 5; }`
abbrev tokens : List Token
tokens =
    token TokenKind.token_hash 0
    ∷ token TokenKind.token_identifier 1
    ∷ token TokenKind.token_newline 0
    ∷ token TokenKind.token_kw_char 2
    ∷ token TokenKind.token_identifier 3
    ∷ token TokenKind.token_lparen 0
    ∷ token TokenKind.token_rparen 0
    ∷ token TokenKind.token_semicolon 0
    ∷ token TokenKind.token_kw_int 4
    ∷ token TokenKind.token_identifier 6
    ∷ token TokenKind.token_lparen 0
    ∷ token TokenKind.token_rparen 0
    ∷ token TokenKind.token_lbrace 0
    ∷ body_tokens

abbrev nodes : Nodes
nodes =
    cons (function_decl_node 2 3 no_body)
      (cons (function_decl_node 4 6 (body (cons (return_node (to (number_node 5))) nil))) nil)

derivation : Declarations tokens nodes
unfolding is_kind is_type_token
derivation = Declarations.directive refl (Line.word refl refl (Line.newline refl)) (
    Declarations.declaration refl refl (Declarator.prototype refl refl refl) (
      Declarations.declaration refl refl
        (Declarator.definition refl refl refl
          (Statements.return_value refl (Value.number refl) refl (Statements.close refl)))
        Declarations.end))

parse_translation_unit_complete_example :
    parse_translation_unit tokens ≡ ok (translation_unit_node nodes)
parse_translation_unit_complete_example = parse_translation_unit_complete tokens nodes derivation

parse_translation_unit_sound_example :
    ((e : ParseError) × (parse_translation_unit tokens ≡ err e) × (e ≢ out_of_fuel))
    ⊎ ((ns : Nodes) × (parse_translation_unit tokens ≡ ok (translation_unit_node ns))
        × Declarations tokens ns)
parse_translation_unit_sound_example = parse_translation_unit_sound tokens
