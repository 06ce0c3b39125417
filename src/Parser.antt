-- ===== src/Parser.antt =====
-- src/Parser.hpp: recursive descent over a stream of tokens. The stream (src/ITokenStream.hpp) is
-- the list of the tokens it still gives; behind the last one it gives `TOKEN_EOF` for ever.
pub mod Grammar
pub mod Kinds
pub mod Verdict
pub mod Statements
pub mod Declarators
pub mod Lines
pub mod Sound
pub mod Blocks
pub mod Directives
pub mod Complete
use partio.Prelude.{
  ℕ, zero, suc, ◌+◌, Bool, true, false, ◌||◌, List, [], ◌∷◌, if◌then◌else◌, length, Result, ok, err,
  ◌>>=◌,
}
use partio.Token.{TokenKind, Token, is_kind}
use partio.AstNodes.{
  AstNode, function_decl_node, var_decl_node, number_node, return_node, translation_unit_node,
  Nodes, nil, Pointer, null, to, Body, no_body, body, push_back,
}

-- the exceptions of the parser by what they say; `out_of_fuel` is no exception of the program
pub data ParseError : Type 0 where
  unexpected_token expected_identifier outside_of_declaration out_of_fuel : ParseError

pub record Parser : Type 0 where
  pub current_tok : Token
  pub rest : List Token

abbrev pub eof_token : Token
eof_token = record { kind = TokenKind.token_eof; string_id = 0; line = 0; column = 0; flags = 0 }

-- the parser whose current token is the first of the list
abbrev pub load : List Token → Parser
load [] = record { current_tok = eof_token; rest = [] }
load (t ∷ ts) = record { current_tok = t; rest = ts }

abbrev pub at_kind : Parser → TokenKind → Bool
at_kind p kind = is_kind p.current_tok.kind kind

abbrev pub advance : Parser → Parser
advance p = load p.rest

pub expect_and_consume : TokenKind → Parser → Result ParseError Parser
expect_and_consume kind p = if at_kind p kind then ok (advance p) else err unexpected_token

unfoldable pub is_type_token : TokenKind → Bool
is_type_token kind =
    is_kind kind TokenKind.token_kw_int
    || is_kind kind TokenKind.token_kw_char
    || is_kind kind TokenKind.token_kw_void
    || is_kind kind TokenKind.token_kw_float
    || is_kind kind TokenKind.token_kw_double
    || is_kind kind TokenKind.token_kw_bool

-- Anything but a number is passed over and gives a null pointer.
pub parse_expression : Parser → Parser × Pointer
parse_expression p =
    if at_kind p TokenKind.token_number
    then (advance p, to (number_node p.current_tok.string_id))
    else (advance p, null)

pub return_value : Parser → Parser × Pointer
return_value p = if at_kind p TokenKind.token_semicolon then (p, null) else parse_expression p

-- behind `return`
pub parse_return : Parser → Result ParseError (Parser × Pointer)
parse_return p =
    let (q, expr) = return_value p in
    expect_and_consume TokenKind.token_semicolon q >>= λ r. ok (r, to (return_node expr))

-- Any other statement is passed over token by token.
pub parse_statement : Parser → Result ParseError (Parser × Pointer)
parse_statement p =
    if at_kind p TokenKind.token_kw_return then parse_return (advance p) else ok (advance p, null)

abbrev pub push_statement : Nodes → Pointer → Nodes
push_statement statements null = statements
push_statement statements (to stmt) = push_back statements stmt

-- the loop of `parse_block`, with the statements so far
pub parse_statements : ℕ → Parser → Nodes → Result ParseError (Parser × Nodes)
parse_statements zero p statements = err out_of_fuel
parse_statements (suc f) p statements =
    let more =
      parse_statement p >>= λ (q, stmt). parse_statements f q (push_statement statements stmt) in
    if at_kind p TokenKind.token_rbrace || at_kind p TokenKind.token_eof
    then ok (p, statements)
    else more

pub parse_block : ℕ → Parser → Result ParseError (Parser × Nodes)
parse_block f p = expect_and_consume TokenKind.token_lbrace p >>= λ q.
    parse_statements f q nil >>= λ (r, statements).
    expect_and_consume TokenKind.token_rbrace r >>= λ s. ok (s, statements)

-- behind `type name ()`, at `{`
pub parse_definition : ℕ → ℕ → ℕ → Parser → Result ParseError (Parser × AstNode)
parse_definition f type_id name_id p = parse_block f p >>= λ (q, statements).
    ok (q, function_decl_node type_id name_id (body statements))

-- behind `type name ()`, at any other token
pub parse_prototype : ℕ → ℕ → Parser → Result ParseError (Parser × AstNode)
parse_prototype type_id name_id p = expect_and_consume TokenKind.token_semicolon p >>= λ q.
    ok (q, function_decl_node type_id name_id no_body)

-- behind `type name (`
pub parse_function : ℕ → ℕ → ℕ → Parser → Result ParseError (Parser × AstNode)
parse_function f type_id name_id p = expect_and_consume TokenKind.token_rparen p >>= λ q.
    if at_kind q TokenKind.token_lbrace
    then parse_definition f type_id name_id q
    else parse_prototype type_id name_id q

pub parse_variable : ℕ → ℕ → Parser → Result ParseError (Parser × AstNode)
parse_variable type_id name_id p = expect_and_consume TokenKind.token_semicolon p >>= λ q.
    ok (q, var_decl_node type_id name_id null)

-- behind `type name`
pub parse_declarator : ℕ → ℕ → ℕ → Parser → Result ParseError (Parser × AstNode)
parse_declarator f type_id name_id p =
    if at_kind p TokenKind.token_lparen
    then parse_function f type_id name_id (advance p)
    else parse_variable type_id name_id p

pub parse_declaration : ℕ → Parser → Result ParseError (Parser × AstNode)
parse_declaration f p =
    let named = advance p in
    if at_kind named TokenKind.token_identifier
    then parse_declarator f p.current_tok.string_id named.current_tok.string_id (advance named)
    else err expected_identifier

-- `while (kind != NEWLINE && kind != EOF) advance();`
pub skip_line : Token → List Token → Parser
skip_line t [] =
    if is_kind t.kind TokenKind.token_newline || is_kind t.kind TokenKind.token_eof
    then record { current_tok = t; rest = [] }
    else load []
skip_line t (u ∷ us) =
    let more = skip_line u us in
    if is_kind t.kind TokenKind.token_newline || is_kind t.kind TokenKind.token_eof
    then record { current_tok = t; rest = u ∷ us }
    else more

-- the path behind `include`
pub skip_path : Parser → Parser
skip_path p =
    if at_kind p TokenKind.token_system_include || at_kind p TokenKind.token_string
    then advance p
    else p

pub skip_include : Parser → Parser
skip_include p = if at_kind p TokenKind.token_kw_include then skip_path (advance p) else p

pub skip_newline : Parser → Parser
skip_newline p = if at_kind p TokenKind.token_newline then advance p else p

pub parse_directive : Parser → Result ParseError Parser
parse_directive p = expect_and_consume TokenKind.token_hash p >>= λ q.
    let r = skip_include q in ok (skip_newline (skip_line r.current_tok r.rest))

-- the loop of `parse_translation_unit`, with the declarations so far
pub parse_declarations : ℕ → Parser → Nodes → Result ParseError Nodes
parse_declarations zero p declarations = err out_of_fuel
parse_declarations (suc f) p declarations =
    let directive = parse_directive p >>= λ q. parse_declarations f q declarations in
    let newline = parse_declarations f (advance p) declarations in
    let declaration =
      parse_declaration f p >>= λ (q, node). parse_declarations f q (push_back declarations node) in
    if at_kind p TokenKind.token_eof
    then ok declarations
    else if at_kind p TokenKind.token_hash
    then directive
    else if at_kind p TokenKind.token_newline
    then newline
    else if is_type_token p.current_tok.kind
    then declaration
    else err outside_of_declaration

-- The constructor reads the first token. A round of fuel for each token is set aside (see `Sound`).
pub parse_translation_unit : List Token → Result ParseError AstNode
parse_translation_unit ts = parse_declarations (suc (length ts)) (load ts) nil >>= λ declarations.
    ok (translation_unit_node declarations)
