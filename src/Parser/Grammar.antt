-- ===== src/Parser/Grammar.antt =====
-- The language that the parser accepts, as relations between the tokens ahead, the nodes that they
-- stand for and the tokens behind them. There is no fuel and no state.
use partio.Prelude.{ℕ, length, arith, ◌≤◌, ◌≡◌, ap, ◌∙◌, true, false, List, [], ◌∷◌}
use partio.Token.{TokenKind, Token, is_kind}
use partio.Token.Ordinal.{is_kind_iff}
use partio.AstNodes.{
  AstNode, function_decl_node, var_decl_node, number_node, return_node, Nodes, nil, cons, null, to,
  no_body, body,
}
use partio.Parser.{is_type_token}

abbrev pub IsNot : TokenKind → Token → Type 0
IsNot kind t = is_kind t.kind kind ≡ false

-- A number stands for its node, and any other token for no value.
pub data Value : Token → AstNode → Type 0 where
  number :
      {t : Token}
      → t.kind ≡ TokenKind.token_number
      → Value t (return_node (to (number_node t.string_id)))
  other :
      {t : Token}
      → IsNot TokenKind.token_number t
      → IsNot TokenKind.token_semicolon t
      → Value t (return_node null)

-- the statements of a block up to its `}`
pub data Statements : List Token → Nodes → List Token → Type 0 where
  close :
      {t : Token} {rest : List Token}
      → t.kind ≡ TokenKind.token_rbrace
      → Statements (t ∷ rest) nil rest
  return_nothing :
      {t u : Token} {ts rest : List Token} {ns : Nodes}
      → t.kind ≡ TokenKind.token_kw_return
      → u.kind ≡ TokenKind.token_semicolon
      → Statements ts ns rest
      → Statements (t ∷ u ∷ ts) (cons (return_node null) ns) rest
  return_value :
      {t u v : Token} {ts rest : List Token} {n : AstNode} {ns : Nodes}
      → t.kind ≡ TokenKind.token_kw_return
      → Value u n
      → v.kind ≡ TokenKind.token_semicolon
      → Statements ts ns rest
      → Statements (t ∷ u ∷ v ∷ ts) (cons n ns) rest
  skip :
      {t : Token} {ts rest : List Token} {ns : Nodes}
      → IsNot TokenKind.token_kw_return t
      → IsNot TokenKind.token_rbrace t
      → IsNot TokenKind.token_eof t
      → Statements ts ns rest
      → Statements (t ∷ ts) ns rest

-- what stands behind `type name`
pub data Declarator : ℕ → ℕ → List Token → AstNode → List Token → Type 0 where
  variable :
      {type_id name_id : ℕ} {t : Token} {rest : List Token}
      → t.kind ≡ TokenKind.token_semicolon
      → Declarator type_id name_id (t ∷ rest) (var_decl_node type_id name_id null) rest
  prototype :
      {type_id name_id : ℕ} {t u v : Token} {rest : List Token}
      → t.kind ≡ TokenKind.token_lparen
      → u.kind ≡ TokenKind.token_rparen
      → v.kind ≡ TokenKind.token_semicolon
      → Declarator type_id name_id
          (t ∷ u ∷ v ∷ rest)
          (function_decl_node type_id name_id no_body)
          rest
  definition :
      {type_id name_id : ℕ} {t u v : Token} {ts rest : List Token} {ns : Nodes}
      → t.kind ≡ TokenKind.token_lparen
      → u.kind ≡ TokenKind.token_rparen
      → v.kind ≡ TokenKind.token_lbrace
      → Statements ts ns rest
      → Declarator type_id name_id
          (t ∷ u ∷ v ∷ ts)
          (function_decl_node type_id name_id (body ns))
          rest

-- the rest of a line with its newline, or of the file
pub data Line : List Token → List Token → Type 0 where
  file_end : Line [] []
  end_token :
      {t : Token} {rest : List Token} → t.kind ≡ TokenKind.token_eof → Line (t ∷ rest) (t ∷ rest)
  newline :
      {t : Token} {rest : List Token} → t.kind ≡ TokenKind.token_newline → Line (t ∷ rest) rest
  word :
      {t : Token} {ts rest : List Token}
      → IsNot TokenKind.token_newline t
      → IsNot TokenKind.token_eof t
      → Line ts rest
      → Line (t ∷ ts) rest

-- a whole file
pub data Declarations : List Token → Nodes → Type 0 where
  end : Declarations [] nil
  end_token :
      {t : Token} {ts : List Token} → t.kind ≡ TokenKind.token_eof → Declarations (t ∷ ts) nil
  blank :
      {t : Token} {ts : List Token} {ns : Nodes}
      → t.kind ≡ TokenKind.token_newline
      → Declarations ts ns
      → Declarations (t ∷ ts) ns
  directive :
      {t : Token} {ts rest : List Token} {ns : Nodes}
      → t.kind ≡ TokenKind.token_hash
      → Line ts rest
      → Declarations rest ns
      → Declarations (t ∷ ts) ns
  declaration :
      {t u : Token} {ts rest : List Token} {n : AstNode} {ns : Nodes}
      → is_type_token t.kind ≡ true
      → u.kind ≡ TokenKind.token_identifier
      → Declarator t.string_id u.string_id ts n rest
      → Declarations rest ns
      → Declarations (t ∷ u ∷ ts) (cons n ns)

pub is : (t : Token) (k : TokenKind) → t.kind ≡ k → is_kind t.kind k ≡ true
is t k h = (is_kind_iff t.kind k).1 h

-- Of a known kind each other test is known.
pub is_not :
    (t : Token) (k j : TokenKind) → t.kind ≡ k → is_kind k j ≡ false → is_kind t.kind j ≡ false
is_not t k j h d = ap (λ x. is_kind x j) h ∙ d

pub Line-length : (ts rest : List Token) → Line ts rest → length rest ≤ length ts
Line-length ts rest Line.file_end = omega arith
Line-length (t ∷ ts) rest (Line.end_token e) = omega arith
Line-length (t ∷ ts) rest (Line.newline e) = omega arith
Line-length (t ∷ ts) rest (Line.word a b l) = omega (arith, Line-length ts rest l)

pub Statements-length :
    (ts : List Token) (ns : Nodes) (rest : List Token)
    → Statements ts ns rest
    → length rest ≤ length ts
Statements-length ts ns rest (Statements.close e) = omega arith
Statements-length ts ns rest (Statements.return_nothing {ts = us} {ns = ms} e k d) =
    omega (arith, Statements-length us ms rest d)
Statements-length ts ns rest (Statements.return_value {ts = us} {ns = ms} e val k d) =
    omega (arith, Statements-length us ms rest d)
Statements-length ts ns rest (Statements.skip {ts = us} {ns = ms} a b c d) =
    omega (arith, Statements-length us ms rest d)

pub Declarator-length :
    {a b : ℕ} {n : AstNode} (ts rest : List Token)
    → Declarator a b ts n rest
    → length rest ≤ length ts
Declarator-length ts rest (Declarator.variable e) = omega arith
Declarator-length ts rest (Declarator.prototype e k m) = omega arith
Declarator-length ts rest (Declarator.definition {ts = us} {ns} e k m d) =
    omega (arith, Statements-length us ns rest d)
