-- ===== src/Parser/Blocks.antt =====
-- From the grammar to the declarations of src/Parser.hpp.
use partio.Prelude.{ℕ, zero, suc, ◌<◌, ◌≡◌, ap, ◌∙◌, false, List, ◌∷◌, arith, length, ok}
use partio.Token.{TokenKind, Token, is_kind}
use partio.AstNodes.{
  AstNode, return_node, Nodes, nil, Pointer, null, to, append, push_back, append-push_back,
  append-nil,
}
use partio.Parser.{
  Parser, load, expect_and_consume, parse_expression, return_value, parse_return, parse_statement,
  push_statement, parse_statements, parse_block, parse_definition, parse_prototype, parse_function,
  parse_variable, parse_declarator,
}
use partio.Parser.Grammar.{Value, Statements, Declarator, is, is_not}
use partio.Parser.Kinds.{
  semicolon-number, rbrace-return, eof-return, lparen-semicolon, lbrace-semicolon,
}

pub expect :
    (t : Token) (k : TokenKind) (ts : List Token)
    → t.kind ≡ k
    → expect_and_consume k (load (t ∷ ts)) ≡ ok (load ts)
unfolding expect_and_consume
expect t k ts e = rw (is t k e)

parse_return-Value :
    (u v : Token) (ts : List Token) (n : AstNode)
    → Value u n
    → v.kind ≡ TokenKind.token_semicolon
    → parse_return (load (u ∷ v ∷ ts)) ≡ ok (load ts, to n)
unfolding parse_return return_value parse_expression expect_and_consume
parse_return-Value u v ts n (Value.number e) h = rw (
  is_not u TokenKind.token_number TokenKind.token_semicolon e semicolon-number,
  is u TokenKind.token_number e,
  is v TokenKind.token_semicolon h,
)
parse_return-Value u v ts n (Value.other a b) h = rw (b, a, is v TokenKind.token_semicolon h)

parse_statements-step :
    (f : ℕ) (t : Token) (ts us : List Token) (acc : Nodes) (stmt : Pointer)
    → is_kind t.kind TokenKind.token_rbrace ≡ false
    → is_kind t.kind TokenKind.token_eof ≡ false
    → parse_statement (load (t ∷ ts)) ≡ ok (load us, stmt)
    → parse_statements (suc f) (load (t ∷ ts)) acc
      ≡ parse_statements f (load us) (push_statement acc stmt)
unfolding parse_statements
parse_statements-step f t ts us acc stmt a b h = rw (a, b, h)

-- a statement `return ...;` in front of the others
return-step :
    (f : ℕ) (t : Token) (ts us : List Token) (acc : Nodes) (n : AstNode)
    → t.kind ≡ TokenKind.token_kw_return
    → parse_return (load ts) ≡ ok (load us, to n)
    → parse_statements (suc f) (load (t ∷ ts)) acc ≡ parse_statements f (load us) (push_back acc n)
return-step f t ts us acc n e h =
    parse_statements-step f t ts us acc (to n)
      (is_not t TokenKind.token_kw_return TokenKind.token_rbrace e rbrace-return)
      (is_not t TokenKind.token_kw_return TokenKind.token_eof e eof-return)
      (unfold parse_statement in rw (is t TokenKind.token_kw_return e, h))

parse_return-nothing :
    (u : Token) (ts : List Token)
    → u.kind ≡ TokenKind.token_semicolon
    → parse_return (load (u ∷ ts)) ≡ ok (load ts, to (return_node null))
unfolding parse_return return_value expect_and_consume
parse_return-nothing u ts h =
    rw (is u TokenKind.token_semicolon h) (rw (is u TokenKind.token_semicolon h))

parse_statements_complete :
    (f : ℕ) (ts : List Token) (ns : Nodes) (rest : List Token) (acc : Nodes)
    → Statements ts ns rest
    → length ts < f
    → (p : Parser) × (parse_statements f (load ts) acc ≡ ok (p, append acc ns))
      × (expect_and_consume TokenKind.token_rbrace p ≡ ok (load rest))
parse_statements_complete zero ts ns rest acc d h = absurd (omega arith)
parse_statements_complete (suc f) ts ns rest acc (Statements.close {t} e) h = (
  load ts,
  unfold parse_statements in rw (is t TokenKind.token_rbrace e, append-nil acc),
  unfold expect_and_consume in rw (is t TokenKind.token_rbrace e),
)
parse_statements_complete (suc f) ts ns rest acc
      (Statements.return_nothing {t} {u} {ts = us} {ns = ms} e k d) h =
    let (p, parsed, closed) =
      parse_statements_complete f us ms rest (push_back acc (return_node null)) d (omega arith) in
    (
      p,
      return-step f t (u ∷ us) us acc (return_node null) e (parse_return-nothing u us k)
          ∙ parsed
          ∙ ap (λ (m : Nodes). ok (p, m)) (append-push_back acc (return_node null) ms),
      closed,
    )
parse_statements_complete (suc f) ts ns rest acc
      (Statements.return_value {t} {u} {v} {ts = us} {n} {ns = ms} e val k d) h =
    let (p, parsed, closed) =
      parse_statements_complete f us ms rest (push_back acc n) d (omega arith) in
    (
      p,
      return-step f t (u ∷ v ∷ us) us acc n e (parse_return-Value u v us n val k)
          ∙ parsed
          ∙ ap (λ (m : Nodes). ok (p, m)) (append-push_back acc n ms),
      closed,
    )
parse_statements_complete (suc f) ts ns rest acc (Statements.skip {t} {ts = us} {ns = ms} a b c d)
      h =
    let (p, parsed, closed) = parse_statements_complete f us ms rest acc d (omega arith) in
    (
      p,
      parse_statements-step f t us us acc null b c (unfold parse_statement in rw a) ∙ parsed,
      closed,
    )

parse_block_complete :
    (f : ℕ) (t : Token) (ts : List Token) (ns : Nodes) (rest : List Token)
    → t.kind ≡ TokenKind.token_lbrace
    → Statements ts ns rest
    → length ts < f
    → parse_block f (load (t ∷ ts)) ≡ ok (load rest, ns)
unfolding parse_block
parse_block_complete f t ts ns rest e d h =
    let (p, parsed, closed) = parse_statements_complete f ts ns rest nil d h in
    rw (expect t TokenKind.token_lbrace ts e) (rw parsed (rw closed))

pub parse_declarator_complete :
    (f a b : ℕ) (ts : List Token) (n : AstNode) (rest : List Token)
    → Declarator a b ts n rest
    → length ts < f
    → parse_declarator f a b (load ts) ≡ ok (load rest, n)
unfolding parse_declarator parse_variable parse_function parse_prototype parse_definition
parse_declarator_complete f a b ts n rest (Declarator.variable {t} e) h = rw (
  is_not t TokenKind.token_semicolon TokenKind.token_lparen e lparen-semicolon,
  expect t TokenKind.token_semicolon rest e,
)
parse_declarator_complete f a b ts n rest (Declarator.prototype {t} {u} {v} e k m) h =
    rw (is t TokenKind.token_lparen e, expect u TokenKind.token_rparen (v ∷ rest) k)
      (rw (is_not v TokenKind.token_semicolon TokenKind.token_lbrace m lbrace-semicolon)
        (rw (expect v TokenKind.token_semicolon rest m)))
parse_declarator_complete f a b ts n rest (Declarator.definition {t} {u} {v} {ts = us} {ns} e k m d)
      h =
    rw (is t TokenKind.token_lparen e, expect u TokenKind.token_rparen (v ∷ us) k)
      (rw (is v TokenKind.token_lbrace m)
        (rw (parse_block_complete f v us ns rest m d (omega arith))))
