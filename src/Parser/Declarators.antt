-- ===== src/Parser/Declarators.antt =====
-- From `parse_declaration` of src/Parser.hpp, behind type and name, to the grammar.
use partio.Prelude.{
  ℕ, ◌<◌, ◌≡◌, refl, sym, subst, ap, inl, inr, List, [], ◌∷◌, ok, Bool-cases, arith, length,
}
use partio.Token.{TokenKind, Token, is_kind}
use partio.Token.Ordinal.{is_kind_iff}
use partio.AstNodes.{AstNode, function_decl_node, body, Nodes}
use partio.Parser.{
  Parser, load, at_kind, expect_and_consume, parse_block, parse_definition, parse_prototype,
  parse_function, parse_variable, parse_declarator,
}
use partio.Parser.Grammar.{Declarator}
use partio.Parser.Kinds.{semicolon-eof, rparen-eof, lparen-eof}
use partio.Parser.Verdict.{Decided, >>=-Decided, Passed, expect_and_consume-Decided}
use partio.Parser.Statements.{IsBlock, parse_block-Decided}

-- what stands behind `type name`
pub data IsDeclarator (a b : ℕ) (ts : List Token) : Parser × AstNode → Type 0 where
  declarator :
      {n : AstNode} (rest : List Token)
      → Declarator a b ts n rest
      → IsDeclarator a b ts (load rest, n)

parse_variable-Decided :
    (a b : ℕ) (ts : List Token) → Decided (parse_variable a b (load ts)) (IsDeclarator a b ts)
unfolding parse_variable
parse_variable-Decided a b ts =
    >>=-Decided (expect_and_consume TokenKind.token_semicolon (load ts)) _
      (Passed TokenKind.token_semicolon ts) (IsDeclarator a b ts)
      (expect_and_consume-Decided TokenKind.token_semicolon ts semicolon-eof)
      (λ q passed.
        rw (passed.at, passed.tokens_are)
          (inr (_, refl, declarator passed.rest (Declarator.variable passed.kind_is))))

definition_end :
    (a b : ℕ) (t u : Token) (ts : List Token) (p : Parser) (ns : Nodes)
    → t.kind ≡ TokenKind.token_lparen
    → u.kind ≡ TokenKind.token_rparen
    → IsBlock ts (p, ns)
    → Decided (ok (p, function_decl_node a b (body ns))) (IsDeclarator a b (t ∷ u ∷ ts))
definition_end a b t u ts p ns e k (IsBlock.block v us rest at l d) = inr (
  (load rest, _),
  refl,
  declarator rest (
      subst (λ x. Declarator a b (t ∷ u ∷ x) (function_decl_node a b (body ns)) rest) (sym at)
        (Declarator.definition e k l d)),
)

parse_function-Decided :
    (f a b : ℕ) (t : Token) (ts : List Token)
    → t.kind ≡ TokenKind.token_lparen
    → length ts < f
    → Decided (parse_function f a b (load ts)) (IsDeclarator a b (t ∷ ts))
unfolding parse_function parse_definition parse_prototype
parse_function-Decided f a b t ts e h =
    >>=-Decided (expect_and_consume TokenKind.token_rparen (load ts)) _
      (Passed TokenKind.token_rparen ts) (IsDeclarator a b (t ∷ ts))
      (expect_and_consume-Decided TokenKind.token_rparen ts rparen-eof)
      (λ q passed.
        let rest = passed.rest in
        rw (passed.at, passed.tokens_are)
          (elim (Bool-cases (at_kind (load rest) TokenKind.token_lbrace)) [
            | inl brace ↦ rw brace (
                >>=-Decided (parse_block f (load rest)) _ (IsBlock rest)
                  (IsDeclarator a b (t ∷ passed.token ∷ rest))
                  (parse_block-Decided f rest (omega (arith, ap length passed.tokens_are)))
                  (λ (p, ns) read.
                    definition_end a b t passed.token rest p ns e passed.kind_is read))
            | inr other ↦ rw other (
                >>=-Decided (expect_and_consume TokenKind.token_semicolon (load rest)) _
                  (Passed TokenKind.token_semicolon rest)
                  (IsDeclarator a b (t ∷ passed.token ∷ rest))
                  (expect_and_consume-Decided TokenKind.token_semicolon rest semicolon-eof)
                  (λ r closed.
                    rw (closed.at, closed.tokens_are)
                      (inr (
                        _,
                        refl,
                        declarator closed.rest
                            (Declarator.prototype e passed.kind_is closed.kind_is),
                      ))))
          ]))

pub parse_declarator-Decided :
    (f a b : ℕ) (ts : List Token)
    → length ts < f
    → Decided (parse_declarator f a b (load ts)) (IsDeclarator a b ts)
unfolding parse_declarator
parse_declarator-Decided f a b [] h = rw lparen-eof (parse_variable-Decided a b [])
parse_declarator-Decided f a b (t ∷ ts) h =
    elim (Bool-cases (is_kind t.kind TokenKind.token_lparen)) [
      | inl function ↦ rw function (
          parse_function-Decided f a b t ts ((is_kind_iff t.kind TokenKind.token_lparen).0 function)
            (omega arith))
      | inr variable ↦ rw variable (parse_variable-Decided a b (t ∷ ts))
    ]
