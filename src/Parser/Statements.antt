-- ===== src/Parser/Statements.antt =====
-- From `parse_block` of src/Parser.hpp to the grammar.
use partio.Prelude.{
  ℕ, zero, suc, ◌<◌, ◌≡◌, refl, sym, subst, ◌∙◌, ap, inl, inr, true, false, List, [], ◌∷◌, ok,
  ◌>>=◌, Bool-cases, arith, length,
}
use partio.Token.{TokenKind, Token, is_kind}
use partio.Token.Ordinal.{is_kind_iff}
use partio.AstNodes.{
  return_node, number_node, Nodes, nil, cons, Pointer, null, to, append, append-push_back,
  append-nil,
}
use partio.Parser.{
  Parser, unexpected_token, load, expect_and_consume, parse_expression, return_value, parse_return,
  parse_statement, push_statement, parse_statements, parse_block,
}
use partio.Parser.Grammar.{Value, Statements, is}
use partio.Parser.Kinds.{eof-eof, semicolon-eof, rbrace-eof, lbrace-eof, number-eof}
use partio.Parser.Verdict.{Decided-weaken, Decided, >>=-Decided, Passed, expect_and_consume-Decided}

abbrev pub in_front : Pointer → Nodes → Nodes
in_front null ns = ns
in_front (to n) ns = cons n ns

push_statement-in_front :
    (acc : Nodes) (ptr : Pointer) (ns : Nodes)
    → append (push_statement acc ptr) ns ≡ append acc (in_front ptr ns)
push_statement-in_front acc null ns = refl
push_statement-in_front acc (to n) ns = append-push_back acc n ns

-- A statement stands for its pointer in front of the statements that follow.
record Step (ts : List Token) (limit : ℕ) (p : Parser) (ptr : Pointer) : Type 0 where
  pub rest : List Token
  pub at : p ≡ load rest
  pub shorter : length rest < limit
  pub extends :
      (ns : Nodes) (us : List Token) → Statements rest ns us → Statements ts (in_front ptr ns) us

abbrev Steps : List Token → ℕ → Parser × Pointer → Type 0
Steps ts limit (p, ptr) = Step ts limit p ptr

-- the end of a `return`, behind its value
return_end :
    (t : Token) (ts us : List Token) (expr : Pointer)
    → length us < suc (length ts)
    → ((v : Token) (vs : List Token)
        → us ≡ v ∷ vs
        → v.kind ≡ TokenKind.token_semicolon
        → (ns : Nodes) (ws : List Token) → Statements vs ns ws
        → Statements (t ∷ ts) (cons (return_node expr) ns) ws)
    → Decided
        (expect_and_consume TokenKind.token_semicolon (load us) >>= λ r.
          ok (r, to (return_node expr)))
        (Steps (t ∷ ts) (suc (length ts)))
return_end t ts us expr shorter extends =
    >>=-Decided (expect_and_consume TokenKind.token_semicolon (load us)) _
      (Passed TokenKind.token_semicolon us) (Steps (t ∷ ts) (suc (length ts)))
      (expect_and_consume-Decided TokenKind.token_semicolon us semicolon-eof)
      (λ q passed. inr (
        _,
        refl,
        record {
          rest = passed.rest;
          at = passed.at;
          shorter = omega (arith, ap length passed.tokens_are);
          extends =
              λ ns ws d. extends passed.token passed.rest passed.tokens_are passed.kind_is ns ws d;
        },
      ))

parse_return-Decided :
    (t : Token) (ts : List Token)
    → t.kind ≡ TokenKind.token_kw_return
    → Decided (parse_return (load ts)) (Steps (t ∷ ts) (suc (length ts)))
unfolding parse_return return_value parse_expression
parse_return-Decided t [] e =
    rw (semicolon-eof, number-eof) (return_end t [] [] null (omega arith) (λ v vs h. cc))
parse_return-Decided t (u ∷ us) e = elim (Bool-cases (is_kind u.kind TokenKind.token_semicolon)) [
  | inl semicolon ↦ rw semicolon (
      return_end t (u ∷ us) (u ∷ us) null (omega arith) (λ v vs h k ns ws d.
        let same : us ≡ vs = cc in
        Statements.return_nothing e ((is_kind_iff u.kind TokenKind.token_semicolon).0 semicolon)
          (subst (λ x. Statements x ns ws) (sym same) d)))
  | inr valued ↦ elim (Bool-cases (is_kind u.kind TokenKind.token_number)) [
    | inl number ↦
        rw (valued, number)
          (return_end t (u ∷ us) us (to (number_node u.string_id)) (omega arith)
            (λ v vs h k ns ws d.
              subst
                (λ x.
                  Statements (t ∷ u ∷ x) (cons (return_node (to (number_node u.string_id))) ns) ws)
                (sym h)
                (Statements.return_value e
                  (Value.number ((is_kind_iff u.kind TokenKind.token_number).0 number)) k d)))
    | inr other ↦
        rw (valued, other)
          (return_end t (u ∷ us) us null (omega arith) (λ v vs h k ns ws d.
            subst (λ x. Statements (t ∷ u ∷ x) (cons (return_node null) ns) ws) (sym h)
              (Statements.return_value e (Value.other other valued) k d)))
  ]
]

parse_statement-Decided :
    (t : Token) (ts : List Token)
    → is_kind t.kind TokenKind.token_rbrace ≡ false
    → is_kind t.kind TokenKind.token_eof ≡ false
    → Decided (parse_statement (load (t ∷ ts))) (Steps (t ∷ ts) (suc (length ts)))
unfolding parse_statement
parse_statement-Decided t ts a b = elim (Bool-cases (is_kind t.kind TokenKind.token_kw_return)) [
  | inl return ↦
      rw return
        (parse_return-Decided t ts ((is_kind_iff t.kind TokenKind.token_kw_return).0 return))
  | inr other ↦ inr (
    (load ts, null),
    rw other refl,
    record {
      rest = ts;
      at = refl;
      shorter = omega arith;
      extends = λ ns us d. Statements.skip other a b d;
    },
  )
]

-- The loop over statements stops at the end of the file or at the `}` of a block that it has read.
data Ended (acc : Nodes) (ts : List Token) : Parser × Nodes → Type 0 where
  at_eof :
      {p : Parser} {out : Nodes}
      → is_kind p.current_tok.kind TokenKind.token_eof ≡ true
      → Ended acc ts (p, out)
  at_rbrace :
      {p : Parser} {out : Nodes} (t : Token) (rest : List Token) (ns : Nodes)
      → p ≡ load (t ∷ rest)
      → t.kind ≡ TokenKind.token_rbrace
      → out ≡ append acc ns
      → Statements ts ns rest
      → Ended acc ts (p, out)

Ended-Step :
    (acc : Nodes) (ts : List Token) (limit : ℕ) (p : Parser) (ptr : Pointer)
    → (step : Step ts limit p ptr) → (r : Parser × Nodes)
    → Ended (push_statement acc ptr) step.rest r
    → Ended acc ts r
Ended-Step acc ts limit p ptr step r (Ended.at_eof e) = Ended.at_eof e
Ended-Step acc ts limit p ptr step r (Ended.at_rbrace t rest ns e k out d) =
    Ended.at_rbrace t rest (in_front ptr ns) e k (out ∙ push_statement-in_front acc ptr ns)
      (step.extends ns rest d)

parse_statements-Decided :
    (f : ℕ) (ts : List Token) (acc : Nodes)
    → length ts < f
    → Decided (parse_statements f (load ts) acc) (Ended acc ts)
unfolding parse_statements
parse_statements-Decided zero ts acc h = absurd (omega arith)
parse_statements-Decided (suc f) [] acc h =
    inr ((load [], acc), unfold is_kind in refl, Ended.at_eof {p = load []} eof-eof)
parse_statements-Decided (suc f) (t ∷ ts) acc h =
    elim (Bool-cases (is_kind t.kind TokenKind.token_rbrace)) [
      | inl rbrace ↦
          let k = (is_kind_iff t.kind TokenKind.token_rbrace).0 rbrace in
          inr (
            (load (t ∷ ts), acc),
            rw rbrace refl,
            Ended.at_rbrace t ts nil refl k (sym (append-nil acc)) (Statements.close k),
          )
      | inr open_block ↦ elim (Bool-cases (is_kind t.kind TokenKind.token_eof)) [
        | inl eof ↦ inr ((load (t ∷ ts), acc), rw (open_block, eof) refl, Ended.at_eof eof)
        | inr more ↦
            rw (open_block, more)
              (>>=-Decided (parse_statement (load (t ∷ ts))) _ (Steps (t ∷ ts) (suc (length ts)))
                (Ended acc (t ∷ ts)) (parse_statement-Decided t ts open_block more)
                (λ (p, ptr) step. rw step.at (
                  Decided-weaken (parse_statements f (load step.rest) (push_statement acc ptr))
                    (Ended (push_statement acc ptr) step.rest) (Ended acc (t ∷ ts))
                    (parse_statements-Decided f step.rest (push_statement acc ptr)
                      (omega (arith, step.shorter)))
                    (Ended-Step acc (t ∷ ts) (suc (length ts)) p ptr step))))
      ]
    ]

-- a block with its braces
pub data IsBlock (ts : List Token) : Parser × Nodes → Type 0 where
  block :
      {ns : Nodes} (t : Token) (us rest : List Token)
      → ts ≡ t ∷ us
      → t.kind ≡ TokenKind.token_lbrace
      → Statements us ns rest
      → IsBlock ts (load rest, ns)

IsBlock-end :
    (ts : List Token) (t : Token) (us : List Token) (p : Parser) (ns : Nodes)
    → ts ≡ t ∷ us
    → t.kind ≡ TokenKind.token_lbrace
    → Ended nil us (p, ns)
    → Decided (expect_and_consume TokenKind.token_rbrace p >>= λ s. ok (s, ns)) (IsBlock ts)
unfolding expect_and_consume
IsBlock-end ts t us p ns at k (Ended.at_eof e) =
    let eof = (is_kind_iff p.current_tok.kind TokenKind.token_eof).0 e in
    let no_rbrace : is_kind p.current_tok.kind TokenKind.token_rbrace ≡ false =
      ap (λ x. is_kind x TokenKind.token_rbrace) eof ∙ rbrace-eof in
    inl (unexpected_token, rw no_rbrace refl, λ x. cc)
IsBlock-end ts t us p ns at k (Ended.at_rbrace u rest ms e r out d) = inr (
  (load rest, ns),
  rw (e, is u TokenKind.token_rbrace r) refl,
  block t us rest at k (subst (λ x. Statements us x rest) (sym out) d),
)

pub parse_block-Decided :
    (f : ℕ) (ts : List Token) → length ts < f → Decided (parse_block f (load ts)) (IsBlock ts)
unfolding parse_block
parse_block-Decided f ts h =
    >>=-Decided (expect_and_consume TokenKind.token_lbrace (load ts)) _
      (Passed TokenKind.token_lbrace ts) (IsBlock ts)
      (expect_and_consume-Decided TokenKind.token_lbrace ts lbrace-eof)
      (λ q passed. rw passed.at (
        >>=-Decided (parse_statements f (load passed.rest) nil) _ (Ended nil passed.rest)
          (IsBlock ts)
          (parse_statements-Decided f passed.rest nil (omega (arith, ap length passed.tokens_are)))
          (λ (p, ns) ended.
            IsBlock-end ts passed.token passed.rest p ns passed.tokens_are passed.kind_is ended)))
