-- ===== src/Parser/Sound.antt =====
-- From `parse_translation_unit` of src/Parser.hpp to the grammar.
use partio.Prelude.{
  ℕ, zero, suc, ◌<◌, ◌≡◌, ◌≢◌, refl, sym, subst, ◌∙◌, ap, ◌⊎◌, inl, inr, true, List, [], ◌∷◌, ok,
  err, Bool-cases, arith, length,
}
use partio.Token.{TokenKind, Token, is_kind}
use partio.Token.Ordinal.{is_kind_iff}
use partio.AstNodes.{
  AstNode, translation_unit_node, Nodes, nil, cons, append, push_back, append-push_back, append-nil,
}
use partio.Parser.{
  Parser, ParseError, out_of_fuel, expected_identifier, outside_of_declaration, load, is_type_token,
  parse_declarator, parse_declaration, parse_declarations, parse_translation_unit,
}
use partio.Parser.Grammar.{Declarator-length, Line-length, Declarations}
use partio.Parser.Kinds.{identifier-eof}
use partio.Parser.Verdict.{Decided, Decided-weaken, >>=-Decided}
use partio.Parser.Declarators.{IsDeclarator, parse_declarator-Decided}
use partio.Parser.Lines.{parse_directive-Line}

abbrev IsDeclaration : Token → List Token → Parser × AstNode → Type 0
IsDeclaration t ts r =
    (u : Token) × (us : List Token) × (ts ≡ u ∷ us)
    × (u.kind ≡ TokenKind.token_identifier)
    × IsDeclarator t.string_id u.string_id us r

parse_declaration-Decided :
    (f : ℕ) (t : Token) (ts : List Token)
    → length ts < f
    → Decided (parse_declaration f (load (t ∷ ts))) (IsDeclaration t ts)
unfolding parse_declaration
parse_declaration-Decided f t [] h = inl (expected_identifier, rw identifier-eof refl, λ e. cc)
parse_declaration-Decided f t (u ∷ us) h =
    elim (Bool-cases (is_kind u.kind TokenKind.token_identifier)) [
      | inl named ↦ rw named (
          Decided-weaken (parse_declarator f t.string_id u.string_id (load us))
            (IsDeclarator t.string_id u.string_id us) (IsDeclaration t (u ∷ us))
            (parse_declarator-Decided f t.string_id u.string_id us (omega arith))
            (λ r d. (u, us, refl, (is_kind_iff u.kind TokenKind.token_identifier).0 named, d)))
      | inr other ↦ inl (expected_identifier, rw other refl, λ e. cc)
    ]

abbrev Read : Nodes → List Token → Nodes → Type 0
Read acc ts out = (ns : Nodes) × (out ≡ append acc ns) × Declarations ts ns

-- behind a declaration
Read-declaration :
    (acc : Nodes) (t : Token) (ts : List Token) (p : Parser) (n : AstNode) (f : ℕ)
    → is_type_token t.kind ≡ true
    → length ts < f
    → ((us : List Token)
        → length us < f
        → Decided (parse_declarations f (load us) (push_back acc n)) (Read (push_back acc n) us))
    → IsDeclaration t ts (p, n)
    → Decided (parse_declarations f p (push_back acc n)) (Read acc (t ∷ ts))
Read-declaration acc t ts p n f type h rec (u, us, at, k, IsDeclarator.declarator rest d) =
    Decided-weaken (parse_declarations f (load rest) (push_back acc n))
      (Read (push_back acc n) rest) (Read acc (t ∷ ts))
      (rec rest (omega (arith, ap length at, Declarator-length us rest d)))
      (λ out (ns, e, ds). (
        cons n ns,
        e ∙ append-push_back acc n ns,
        subst (λ x. Declarations (t ∷ x) (cons n ns)) (sym at)
            (Declarations.declaration type k d ds),
      ))

parse_declarations-Decided :
    (f : ℕ) (ts : List Token) (acc : Nodes)
    → length ts < f
    → Decided (parse_declarations f (load ts) acc) (Read acc ts)
unfolding parse_declarations
parse_declarations-Decided zero ts acc h = absurd (omega arith)
parse_declarations-Decided (suc f) [] acc h =
    inr (acc, unfold is_kind in refl, (nil, sym (append-nil acc), Declarations.end))
parse_declarations-Decided (suc f) (t ∷ ts) acc h =
    elim (Bool-cases (is_kind t.kind TokenKind.token_eof)) [
      | inl eof ↦
          let k = (is_kind_iff t.kind TokenKind.token_eof).0 eof in
          inr (acc, rw eof refl, (nil, sym (append-nil acc), Declarations.end_token k))
      | inr more ↦ elim (Bool-cases (is_kind t.kind TokenKind.token_hash)) [
        | inl hash ↦
            let k = (is_kind_iff t.kind TokenKind.token_hash).0 hash in
            let (rest, passed, line) = parse_directive-Line t ts k in
            rw (more, hash, passed)
              (Decided-weaken (parse_declarations f (load rest) acc) (Read acc rest)
                (Read acc (t ∷ ts))
                (parse_declarations-Decided f rest acc (omega (arith, Line-length ts rest line)))
                (λ out (ns, e, ds). (ns, e, Declarations.directive k line ds)))
        | inr no_hash ↦ elim (Bool-cases (is_kind t.kind TokenKind.token_newline)) [
          | inl newline ↦
              let k = (is_kind_iff t.kind TokenKind.token_newline).0 newline in
              rw (more, no_hash, newline)
                (Decided-weaken (parse_declarations f (load ts) acc) (Read acc ts)
                  (Read acc (t ∷ ts)) (parse_declarations-Decided f ts acc (omega arith))
                  (λ out (ns, e, ds). (ns, e, Declarations.blank k ds)))
          | inr word ↦ elim (Bool-cases (is_type_token t.kind)) [
            | inl type ↦
                rw (more, no_hash, word, type)
                  (>>=-Decided (parse_declaration f (load (t ∷ ts))) _ (IsDeclaration t ts)
                    (Read acc (t ∷ ts)) (parse_declaration-Decided f t ts (omega arith))
                    (λ (p, n) d.
                      Read-declaration acc t ts p n f type (omega arith)
                        (λ us lt. parse_declarations-Decided f us (push_back acc n) lt) d))
            | inr other ↦
                inl (outside_of_declaration, rw (more, no_hash, word, other) refl, λ e. cc)
          ]
        ]
      ]
    ]

-- For every list of tokens the parser either throws one of its exceptions, or returns nodes that
-- the grammar gives for the tokens; the fuel that it gives itself never runs out.
pub parse_translation_unit_sound :
    (ts : List Token)
    → ((e : ParseError) × (parse_translation_unit ts ≡ err e) × (e ≢ out_of_fuel))
      ⊎ ((ns : Nodes) × (parse_translation_unit ts ≡ ok (translation_unit_node ns))
          × Declarations ts ns)
unfolding parse_translation_unit
parse_translation_unit_sound ts =
    elim (parse_declarations-Decided (suc (length ts)) ts nil (omega arith)) [
      | inl (e, thrown, no_fuel) ↦ inl (e, rw thrown refl, no_fuel)
      | inr (out, done, (ns, same, ds)) ↦ inr (ns, rw (done, same) refl, ds)
    ]
