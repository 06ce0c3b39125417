-- ===== src/Parser/Verdict.antt =====
-- What it means that a part of the parser decides its input: it throws an exception of its own, or
-- it returns a value with a fact about it.
use partio.Prelude.{
  ◌≡◌, ◌≢◌, refl, ◌⊎◌, inl, inr, false, List, [], ◌∷◌, Result, ok, err, ◌>>=◌, Bool-cases,
}
use partio.Token.{TokenKind, Token, is_kind}
use partio.Token.Ordinal.{is_kind_iff}
use partio.Parser.{Parser, ParseError, out_of_fuel, unexpected_token, load, expect_and_consume}

abbrev pub Decided : {A : Type 0} → Result ParseError A → (A → Type 0) → Type 0
Decided {A} r P =
    ((e : ParseError) × (r ≡ err e) × (e ≢ out_of_fuel)) ⊎ ((a : A) × (r ≡ ok a) × P a)

pub >>=-Decided :
    {A B : Type 0} (m : Result ParseError A) (f : A → Result ParseError B) (P : A → Type 0)
    (Q : B → Type 0)
    → Decided m P
    → ((a : A) → P a → Decided (f a) Q)
    → Decided (m >>= f) Q
>>=-Decided m f P Q (inl (e, thrown, no_fuel)) k = inl (e, rw thrown refl, no_fuel)
>>=-Decided m f P Q (inr (a, done, p)) k = rw done (k a p)

pub Decided-weaken :
    {A : Type 0} (r : Result ParseError A) (P Q : A → Type 0)
    → Decided r P
    → ((a : A) → P a → Q a)
    → Decided r Q
Decided-weaken r P Q (inl thrown) k = inl thrown
Decided-weaken r P Q (inr (a, done, p)) k = inr (a, done, k a p)

-- The first token is of the kind and is passed.
pub record Passed (k : TokenKind) (ts : List Token) (p : Parser) : Type 0 where
  pub token : Token
  pub rest : List Token
  pub tokens_are : ts ≡ token ∷ rest
  pub kind_is : token.kind ≡ k
  pub at : p ≡ load rest

pub expect_and_consume-Decided :
    (k : TokenKind) (ts : List Token)
    → is_kind TokenKind.token_eof k ≡ false
    → Decided (expect_and_consume k (load ts)) (Passed k ts)
unfolding expect_and_consume
expect_and_consume-Decided k [] no_eof = inl (unexpected_token, rw no_eof refl, λ e. cc)
expect_and_consume-Decided k (t ∷ ts) no_eof = elim (Bool-cases (is_kind t.kind k)) [
  | inl same ↦ inr (
    load ts,
    rw same refl,
    record {
      token = t;
      rest = ts;
      tokens_are = refl;
      kind_is = (is_kind_iff t.kind k).0 same;
      at = refl;
    },
  )
  | inr other ↦ inl (unexpected_token, rw other refl, λ e. cc)
]
