-- ===== src/Lexer/Directive.antt =====
-- Directive mode of src/Lexer.hpp at a comment.
use partio.Prelude.{
  ℕ, zero, suc, ◌≡◌, refl, ap, Bool, true, false, not, ◌&&◌, [], ◌∷◌, ◌++◌, arith, ◌==◌, err, All,
}
use partio.Prelude.Text.{Bytes}
use partio.StringPool.{StringPool}
use partio.Lexer.{
  directive, Lexer, hang, is_blank, starts_comment, is_directive, drop_one, advance_while, advance,
  run_while, skip_comment, skip, next_token,
}
use partio.Lexer.Consumes.{skip-cons}

advance_while-stop :
    (p : ℕ → Bool) (xs : Bytes) (col : ℕ)
    → ((c : ℕ) → p c ≡ false)
    → advance_while p xs col ≡ ([], xs, col)
unfolding advance_while
advance_while-stop p [] col h = refl
advance_while-stop p (c ∷ cs) col h = rw (h c) refl

pub not_comment : (c : ℕ) (cs : Bytes) → (c == b'/') ≡ false → starts_comment (c ∷ cs) ≡ false
not_comment c [] h = refl
not_comment c (d ∷ ds) h = rw h refl

module _ {P : Type 0} where
  -- The inner loop breaks before it has moved.
  pub skip_comment-directive : (l : Lexer P) → l.mode ≡ directive → skip_comment l ≡ l
  unfolding skip_comment run_while
  skip_comment-directive l m =
      let stop =
        advance_while-stop (λ c. not (c == b'\n') && not (is_directive l.mode)) l.rest l.col
          (λ c. rw m (ground arith)) in
      λ i. record l { rest = (stop i).1; col = (stop i).2 }

  skip-hangs :
      (f : ℕ) (l : Lexer P) (blanks cs : Bytes)
      → All (λ b. is_blank b ≡ true) blanks
      → l.mode ≡ directive
      → l.rest ≡ blanks ++ b'/' ∷ b'/' ∷ cs
      → skip f l ≡ err hang
  skip-hangs zero l blanks cs a m e = unfold skip in refl
  skip-hangs (suc f) l [] cs a m e =
      rw (skip-cons f l _ _ e, skip_comment-directive l m) (skip-hangs f l [] cs a m e)
  skip-hangs (suc f) l (b ∷ blanks) cs a m e =
      rw (skip-cons f l _ _ e, a.0)
        (skip-hangs f (advance l) blanks cs a.1 (unfold advance in m)
          (unfold advance in ap drop_one e))

module _ (sp : StringPool) where
  open sp use {Pool}

  -- In directive mode a comment `//`, after any blanks, stops the lexer for ever: no amount of fuel
  -- is enough for `next_token`.
  pub next_token_hangs :
      (f : ℕ) (l : Lexer Pool) (blanks cs : Bytes)
      → All (λ b. is_blank b ≡ true) blanks
      → l.mode ≡ directive
      → l.rest ≡ blanks ++ b'/' ∷ b'/' ∷ cs
      → next_token sp f l ≡ err hang
  unfolding next_token
  next_token_hangs zero l blanks cs a m e = refl
  next_token_hangs (suc f) l blanks cs a m e = rw (skip-hangs (suc f) l blanks cs a m e)
