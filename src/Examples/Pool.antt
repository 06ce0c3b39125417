-- ===== src/Examples/Pool.antt =====
-- A pool of strings that keeps every text in a list.
use partio.Prelude.{
  ◌∙◌, get_elem?-lt, get_elem?-append_left, ap, ℕ, ◌≡◌, List, [], ◌∷◌, ◌++◌, Option, none, some,
  length, get_elem?, get_elem?-append_last,
}
use partio.Prelude.Text.{Bytes}
use partio.StringPool.{StringPool}

abbrev pub text_at : Option Bytes → Bytes
text_at none = []
text_at (some s) = s

pub list_held :
    (p : List Bytes) (s : Bytes) (p' : List Bytes) (id : ℕ)
    → ◌≡◌ {A = Option (List Bytes × ℕ)} (some (p ++ s ∷ [], length p)) (some (p', id))
    → get_elem? p' id ≡ some s
list_held p s p' id h =
    let e : p ++ s ∷ [] ≡ p' = cc in
    let i : length p ≡ id = cc in rw (← e, ← i) (get_elem?-append_last p s)

pub list_kept :
    (p : List Bytes) (s : Bytes) (p' : List Bytes) (id : ℕ)
    → ◌≡◌ {A = Option (List Bytes × ℕ)} (some (p ++ s ∷ [], length p)) (some (p', id))
    → (t : Bytes) (j : ℕ) → get_elem? p j ≡ some t
    → get_elem? p' j ≡ some t
list_kept p s p' id h t j at =
    let e : p ++ s ∷ [] ≡ p' = cc in
    rw (← e) (get_elem?-append_left p (s ∷ []) j (get_elem?-lt p j at) ∙ at)

abbrev pub list_pool : StringPool
list_pool = record {
  Pool = List Bytes;
  IsValid = λ p. Unit {0};
  intern = λ p s. some (p ++ s ∷ [], length p);
  get_string = λ p id. text_at (get_elem? p id);
  intern-IsValid = λ p s p' id v h. tt;
  Holds = λ p s id. get_elem? p id ≡ some s;
  intern-Holds = λ p s p' id v h. list_held p s p' id h;
  intern-kept = λ p s p' id v h t j at. list_kept p s p' id h t j at;
  get_string-Holds = λ p s id at. ap text_at at;
}
