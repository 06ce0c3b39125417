-- ===== src/Prelude/Results.antt =====
-- Code that throws: a value, or what is thrown.
use mathlib.Core.Path.{◌≡◌, refl}

module _ {ℓ κ} where
  pub data Result (E : Type ℓ) (A : Type κ) : Type (ℓ ⊔ κ) where
    err : E → Result E A
    ok : A → Result E A

abbrev pub ◌>>=◌ {ℓ κ μ} :
    {E : Type ℓ} {A : Type κ} {B : Type μ} → Result E A → (A → Result E B) → Result E B
err fault >>= next = err fault
ok value >>= next = next value

infixl 5 ◌>>=◌
-- What ends well was well in the middle.
pub >>=-eq-ok {ℓ κ μ} :
    {E : Type ℓ} {A : Type κ} {B : Type μ} (first : Result E A) (next : A → Result E B) {end : B}
    → (first >>= next) ≡ ok end
    → (middle : A) × (first ≡ ok middle) × (next middle ≡ ok end)
>>=-eq-ok (err fault) next whole = cc
>>=-eq-ok (ok value) next whole = (value, refl, whole)
