-- ===== src/Prelude/Options.antt =====
-- Code that may have no result: reads out of range, storage that is used up.
use mathlib.Core.Path.{◌≡◌, refl}
use mathlib.Core.Option.{Option, none, some}

infixl 5 ◌>>=◌
abbrev pub ◌>>=◌ {ℓ κ} : {A : Type ℓ} {B : Type κ} → Option A → (A → Option B) → Option B
none >>= next = none
some value >>= next = next value

-- What ends with a value had one in the middle.
pub >>=-eq-some {ℓ κ} :
    {A : Type ℓ} {B : Type κ} (first : Option A) (next : A → Option B) {end : B}
    → (first >>= next) ≡ some end
    → (middle : A) × (first ≡ some middle) × (next middle ≡ some end)
>>=-eq-some none next whole = cc
>>=-eq-some (some value) next whole = (value, refl, whole)
