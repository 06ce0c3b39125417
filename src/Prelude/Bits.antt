-- ===== src/Prelude/Bits.antt =====
-- `&` with a low mask and with the complement of one, as arithmetic.
use Prim.Native.Nat.{
  ℕ, zero, suc, ◌+◌, ◌-◌, ◌*◌, ◌/◌, ◌%◌, ◌^◌, ◌≤◌, ◌<◌, min, max, bit_and, bit_or, digits,
  bit_and-bitwise, bit_or-bitwise,
}
use mathlib.Core.Path.{◌≡◌, refl, sym, ap, ◌∙◌}
use native.Mathlib.Omega.{arith}
use native.Mathlib.Nat.{pow-suc, div-div-eq-div-mul, div-add-mod'}

-- the digits of `&`, at most `rounds` of them
abbrev meet : ℕ → ℕ → ℕ → ℕ
meet rounds x y = digits (λ _. zero) min rounds x y

meet-zero : (rounds y : ℕ) → meet rounds zero y ≡ 0
meet-zero zero y = refl
meet-zero (suc rounds) y = refl

-- More rounds than there are digits change nothing.
meet-spare : (rounds spare x y : ℕ) → x ≤ rounds → meet (spare + rounds) x y ≡ meet rounds x y
meet-spare rounds spare zero y h = omega (arith, meet-zero (spare + rounds) y, meet-zero rounds y)
meet-spare zero spare (suc x) y h = absurd (omega arith)
meet-spare (suc rounds) spare (suc x) y h =
    let one_more : spare + suc rounds ≡ suc (spare + rounds) = omega arith in
    omega (
      arith,
      ap (λ n. meet n (suc x) y) one_more,
      meet-spare rounds spare (suc x / 2) (y / 2) (omega arith),
    )

bit_and-meet : (x y : ℕ) (rounds : ℕ) → x ≤ rounds → bit_and x y ≡ meet rounds x y
bit_and-meet x y rounds h =
    let spare : rounds ≡ (rounds - x) + x = omega arith in
    bit_and-bitwise x y
    ∙ sym (ap (λ n. meet n x y) spare ∙ meet-spare x (rounds - x) x y (omega arith))

last_digit : (x y : ℕ) → bit_and x y ≡ min (x % 2) (y % 2) + 2 * bit_and (x / 2) (y / 2)
last_digit zero y = omega (arith, bit_and-meet 0 y 0, bit_and-meet 0 (y / 2) 0)
last_digit (suc x) y =
    omega (arith, bit_and-meet (suc x) y (suc x), bit_and-meet (suc x / 2) (y / 2) x (omega arith))

pub one-le-pow : (k : ℕ) → 1 ≤ 2 ^ k
one-le-pow zero = omega arith
one-le-pow (suc k) = omega (arith, one-le-pow k, pow-suc 2 k)

zero-add : (m : ℕ) → zero + m ≡ m
zero-add m = omega arith

suc-add : (k m : ℕ) → suc k + m ≡ suc (k + m)
suc-add k m = omega arith

pub pow-add : (k m : ℕ) → 2 ^ (k + m) ≡ 2 ^ k * 2 ^ m
pow-add zero m = rw (zero-add m) (omega arith)
pow-add (suc k) m = rw (suc-add k m, pow-suc 2 (k + m), pow-add k m, pow-suc 2 k) (grind arith)

half_mask : (m : ℕ) → (2 ^ suc m - 1) / 2 ≡ 2 ^ m - 1
half_mask m = omega (arith, pow-suc 2 m, one-le-pow m)

-- A mask of `m` ones keeps a number below `2 ^ m`.
pub bit_and_low_mask : (m x : ℕ) → x < 2 ^ m → bit_and x (2 ^ m - 1) ≡ x
bit_and_low_mask zero zero h = refl
bit_and_low_mask zero (suc x) h = absurd (omega arith)
bit_and_low_mask (suc m) x h = omega (
  arith,
  pow-suc 2 m,
  one-le-pow m,
  last_digit x (2 ^ suc m - 1),
  ap (bit_and (x / 2)) (half_mask m),
  bit_and_low_mask m (x / 2) (omega (arith, pow-suc 2 m)),
)

unit_mask : (m : ℕ) → (2 ^ m - 1) * 2 ^ 0 ≡ 2 ^ m - 1
unit_mask m = omega arith

doubled_mask : (q k : ℕ) → (q * 2 ^ suc k / 2 ≡ q * 2 ^ k) × (q * 2 ^ suc k % 2 ≡ 0)
doubled_mask q k = rw (pow-suc 2 k) (omega arith)

half_quotient :
    (k x : ℕ)
    → (x / 2 / 2 ^ k ≡ x / 2 ^ suc k) × (x / 2 / 2 ^ k * 2 ^ k * 2 ≡ x / 2 ^ suc k * 2 ^ suc k)
half_quotient k x =
    let e : x / 2 / 2 ^ k ≡ x / 2 ^ suc k =
      div-div-eq-div-mul x 2 (2 ^ k) ∙ ap (◌/◌ x) (omega (arith, pow-suc 2 k)) in
    (e, omega (arith, ap (λ (q : ℕ). q * 2 ^ k) e, ap (◌*◌ (x / 2 ^ suc k)) (pow-suc 2 k)))

-- A mask of `m` ones above `k` zeros clears the lowest `k` digits.
pub bit_and_high_mask :
    (k m x : ℕ) → x / 2 ^ k < 2 ^ m → bit_and x ((2 ^ m - 1) * 2 ^ k) ≡ x / 2 ^ k * 2 ^ k
bit_and_high_mask zero m x h =
    ap (bit_and x) (unit_mask m) ∙ omega (arith, bit_and_low_mask m x (omega arith))
bit_and_high_mask (suc k) m x h = omega (
  arith,
  last_digit x ((2 ^ m - 1) * 2 ^ suc k),
  doubled_mask (2 ^ m - 1) k,
  ap (bit_and (x / 2)) (doubled_mask (2 ^ m - 1) k).0,
  half_quotient k x,
  bit_and_high_mask k m (x / 2) (omega (arith, half_quotient k x)),
)

-- A mask of `m` ones keeps the lowest `m` digits of any number.
pub bit_and-mod : (m x : ℕ) → bit_and x (2 ^ m - 1) ≡ x % 2 ^ m
bit_and-mod zero x = omega (arith, bit_and-zero x)
  where
    bit_and-zero : (x : ℕ) → bit_and x 0 ≡ 0
    bit_and-zero x = bit_and-meet x 0 x (omega arith) ∙ go x x
      where
        go : (rounds x : ℕ) → meet rounds x 0 ≡ 0
        go zero x = refl
        go (suc rounds) zero = refl
        go (suc rounds) (suc x) = omega (arith, go rounds (suc x / 2))
bit_and-mod (suc m) x = omega (
  arith,
  pow-suc 2 m,
  one-le-pow m,
  last_digit x (2 ^ suc m - 1),
  ap (bit_and (x / 2)) (half_mask m),
  bit_and-mod m (x / 2),
  half_quotient m x,
  div-add-mod' x (2 ^ suc m),
  div-add-mod' (x / 2) (2 ^ m),
)

-- the digits of `|`, at most `rounds` of them
abbrev join : ℕ → ℕ → ℕ → ℕ
join rounds x y = digits (λ b. b) max rounds x y

join-zero : (rounds y : ℕ) → join rounds zero y ≡ y
join-zero zero y = refl
join-zero (suc rounds) y = refl

join-spare : (rounds spare x y : ℕ) → x ≤ rounds → join (spare + rounds) x y ≡ join rounds x y
join-spare rounds spare zero y h = omega (arith, join-zero (spare + rounds) y, join-zero rounds y)
join-spare zero spare (suc x) y h = absurd (omega arith)
join-spare (suc rounds) spare (suc x) y h =
    let one_more : spare + suc rounds ≡ suc (spare + rounds) = omega arith in
    omega (
      arith,
      ap (λ n. join n (suc x) y) one_more,
      join-spare rounds spare (suc x / 2) (y / 2) (omega arith),
    )

bit_or-join : (x y : ℕ) (rounds : ℕ) → x ≤ rounds → bit_or x y ≡ join rounds x y
bit_or-join x y rounds h =
    let spare : rounds ≡ (rounds - x) + x = omega arith in
    bit_or-bitwise x y
    ∙ sym (ap (λ n. join n x y) spare ∙ join-spare x (rounds - x) x y (omega arith))

last_digit_or : (x y : ℕ) → bit_or x y ≡ max (x % 2) (y % 2) + 2 * bit_or (x / 2) (y / 2)
last_digit_or zero y = omega (arith, bit_or-join 0 y 0, bit_or-join 0 (y / 2) 0)
last_digit_or (suc x) y =
    omega (arith, bit_or-join (suc x) y (suc x), bit_or-join (suc x / 2) (y / 2) x (omega arith))

bit_or-nothing : (x : ℕ) → bit_or x 0 ≡ x
bit_or-nothing x = bit_or-join x 0 x (omega arith) ∙ go x x (omega arith)
  where
    go : (rounds x : ℕ) → x ≤ rounds → join rounds x 0 ≡ x
    go zero x h = omega arith
    go (suc rounds) zero h = refl
    go (suc rounds) (suc x) h = omega (arith, go rounds (suc x / 2) (omega arith))

-- Digits above and digits below a place stand side by side.
pub bit_or-add : (k c o : ℕ) → o < 2 ^ k → bit_or (c * 2 ^ k) o ≡ c * 2 ^ k + o
bit_or-add zero c zero h = bit_or-nothing (c * 2 ^ 0) ∙ omega arith
bit_or-add zero c (suc o) h = absurd (omega arith)
bit_or-add (suc k) c o h = omega (
  arith,
  last_digit_or (c * 2 ^ suc k) o,
  doubled_mask c k,
  ap (λ q. bit_or q (o / 2)) (doubled_mask c k).0,
  bit_or-add k c (o / 2) (omega (arith, pow-suc 2 k)),
)
