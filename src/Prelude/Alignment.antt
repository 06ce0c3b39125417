-- ===== src/Prelude/Alignment.antt =====
-- Rounding up to a multiple of a power of two, with masks, in words of a given width.
use Prim.Native.Nat.{bit_and, ℕ, zero, suc, ◌+◌, ◌-◌, ◌*◌, ◌/◌, ◌%◌, ◌^◌, ◌≤◌, ◌<◌}
use mathlib.Core.Path.{◌≡◌, sym, ap, ◌∙◌}
use native.Mathlib.Omega.{arith}
use native.Mathlib.Nat.{div-add-mod', mod-lt, mod-eq_of_lt, add-mod_right}
use partio.Prelude.Bits.{one-le-pow, pow-add, bit_and_high_mask}

-- `x + a - 1 & ~(a - 1)` in words of `w` bits
abbrev pub round_up : ℕ → ℕ → ℕ → ℕ
round_up w x a = bit_and ((x + a + 2 ^ w - 1) % 2 ^ w) (2 ^ w - 1 - (a + 2 ^ w - 1) % 2 ^ w)

mask_product : (p q n : ℕ) → 1 ≤ p → 1 ≤ q → p * q ≡ n → n - 1 - (p - 1) ≡ (q - 1) * p
mask_product p zero n h k e = absurd (omega arith)
mask_product p (suc q) n h k e = omega (arith, pred_times q p)
  where
    pred_times : (q p : ℕ) → (suc q - 1) * p ≡ q * p
    pred_times q p = ap (λ (t : ℕ). t * p) (suc_sub_one q)
      where
        suc_sub_one : (q : ℕ) → suc q - 1 ≡ q
        suc_sub_one q = omega arith

whole : (w k : ℕ) → k ≤ w → 2 ^ k * 2 ^ (w - k) ≡ 2 ^ w
whole w k h = sym (pow-add k (w - k)) ∙ ap (◌^◌ 2) (add_sub k w h)
  where
    add_sub : (k w : ℕ) → k ≤ w → k + (w - k) ≡ w
    add_sub k w h = omega arith

-- one less than a sum, without the wrap-around
minus_one : (x n : ℕ) → 1 ≤ x → x ≤ n → (x + n - 1) % n ≡ x - 1
minus_one x n pos h =
    ap (λ (t : ℕ). t % n) (shift x n pos) ∙ add-mod_right (x - 1) n ∙ mod-eq_of_lt (omega arith)
  where
    shift : (x n : ℕ) → 1 ≤ x → x + n - 1 ≡ x - 1 + n
    shift x n pos = omega arith

quotient_bound : (x p q n : ℕ) → 1 ≤ p → p * q ≡ n → x < n → x / p < q
quotient_bound x p q n pos e h = grind (arith, div-add-mod' x p, mod-lt x pos)

pub round_up_quotient :
    (w x k : ℕ) → k ≤ w → x + 2 ^ k ≤ 2 ^ w → round_up w x (2 ^ k) ≡ (x + 2 ^ k - 1) / 2 ^ k * 2 ^ k
round_up_quotient w x k small fits =
    let pos : 1 ≤ 2 ^ k = one-le-pow k in
    let left : (x + 2 ^ k + 2 ^ w - 1) % 2 ^ w ≡ x + 2 ^ k - 1 =
      minus_one (x + 2 ^ k) (2 ^ w) (omega arith) fits in
    let mask : (2 ^ k + 2 ^ w - 1) % 2 ^ w ≡ 2 ^ k - 1 =
      minus_one (2 ^ k) (2 ^ w) pos (omega arith) in
    let high : 2 ^ w - 1 - (2 ^ k - 1) ≡ (2 ^ (w - k) - 1) * 2 ^ k =
      mask_product (2 ^ k) (2 ^ (w - k)) (2 ^ w) pos (one-le-pow (w - k)) (whole w k small) in
    let below : (x + 2 ^ k - 1) / 2 ^ k < 2 ^ (w - k) =
      quotient_bound (x + 2 ^ k - 1) (2 ^ k) (2 ^ (w - k)) (2 ^ w) pos (whole w k small)
        (omega arith) in
    rw (left, mask, high) (bit_and_high_mask k (w - k) (x + 2 ^ k - 1) below)

-- Without wrap-around: the least multiple that is not below.
pub round_up_lem :
    (w x a k : ℕ)
    → k ≤ w
    → a ≡ 2 ^ k
    → x + a ≤ 2 ^ w
    → (x ≤ round_up w x a) × (round_up w x a < x + a) × ((q : ℕ) × (round_up w x a ≡ q * a))
round_up_lem w x a k small e fits =
    let at_power : round_up w x a ≡ (x + a - 1) / a * a =
      rw e (round_up_quotient w x k small (rw e at fits)) in
    let pos : 1 ≤ a = omega (arith, one-le-pow k) in
    let split = div-add-mod' (x + a - 1) a in
    let rest : (x + a - 1) % a < a = mod-lt (x + a - 1) pos in
    (omega arith, omega arith, ((x + a - 1) / a, at_power))
