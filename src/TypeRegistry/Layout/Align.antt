-- ===== src/TypeRegistry/Layout/Align.antt =====
-- `align_up` for an alignment that is a power of two.
use native.Mathlib.Nat.{pow-suc, pow-le-pow_right}
use partio.Prelude.{ℕ, suc, ◌+◌, ◌-◌, ◌*◌, ◌^◌, ◌≤◌, ◌<◌, ◌≡◌, refl, ap, ◌∙◌, ◌⊎◌, inl, inr, arith}
use partio.Prelude.Alignment.{round_up, round_up_lem}
use partio.Prelude.Bits.{one-le-pow, pow-add}
use partio.TypeRegistry.{align_up, u32_mod}

abbrev pub IsAlignment : ℕ → Type 0
IsAlignment a = (k : ℕ) × (k ≤ 31) × (a ≡ 2 ^ k)

abbrev pub IsMultiple : ℕ → ℕ → Type 0
IsMultiple a n = (q : ℕ) × (n ≡ q * a)

pub IsMultiple-add : (a m n : ℕ) → IsMultiple a m → IsMultiple a n → IsMultiple a (m + n)
IsMultiple-add a m n (p, e) (q, f) = (p + q, grind arith)

pub IsMultiple-mul : (a i n : ℕ) → IsMultiple a n → IsMultiple a (i * n)
IsMultiple-mul a i n (q, e) = (i * q, grind arith)

pub IsMultiple-trans : (a b c : ℕ) → IsMultiple a b → IsMultiple b c → IsMultiple a c
IsMultiple-trans a b c (p, e) (q, f) = (q * p, grind arith)

sub_add : (k j : ℕ) → j ≤ k → k ≡ k - j + j
sub_add k j h = omega arith

pow_split : (j k : ℕ) → j ≤ k → 2 ^ k ≡ 2 ^ (k - j) * 2 ^ j
pow_split j k h = ap (◌^◌ 2) (sub_add k j h) ∙ pow-add (k - j) j

-- Of two alignments the smaller divides the larger.
pub alignment_divides : (a b : ℕ) → IsAlignment a → IsAlignment b → a ≤ b → IsMultiple a b
alignment_divides a b (j, _, e) (k, _, f) h = go (le_or_lt j k)
  where
    le_or_lt : (j k : ℕ) → (j ≤ k) ⊎ (k < j)
    le_or_lt j k = omega arith

    go : (j ≤ k) ⊎ (k < j) → IsMultiple a b
    go (inl le) = (2 ^ (k - j), rw (f, e) (pow_split j k le))
    go (inr lt) =
        let up : 2 ^ suc k ≤ 2 ^ j = pow-le-pow_right (omega arith) lt in
        absurd (omega (arith, pow-suc 2 k, one-le-pow k))

pub alignment_pos : (a : ℕ) → IsAlignment a → 1 ≤ a
alignment_pos a (k, _, e) = omega (arith, one-le-pow k)

align_up-round_up : (value align : ℕ) → align_up value align ≡ round_up 32 value align
unfolding align_up
align_up-round_up value align = refl

-- Without wrap-around `align_up` gives the least multiple of the alignment that is not below.
pub align_up_lem :
    (value a : ℕ)
    → IsAlignment a
    → value + a ≤ u32_mod
    → (value ≤ align_up value a) × (align_up value a < value + a) × IsMultiple a (align_up value a)
align_up_lem value a (k, small, e) fits =
    rw (align_up-round_up value a) (round_up_lem 32 value a k (omega arith) e fits)
