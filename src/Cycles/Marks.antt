-- ===== src/Cycles/Marks.antt =====
-- The marks of the search: how many targets are unseen, and what a step of the search may change.
use partio.Prelude.{
  ℕ, zero, suc, ◌+◌, ◌≤◌, ◌<◌, ◌≡◌, ◌≢◌, refl, ap, ◌∙◌, ◌⊎◌, inl, inr, arith, ◌==◌, ==_iff, ==-refl,
  Bool-cases,
}
use partio.Cycles.{Mark, unseen, in_progress, checked, Marks, mark}

pub Mark-cases : (m : Mark) → (m ≡ unseen) ⊎ (m ≡ in_progress) ⊎ (m ≡ checked)
Mark-cases Mark.unseen = inl refl
Mark-cases Mark.in_progress = inr (inl refl)
Mark-cases Mark.checked = inr (inr refl)

abbrev pub unseen_count : Mark → ℕ
unseen_count Mark.unseen = 1
unseen_count Mark.in_progress = 0
unseen_count Mark.checked = 0

-- the number of unseen targets among the first `n`
abbrev pub unseen_below : ℕ → Marks → ℕ
unseen_below zero state = 0
unseen_below (suc n) state = unseen_count (state n) + unseen_below n state

abbrev pub Later : Marks → Marks → Type 0
Later state state' = (u : ℕ) → unseen_count (state' u) ≤ unseen_count (state u)

pub unseen_below-Later :
    (n : ℕ) (state state' : Marks)
    → Later state state'
    → unseen_below n state' ≤ unseen_below n state
unseen_below-Later zero state state' h = omega arith
unseen_below-Later (suc n) state state' h = omega (arith, h n, unseen_below-Later n state state' h)

pub mark_self : (v : ℕ) (m : Mark) (state : Marks) → mark v m state v ≡ m
mark_self v m state = rw (==-refl v)

pub mark-other : (v u : ℕ) (m : Mark) (state : Marks) → u ≢ v → mark v m state u ≡ state u
mark-other v u m state h = elim (Bool-cases (u == v)) [
  | inl same ↦ absurd (h ((==_iff u v).0 same))
  | inr other ↦ rw other
]

pub same_or_not : (u v : ℕ) → (u ≡ v) ⊎ (u ≢ v)
same_or_not u v = elim (Bool-cases (u == v)) [
  | inl same ↦ inl ((==_iff u v).0 same)
  | inr other ↦ inr (λ e. cc (rw (e, ==-refl v) at other))
]

pub mark-Later :
    (v : ℕ) (m : Mark) (state : Marks) → unseen_count m ≡ 0 → Later state (mark v m state)
mark-Later v m state h u = elim (same_or_not u v) [
  | inl e ↦ rw (e, mark_self v m state) (omega arith)
  | inr d ↦ rw (mark-other v u m state d) (omega arith)
]

-- A target that is marked is no more unseen.
pub unseen_below-mark :
    (n v : ℕ) (m : Mark) (state : Marks)
    → v < n
    → state v ≡ unseen
    → unseen_count m ≡ 0
    → unseen_below n (mark v m state) < unseen_below n state
unseen_below-mark zero v m state lt e z = absurd (omega arith)
unseen_below-mark (suc n) v m state lt e z = elim (same_or_not n v) [
  | inl same ↦ omega (
    arith,
    unseen_below-Later n state (mark v m state) (mark-Later v m state z),
    ap unseen_count (ap (mark v m state) same ∙ mark_self v m state),
    ap unseen_count (ap state same ∙ e),
  )
  | inr other ↦ omega (
    arith,
    unseen_below-mark n v m state (omega arith) e z,
    ap unseen_count (mark-other v n m state other),
  )
]
