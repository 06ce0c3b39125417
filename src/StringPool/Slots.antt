-- ===== src/StringPool/Slots.antt =====
-- src/StringPool.hpp: the slots of the table are a ring, and a search for a free one finds it.
use Prim.Native.Nat.{bit_and}
use native.Mathlib.Nat.{mod-eq_of_lt, mod-lt, mod_self, pow-le-pow_right}
use partio.Prelude.{
  subst, get_elem?-some, ◌≢◌, if◌then◌else◌, get_elem?-lt, Option-cases, ℕ, zero, suc, ◌+◌, ◌-◌,
  ◌%◌, ◌^◌, ◌≤◌, ◌<◌, ◌≡◌, refl, ◌⊎◌, inl, inr, none, some, List, [], ◌∷◌, length, get_elem?, arith,
  ◌==◌, Bool-cases, true, false,
}
use partio.Prelude.Text.{Bytes}
use partio.Prelude.Bits.{bit_and-mod, one-le-pow}
use partio.StringPool.Memory.{empty_slot}
use partio.StringPool.Operations.{Entry, mask_of, next_slot, first_slot, free_slot, hash_fnv1a}

-- The sizes of tables: powers of two up to 2 ^ 31.
abbrev pub IsTableSize : ℕ → Type 0
IsTableSize size = (k : ℕ) × (k ≤ 31) × (size ≡ 2 ^ k)

pub table_size_pos : (size : ℕ) → IsTableSize size → 1 ≤ size
table_size_pos size (k, _, e) = omega (arith, one-le-pow k)

table_size_bound : (k : ℕ) → k ≤ 31 → 2 ^ k ≤ 2 ^ 31
table_size_bound k h = pow-le-pow_right (omega arith) h

mask_of-power : (k : ℕ) → k ≤ 31 → mask_of (2 ^ k) ≡ 2 ^ k - 1
mask_of-power k h = mod-eq_of_lt (omega (arith, table_size_bound k h))

-- The mask takes the remainder.
masked : (size x : ℕ) → IsTableSize size → bit_and x (mask_of size) ≡ x % size
masked size x (k, small, e) = rw (e, mask_of-power k small) (bit_and-mod k x)

pub first_slot_bound : (size : ℕ) (s : Bytes) → IsTableSize size → first_slot size s < size
unfolding first_slot
first_slot_bound size s h =
    rw (masked size (hash_fnv1a s) h) (mod-lt (hash_fnv1a s) (table_size_pos size h))

-- Behind the last slot comes the first.
pub next_slot_lem :
    (size idx : ℕ)
    → IsTableSize size
    → idx < size
    → ((idx + 1 < size) × (next_slot size idx ≡ idx + 1))
      ⊎ ((idx + 1 ≡ size) × (next_slot size idx ≡ 0))
unfolding next_slot
next_slot_lem size idx h lt = elim (Bool-cases (idx + 1 == size)) [
  | inl over ↦
      let e : idx + 1 ≡ size = ground arith in
      inr (e, rw (masked size (idx + 1) h, e) (mod_self size))
  | inr within ↦
      let less : idx + 1 < size = ground arith in
      inl (less, rw (masked size (idx + 1) h) (mod-eq_of_lt less))
]

pub next_slot_bound : (size idx : ℕ) → IsTableSize size → idx < size → next_slot size idx < size
next_slot_bound size idx h lt = omega (arith, next_slot_lem size idx h lt, table_size_pos size h)

-- How many slots are taken.
abbrev pub taken : List Entry → ℕ
taken [] = 0
taken (e ∷ es) = let rest = taken es in if e.id == empty_slot then rest else suc rest

pub taken-all :
    (table : List Entry)
    → ((j : ℕ) (e : Entry) → get_elem? table j ≡ some e → (e.id == empty_slot) ≡ false)
    → taken table ≡ length table
taken-all [] h = refl
taken-all (e ∷ es) h = rw (h 0 e refl, taken-all es (λ j f at. h (suc j) f at)) refl

free_slot-none :
    (rounds : ℕ) (table : List Entry) (idx : ℕ)
    → IsTableSize (length table)
    → idx < length table
    → free_slot rounds table idx ≡ none
    → (j : ℕ) (e : Entry) → get_elem? table j ≡ some e
    → ((idx ≤ j) × (j < idx + rounds)) ⊎ (j + length table < idx + rounds)
    → (e.id == empty_slot) ≡ false
unfolding free_slot
free_slot-none zero table idx size lt h j e at range =
    absurd (omega (arith, get_elem?-lt table j at))
free_slot-none (suc rounds) table idx size lt h j e at range =
    let here : (e0 : Entry) × (get_elem? table idx ≡ some e0) = get_elem?-some table idx lt in
    elim (Bool-cases (here.0.id == empty_slot)) [
      | inl free ↦ absurd (cc (rw (here.1, free) at h))
      | inr used ↦ elim (Bool-cases (j == idx)) [
        | inl same ↦
            let e1 : j ≡ idx = ground arith in
            let e2 : here.0 ≡ e = cc (rw (e1, here.1) at at) in
            subst (λ (x : Entry). (x.id == empty_slot) ≡ false) e2 used
        | inr other ↦
            let ne : j ≢ idx = ground arith in
            free_slot-none rounds table (next_slot (length table) idx) size
              (next_slot_bound (length table) idx size lt) (rw (here.1, used) at h) j e at
              (in_range ne (get_elem?-lt table j at) range
                (next_slot_lem (length table) idx size lt))
      ]
    ]
  where
    in_range :
        {n next : ℕ}
        → j ≢ idx
        → j < n
        → ((idx ≤ j) × (j < idx + suc rounds)) ⊎ (j + n < idx + suc rounds)
        → ((idx + 1 < n) × (next ≡ idx + 1)) ⊎ ((idx + 1 ≡ n) × (next ≡ 0))
        → ((next ≤ j) × (j < next + rounds)) ⊎ (j + n < next + rounds)
    in_range ne l r s = omega arith

pub free_slot-taken :
    (table : List Entry) (idx : ℕ)
    → IsTableSize (length table)
    → idx < length table
    → taken table < length table
    → (i : ℕ) × (free_slot (length table) table idx ≡ some i)
free_slot-taken table idx size lt room = elim (Option-cases (free_slot (length table) table idx)) [
  | inl nothing ↦ absurd (
      omega (
        arith,
        taken-all table (λ j e at.
            free_slot-none (length table) table idx size lt nothing j e at
              (omega (arith, get_elem?-lt table j at))),
      ))
  | inr found ↦ found
]

pub free_slot-is_free :
    (rounds : ℕ) (table : List Entry) (idx : ℕ) {i : ℕ}
    → free_slot rounds table idx ≡ some i
    → (e : Entry) × (get_elem? table i ≡ some e) × ((e.id == empty_slot) ≡ true)
unfolding free_slot
free_slot-is_free zero table idx h = cc
free_slot-is_free (suc rounds) table idx h = elim (Option-cases (get_elem? table idx)) [
  | inl out ↦ absurd (cc (rw out at h))
  | inr (e, at) ↦ elim (Bool-cases (e.id == empty_slot)) [
    | inl free ↦ (e, go (cc (rw (at, free) at h)) at, free)
    | inr used ↦ free_slot-is_free rounds table (next_slot (length table) idx) (rw (at, used) at h)
  ]
]
  where
    go : {i : ℕ} {e : Entry} → idx ≡ i → get_elem? table idx ≡ some e → get_elem? table i ≡ some e
    go same at = rw same at at
