-- ===== src/PerfectKeywords/Correct.antt =====
-- src/PerfectKeywordTable.hpp: the table that is found has every keyword, and nothing else.
use native.Mathlib.Nat.{mod-eq_of_lt}
use partio.Prelude.{
  Option-cases, ==-refl, ==_iff, ◌-◌, subst, length-set, ◌≢◌, ℕ, zero, suc, ◌+◌, ◌%◌, ◌^◌, ◌≤◌, ◌<◌,
  ◌≡◌, refl, sym, ap, ◌∙◌, List, [], ◌∷◌, Option, none, some, length, get_elem?, set, true,
  Bool-cases, inl, inr, ◌==◌, arith, get_elem?-set_ne, get_elem?-set_self, get_elem?-lt,
}
use partio.Prelude.Text.{Bytes, equal, equal→eq}
use partio.Token.{TokenKind}
use partio.Keywords.{KeywordEntry}
use partio.Keywords.Sorted.{find_kind}
use partio.PerfectKeywords.{
  PerfectTable, slot_of, no_entries, is_free, fill, search_seed, kind_of, perfect_lookup,
}

is_free-eq : (o : Option (Option KeywordEntry)) → is_free o ≡ true → o ≡ some none
is_free-eq none h = cc
is_free-eq (some none) h = refl
is_free-eq (some (some e)) h = cc

-- The first entry went to a free slot.
fill_step :
    (seed : ℕ) (kw : KeywordEntry) (kws : List KeywordEntry) (t : List (Option KeywordEntry))
    {t' : List (Option KeywordEntry)}
    → fill seed (kw ∷ kws) t ≡ some t'
    → (get_elem? t (slot_of (length t) seed kw.name) ≡ some none)
      × (fill seed kws (set t (slot_of (length t) seed kw.name) (some kw)) ≡ some t')
unfolding fill
fill_step seed kw kws t h =
    elim (Bool-cases (is_free (get_elem? t (slot_of (length t) seed kw.name)))) [
      | inl free ↦ (is_free-eq (get_elem? t (slot_of (length t) seed kw.name)) free, rw free at h)
      | inr taken ↦ absurd (cc (rw taken at h))
    ]

fill-length :
    (seed : ℕ) (kws : List KeywordEntry) (t : List (Option KeywordEntry))
    {t' : List (Option KeywordEntry)}
    → fill seed kws t ≡ some t'
    → length t' ≡ length t
unfolding fill
fill-length seed [] t h = ap length (cc)
fill-length seed (kw ∷ kws) t h =
    fill-length seed kws (set t (slot_of (length t) seed kw.name) (some kw))
      (fill_step seed kw kws t h).1
    ∙ length-set t (slot_of (length t) seed kw.name) (some kw)

-- An entry stays in its slot.
fill_keeps :
    (seed : ℕ) (kws : List KeywordEntry) (t : List (Option KeywordEntry))
    {t' : List (Option KeywordEntry)} (i : ℕ) (e : KeywordEntry)
    → fill seed kws t ≡ some t'
    → get_elem? t i ≡ some (some e)
    → get_elem? t' i ≡ some (some e)
unfolding fill
fill_keeps seed [] t {t'} i e h at = let same : t ≡ t' = cc in rw (← same) at
fill_keeps seed (kw ∷ kws) t i e h at =
    let h0 : ℕ = slot_of (length t) seed kw.name in
    let step = fill_step seed kw kws t h in
    let ne : h0 ≢ i = λ same. clash same step.0 in
    fill_keeps seed kws (set t h0 (some kw)) i e step.1 (get_elem?-set_ne t h0 i (some kw) ne ∙ at)
  where
    clash : {j : ℕ} → j ≡ i → get_elem? t j ≢ some none
    clash same free = cc (rw (same, at) at free)

module _ (seed : ℕ) (s : Bytes) where
  abbrev at_slot : List (Option KeywordEntry) → TokenKind
  at_slot t = perfect_lookup (record { table = t; magic_seed = seed }) s

  -- What the entries add to a table without the name.
  fill-find :
      (kws : List KeywordEntry) (t : List (Option KeywordEntry)) {t' : List (Option KeywordEntry)}
      → fill seed kws t ≡ some t'
      → at_slot t ≡ TokenKind.token_identifier
      → at_slot t' ≡ find_kind kws s
  unfolding find_kind perfect_lookup fill
  fill-find [] t {t'} h nothing =
      let same : t ≡ t' = cc in
      subst (λ (x : List (Option KeywordEntry)). at_slot x ≡ TokenKind.token_identifier) same
        nothing
  fill-find (kw ∷ kws) t {t'} h nothing =
      let h0 : ℕ = slot_of (length t) seed kw.name in
      let t1 : List (Option KeywordEntry) = set t h0 (some kw) in
      let step = fill_step seed kw kws t h in
      let here : get_elem? t1 h0 ≡ some (some kw) =
        get_elem?-set_self t h0 (some kw) (get_elem?-lt t h0 step.0) in
      let size : length t1 ≡ length t = length-set t h0 (some kw) in
      elim (Bool-cases (equal kw.name s)) [
        | inl same ↦
            let name_is : kw.name ≡ s = equal→eq kw.name s same in
            let size' : length t' ≡ length t = fill-length seed (kw ∷ kws) t h in
            let slot : slot_of (length t') seed s ≡ h0 =
              ap (λ n. slot_of n seed s) size' ∙ ap (slot_of (length t) seed) (sym name_is) in
            rw (same, slot, fill_keeps seed kws t1 h0 kw step.1 here, same) refl
        | inr other ↦
            let empty_before : at_slot t1 ≡ TokenKind.token_identifier =
              elim (Bool-cases (h0 == slot_of (length t) seed s)) [
                | inl meets ↦
                    let slot : slot_of (length t1) seed s ≡ h0 =
                      ap (λ n. slot_of n seed s) size
                      ∙ sym ((==_iff h0 (slot_of (length t) seed s)).0 meets) in
                    rw (slot, here, other) refl
                | inr apart ↦
                    let ne : h0 ≢ slot_of (length t) seed s =
                      λ e. cc (rw (e, ==-refl (slot_of (length t) seed s)) at apart) in
                    rw (size, get_elem?-set_ne t h0 (slot_of (length t) seed s) (some kw) ne)
                      nothing
              ] in
            rw other (fill-find kws t1 step.1 empty_before)
      ]

no_entries-free :
    (size i : ℕ) (s : Bytes)
    → kind_of (get_elem? (no_entries size) i) s ≡ TokenKind.token_identifier
no_entries-free zero i s = refl
no_entries-free (suc n) zero s = refl
no_entries-free (suc n) (suc i) s = no_entries-free n i s

next_seed :
    (rounds size : ℕ) (keywords : List KeywordEntry) (magic_seed : ℕ)
    → magic_seed + 1 < 2 ^ 32
    → fill (magic_seed + 1) keywords (no_entries size) ≡ none
    → search_seed (suc rounds) size keywords magic_seed
      ≡ search_seed rounds size keywords (magic_seed + 1)
unfolding search_seed
next_seed rounds size keywords magic_seed small collision =
    let seed_is : (magic_seed + 1) % 2 ^ 32 ≡ magic_seed + 1 = mod-eq_of_lt small in
    rw (seed_is, collision) refl

-- The search ends with the first seed without collision, if it comes to one.
search_seed-first :
    (rounds size : ℕ) (keywords : List KeywordEntry) (magic_seed : ℕ)
    → (k : ℕ) (t : List (Option KeywordEntry)) → k < rounds
    → magic_seed + rounds < 2 ^ 32
    → fill (magic_seed + 1 + k) keywords (no_entries size) ≡ some t
    → (p : PerfectTable) × (search_seed rounds size keywords magic_seed ≡ some p)
      × (fill p.magic_seed keywords (no_entries size) ≡ some p.table)
      × (p.magic_seed ≤ magic_seed + 1 + k)
unfolding search_seed
search_seed-first zero size keywords magic_seed k t lt small h = absurd (omega arith)
search_seed-first (suc rounds) size keywords magic_seed k t lt small h =
    let seed_is : (magic_seed + 1) % 2 ^ 32 ≡ magic_seed + 1 = mod-eq_of_lt (omega arith) in
    elim (Option-cases (fill (magic_seed + 1) keywords (no_entries size))) [
      | inr (t1, good) ↦ (
        record { table = t1; magic_seed = magic_seed + 1 },
        rw (seed_is, good) refl,
        good,
        omega arith,
      )
      | inl collision ↦
          let more : 1 ≤ k = not_now k h collision in
          let shift : magic_seed + 1 + k ≡ magic_seed + 1 + 1 + (k - 1) = omega arith in
          let r =
            search_seed-first rounds size keywords (magic_seed + 1) (k - 1) t (omega arith)
              (omega arith) (rw shift at h) in
          (
            r.0,
            next_seed rounds size keywords magic_seed (omega arith) collision ∙ r.1,
            r.2,
            omega (arith, r.3),
          )
    ]
  where
    not_now :
        (k : ℕ)
        → fill (magic_seed + 1 + k) keywords (no_entries size) ≡ some t
        → fill (magic_seed + 1) keywords (no_entries size) ≡ none
        → 1 ≤ k
    not_now zero h collision =
        let same : magic_seed + 1 + 0 ≡ magic_seed + 1 = omega arith in
        absurd (cc (rw (same, collision) at h))
    not_now (suc k) h collision = omega arith

-- If some seed up to `rounds` has no collision, the search ends with the first one, and the table for
-- it gives every text the kind that a search through the list of keywords gives it.
pub search_seed-find :
    (rounds size : ℕ) (keywords : List KeywordEntry) (seed : ℕ) (t : List (Option KeywordEntry))
    → 1 ≤ seed
    → seed ≤ rounds
    → rounds < 2 ^ 32
    → fill seed keywords (no_entries size) ≡ some t
    → (p : PerfectTable) × (search_seed rounds size keywords 0 ≡ some p)
      × (p.magic_seed ≤ seed)
      × ((s : Bytes) → perfect_lookup p s ≡ find_kind keywords s)
unfolding perfect_lookup
search_seed-find rounds size keywords seed t pos le small h =
    let shift : seed ≡ 0 + 1 + (seed - 1) = omega arith in
    let r =
      search_seed-first rounds size keywords 0 (seed - 1) t (omega arith) (omega arith)
        (rw shift at h) in
    (
      r.0,
      r.1,
      omega (arith, r.3),
      λ s. fill-find r.0.magic_seed s keywords (no_entries size) r.2 (start r.0.magic_seed s),
    )
  where
    start : (seed : ℕ) (s : Bytes) → at_slot seed s (no_entries size) ≡ TokenKind.token_identifier
    start seed s = no_entries-free size (slot_of (length (no_entries size)) seed s) s
