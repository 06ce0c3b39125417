-- ===== src/Keywords/Search.antt =====
-- `lookup` of src/BinaryKeywordTable.hpp beside a search through the given entries.
use partio.Prelude.{
  ℕ, zero, suc, ◌+◌, ◌-◌, ◌/◌, ◌≤◌, ◌<◌, ◌≡◌, refl, true, false, List, [], ◌∷◌, some, arith, ◌==◌,
  length, get_elem?, get_elem?-some, get_elem?-lt, Bool-cases, ◌∙◌, inl, inr,
}
use partio.Prelude.Text.{Bytes, equal, less, equal→eq, equal_refl, less_irrefl, less-total}
use partio.Token.{TokenKind}
use partio.Keywords.{
  KeywordEntry, raw_keywords, sort_entries, name_less, lower_bound, kind_at, lookup, keywords,
}
use partio.Keywords.Sorted.{
  find_kind, AtLeast, IsSorted, cons, not_less_trans, sort_entries-find, sort_entries-IsSorted,
}

All-get_elem? :
    (s : Bytes) (es : List KeywordEntry) (j : ℕ) (b : KeywordEntry)
    → AtLeast s es
    → get_elem? es j ≡ some b
    → less b.name s ≡ false
All-get_elem? s [] j b a h = ground arith
All-get_elem? s (e ∷ es) zero b a h = ground arith
All-get_elem? s (e ∷ es) (suc j) b a h = All-get_elem? s es j b a.1 h

sorted_le :
    (es : List KeywordEntry) (i j : ℕ) (a b : KeywordEntry)
    → IsSorted es
    → i ≤ j
    → get_elem? es i ≡ some a
    → get_elem? es j ≡ some b
    → less b.name a.name ≡ false
sorted_le [] i j a b h le p q = ground arith
sorted_le (e ∷ es) zero zero a b h le p q = ground (arith, less_irrefl a.name)
sorted_le (e ∷ es) zero (suc j) a b (cons l h) le p q =
    ground (arith, All-get_elem? e.name es j b l)
sorted_le (e ∷ es) (suc i) zero a b h le p q = absurd (omega arith)
sorted_le (e ∷ es) (suc i) (suc j) a b (cons l h) le p q = sorted_le es i j a b h (omega arith) p q

-- all names below the index are less than `s`, and none from it on
record IsSplit (t : List KeywordEntry) (s : Bytes) (below above : ℕ) : Type 0 where
  small : (j : ℕ) (e : KeywordEntry) → get_elem? t j ≡ some e → j < below → less e.name s ≡ true
  large : (j : ℕ) (e : KeywordEntry) → get_elem? t j ≡ some e → above ≤ j → less e.name s ≡ false

not_less-less : (a b s : Bytes) → less b a ≡ false → less b s ≡ true → less a s ≡ true
not_less-less a b s h k = ground (arith, not_less_trans s a b)

go_left :
    (t : List KeywordEntry) (s : Bytes) (first last mid : ℕ) (m : KeywordEntry)
    → IsSorted t
    → get_elem? t mid ≡ some m
    → less m.name s ≡ false
    → IsSplit t s first last
    → IsSplit t s first mid
go_left t s first last mid m h at ge inv = record {
  small = inv.small;
  large = λ j e q le. not_less_trans s m.name e.name ge (sorted_le t mid j m e h le at q);
}

go_right :
    (t : List KeywordEntry) (s : Bytes) (first count mid : ℕ) (m : KeywordEntry)
    → IsSorted t
    → get_elem? t mid ≡ some m
    → less m.name s ≡ true
    → (mid ≡ first + count / 2) × (1 ≤ count)
    → IsSplit t s first (first + count)
    → IsSplit t s (mid + 1) (mid + 1 + (count - count / 2 - 1))
go_right t s first count mid m h at lt where_mid inv = record {
  small =
      λ j e q below. not_less-less e.name m.name s (sorted_le t j mid e m h (omega arith) q at) lt;
  large = λ j e q above. inv.large j e q (omega arith);
}

name_less-some :
    (t : List KeywordEntry) (i : ℕ) (s : Bytes) (m : KeywordEntry)
    → get_elem? t i ≡ some m
    → name_less t i s ≡ less m.name s
unfolding name_less
name_less-some t i s m h = rw (h, name_less)

-- With a round of fuel for each entry the loop ends at the first entry that is not less.
lower_bound_lem :
    (t : List KeywordEntry) (s : Bytes)
    → IsSorted t
    → (fuel first count : ℕ) → count ≤ fuel
    → first + count ≤ length t
    → IsSplit t s first (first + count)
    → IsSplit t s (lower_bound fuel t first count s) (lower_bound fuel t first count s)
unfolding lower_bound
lower_bound_lem t s h zero first count enough fits inv =
    let e : first + count ≡ first = omega arith in rw e at inv
lower_bound_lem t s h (suc fuel) first count enough fits inv = elim (Bool-cases (count == 0)) [
  | inl empty ↦ let e : first + count ≡ first = ground arith in rw empty (rw e at inv)
  | inr more ↦
      let mid = first + count / 2 in
      let (m, at) = get_elem?-some t mid (ground arith) in
      elim (Bool-cases (less m.name s)) [
        | inl lt ↦
            rw (more, name_less-some t mid s m at, lt)
              (lower_bound_lem t s h fuel (mid + 1) (count - count / 2 - 1) (ground arith)
                (ground arith) (go_right t s first count mid m h at lt (ground arith) inv))
        | inr ge ↦
            rw (more, name_less-some t mid s m at, ge)
              (lower_bound_lem t s h fuel first (count / 2) (ground arith) (ground arith)
                (go_left t s first (first + count) mid m h at ge inv))
      ]
]

find_kind-absent :
    (b s : Bytes) (es : List KeywordEntry)
    → AtLeast b es
    → less s b ≡ true
    → find_kind es s ≡ TokenKind.token_identifier
unfolding find_kind
find_kind-absent b s [] a h = refl
find_kind-absent b s (e ∷ es) (x, a) h =
    ground (arith, equal→eq e.name s, find_kind-absent b s es a)

equal-less : (a s : Bytes) → equal a s ≡ false → less a s ≡ false → less s a ≡ true
equal-less a s h k = elim (Bool-cases (less s a)) [
  | inl lt ↦ lt
  | inr ge ↦ ground (arith, less-total a s k ge, equal_refl s)
]

kind_at-find :
    (t : List KeywordEntry) (s : Bytes) (r : ℕ)
    → IsSorted t
    → IsSplit t s r r
    → kind_at (get_elem? t r) s ≡ find_kind t s
unfolding kind_at find_kind
kind_at-find [] s r h inv = refl
kind_at-find (e ∷ es) s zero (cons a h) inv =
    ground (arith, equal-less e.name s, inv.large 0 e refl, find_kind-absent e.name s es a)
kind_at-find (e ∷ es) s (suc r) (cons a h) inv = ground (
  arith,
  equal→eq e.name s,
  less_irrefl s,
  inv.small 0 e refl,
  kind_at-find es s r h (record {
    small = λ j x q below. inv.small (suc j) x q (omega arith);
    large = λ j x q above. inv.large (suc j) x q (omega arith);
  }),
)

lookup-find : (t : List KeywordEntry) (s : Bytes) → IsSorted t → lookup t s ≡ find_kind t s
unfolding lookup
lookup-find t s h = kind_at-find t s (lower_bound (length t) t 0 (length t) s) h (
    lower_bound_lem t s h (length t) 0 (length t) (omega arith) (omega arith) (record {
      small = λ j e q below. absurd (omega arith);
      large = λ j e q above. absurd (omega (arith, get_elem?-lt t j q));
    }))

-- A keyword has its kind and any other text is an identifier: the binary search over the sorted
-- table agrees with a search through the entries as they are written, for every text.
pub lookup-keywords : (s : Bytes) → lookup keywords s ≡ find_kind raw_keywords s
unfolding keywords
lookup-keywords s =
    lookup-find (sort_entries raw_keywords) s (sort_entries-IsSorted raw_keywords)
    ∙ sort_entries-find raw_keywords s
