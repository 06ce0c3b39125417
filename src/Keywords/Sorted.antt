-- ===== src/Keywords/Sorted.antt =====
-- The order and the entries of the sorted table of src/BinaryKeywordTable.hpp.
use partio.Prelude.{
  ◌≡◌, refl, true, false, List, [], ◌∷◌, arith, if◌then◌else◌, All, Bool-cases, inl, inr,
}
use partio.Prelude.Text.{Bytes, equal, less, less_irrefl, less_trans, less-total, equal→eq}
use partio.Token.{TokenKind}
use partio.Keywords.{KeywordEntry, insert_entry, sort_entries}

-- the kind of the first entry of that name
unfoldable pub find_kind : List KeywordEntry → Bytes → TokenKind
find_kind [] s = TokenKind.token_identifier
find_kind (e ∷ es) s = if equal e.name s then e.kind else find_kind es s

less_asymm : (xs ys : Bytes) → less xs ys ≡ true → less ys xs ≡ false
less_asymm xs ys h = ground (arith, less_trans xs ys xs, less_irrefl xs)

pub not_less_trans :
    (xs ys zs : Bytes) → less ys xs ≡ false → less zs ys ≡ false → less zs xs ≡ false
not_less_trans xs ys zs h k = elim (Bool-cases (less xs ys)) [
  | inl lt ↦ ground (arith, less_trans zs xs ys)
  | inr ge ↦ rw (less-total xs ys ge h) k
]

abbrev pub AtLeast : Bytes → List KeywordEntry → Type 0
AtLeast s = All (λ e. less e.name s ≡ false)

pub data IsSorted : List KeywordEntry → Type 0 where
  nil : IsSorted []
  cons :
      {e : KeywordEntry} {es : List KeywordEntry}
      → AtLeast e.name es
      → IsSorted es
      → IsSorted (e ∷ es)

insert_entry-find :
    (e : KeywordEntry) (es : List KeywordEntry) (s : Bytes)
    → find_kind (insert_entry e es) s ≡ find_kind (e ∷ es) s
unfolding insert_entry find_kind
insert_entry-find e [] s = refl
insert_entry-find e (x ∷ xs) s =
    ground (arith, insert_entry-find e xs s, equal→eq e.name s, equal→eq x.name s, less_irrefl s)

pub sort_entries-find :
    (es : List KeywordEntry) (s : Bytes) → find_kind (sort_entries es) s ≡ find_kind es s
unfolding sort_entries find_kind
sort_entries-find [] s = refl
sort_entries-find (e ∷ es) s =
    ground (arith, insert_entry-find e (sort_entries es) s, sort_entries-find es s)

insert_entry-AtLeast :
    (s : Bytes) (e : KeywordEntry) (es : List KeywordEntry)
    → less e.name s ≡ false
    → AtLeast s es
    → AtLeast s (insert_entry e es)
unfolding insert_entry
insert_entry-AtLeast s e [] h a = (h, tt)
insert_entry-AtLeast s e (x ∷ xs) h a = elim (Bool-cases (less x.name e.name)) [
  | inl lt ↦ rw lt (a.0, insert_entry-AtLeast s e xs h a.1)
  | inr ge ↦ rw ge (h, a)
]

AtLeast-weaken :
    (s t : Bytes) (es : List KeywordEntry) → less t s ≡ false → AtLeast t es → AtLeast s es
AtLeast-weaken s t [] h a = tt
AtLeast-weaken s t (e ∷ es) h a = (not_less_trans s t e.name h a.0, AtLeast-weaken s t es h a.1)

insert_entry-IsSorted :
    (e : KeywordEntry) (es : List KeywordEntry) → IsSorted es → IsSorted (insert_entry e es)
unfolding insert_entry
insert_entry-IsSorted e [] nil = cons tt nil
insert_entry-IsSorted e (x ∷ xs) (cons a h) = elim (Bool-cases (less x.name e.name)) [
  | inl lt ↦ rw lt (
      cons (insert_entry-AtLeast x.name e xs (less_asymm x.name e.name lt) a)
        (insert_entry-IsSorted e xs h))
  | inr ge ↦ rw ge (cons (ge, AtLeast-weaken e.name x.name xs ge a) (cons a h))
]

pub sort_entries-IsSorted : (es : List KeywordEntry) → IsSorted (sort_entries es)
unfolding sort_entries
sort_entries-IsSorted [] = nil
sort_entries-IsSorted (e ∷ es) =
    insert_entry-IsSorted e (sort_entries es) (sort_entries-IsSorted es)
