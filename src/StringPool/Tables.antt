-- ===== src/StringPool/Tables.antt =====
-- src/StringPool.hpp: a search gives the same text again after an entry was put into a free slot.
use partio.Prelude.{
  Option-cases, get_elem?-lt, length-set, subst, get_elem?-set_self, get_elem?-set_ne, ◌≢◌, set, ℕ,
  zero, suc, ◌≡◌, sym, ap, ◌∙◌, ◌⊎◌, inl, inr, some, List, length, get_elem?, arith, ◌==◌,
  Bool-cases, true, false,
}
use partio.Prelude.Text.{equal→eq, equal, equal_refl, Bytes}
use partio.StringPool.Memory.{Chunk, empty_slot}
use partio.StringPool.Operations.{
  Entry, next_slot, free_slot, Found, at_id, at_free, holds_text, find_text,
}
use partio.StringPool.Storage.{Extends}
use partio.StringPool.Finding.{
  Named-Extends, pass, stops, hits, moves, find_text-stops, find_text-hits, find_text-moves, Named,
  holds_text-Named,
}

-- The entry stands in a slot of the table.
abbrev pub Has : List Entry → Entry → Type 0
Has table e = (i : ℕ) × (get_elem? table i ≡ some e) × ((e.id == empty_slot) ≡ false)

-- Taken slots stand for texts.
unfoldable pub AllNamed : List Chunk → List Entry → Type 0
AllNamed chunks table =
    (i : ℕ) (e : Entry)
    → get_elem? table i ≡ some e
    → (e.id == empty_slot) ≡ false
    → (t : Bytes) × Named chunks e t

-- A free slot and a taken one are not the same.
apart :
    (table : List Entry) (i j : ℕ) {e f : Entry}
    → get_elem? table i ≡ some e
    → (e.id == empty_slot) ≡ false
    → get_elem? table j ≡ some f
    → (f.id == empty_slot) ≡ true
    → j ≢ i
apart table i j {e} {f} at used at' free same =
    let g : e ≡ f = cc (rw (same, at) at at') in
    let clash : (f.id == empty_slot) ≡ false =
      subst (λ (x : Entry). (x.id == empty_slot) ≡ false) g used in
    cc

kept_slot :
    (table : List Entry) (i j : ℕ) (new : Entry) {e f : Entry}
    → get_elem? table i ≡ some e
    → (e.id == empty_slot) ≡ false
    → get_elem? table j ≡ some f
    → (f.id == empty_slot) ≡ true
    → get_elem? (set table j new) i ≡ some e
kept_slot table i j new at used at' free =
    get_elem?-set_ne table j i new (apart table i j at used at' free) ∙ at

pub Has-set_other :
    (table : List Entry) (j : ℕ) (new : Entry) {old : Entry}
    → get_elem? table j ≡ some old
    → (old.id == empty_slot) ≡ true
    → (e : Entry) → Has table e
    → Has (set table j new) e
Has-set_other table j new at' free e (i, at, used) =
    (i, kept_slot table i j new at used at' free, used)

pub Has-set_new :
    (table : List Entry) (j : ℕ) (new : Entry) {old : Entry}
    → get_elem? table j ≡ some old
    → (new.id == empty_slot) ≡ false
    → Has (set table j new) new
Has-set_new table j new at used =
    (j, get_elem?-set_self table j new (get_elem?-lt table j at), used)

pub Has-set_cases :
    (table : List Entry) (j : ℕ) (new : Entry) {old : Entry}
    → get_elem? table j ≡ some old
    → (e : Entry) → Has (set table j new) e
    → Has table e ⊎ (new ≡ e)
Has-set_cases table j new at' e (i, at, used) = elim (Bool-cases (j == i)) [
  | inl same ↦
      let here : j ≡ i = ground arith in
      inr (cc (rw (← here, get_elem?-set_self table j new (get_elem?-lt table j at')) at at))
  | inr other ↦
      let ne : j ≢ i = ground arith in inl (i, sym (get_elem?-set_ne table j i new ne) ∙ at, used)
]

module _ (chunks : List Chunk) (table : List Entry) (s : Bytes) (j : ℕ) (new old : Entry)
    (at' : get_elem? table j ≡ some old) (free : (old.id == empty_slot) ≡ true) where
  moved_on :
      (rounds idx : ℕ) (e : Entry) {found : Found}
      → get_elem? table idx ≡ some e
      → (e.id == empty_slot) ≡ false
      → holds_text chunks e s ≡ some false
      → find_text rounds chunks (set table j new) s (next_slot (length table) idx) ≡ some found
      → find_text (suc rounds) chunks (set table j new) s idx ≡ some found
  moved_on rounds idx e at used other rest =
      find_text-moves chunks (set table j new) s rounds idx e
        (kept_slot table idx j new at used at' free) used other
      ∙ rw (length-set table j new) rest

  -- What was found is found again.
  pub find_text-set_other :
      (rounds idx id : ℕ)
      → find_text rounds chunks table s idx ≡ some (at_id id)
      → find_text rounds chunks (set table j new) s idx ≡ some (at_id id)
  unfolding find_text
  find_text-set_other zero idx id h = cc
  find_text-set_other (suc rounds) idx id h = elim (pass chunks table s rounds idx h) [
    | stops e at f same ↦ absurd (cc)
    | hits e at used same is ↦
        find_text-hits chunks (set table j new) s rounds idx e
          (kept_slot table idx j new at used at' free) used same
        ∙ ap some (sym is)
    | moves e at used other rest ↦
        moved_on rounds idx e at used other
          (find_text-set_other rounds (next_slot (length table) idx) id rest)
  ]

  -- The new entry is found where the search for its text ended at its slot.
  pub find_text-set_new :
      (rounds idx : ℕ)
      → (new.id == empty_slot) ≡ false
      → Named chunks new s
      → find_text rounds chunks table s idx ≡ some (at_free j)
      → find_text rounds chunks (set table j new) s idx ≡ some (at_id new.id)
  unfolding find_text
  find_text-set_new zero idx taken named h = cc
  find_text-set_new (suc rounds) idx taken named h = elim (pass chunks table s rounds idx h) [
    | stops e at f is ↦
        let here : j ≡ idx = cc in
        rw (← here) (
          find_text-hits chunks (set table j new) s rounds j new
            (get_elem?-set_self table j new (get_elem?-lt table j at')) taken
            (holds_text-Named s named ∙ ap some (equal_refl s)))
    | hits e at used same is ↦ absurd (cc)
    | moves e at used other rest ↦
        moved_on rounds idx e at used other
          (find_text-set_new rounds (next_slot (length table) idx) taken named rest)
  ]

module _ (chunks : List Chunk) (table : List Entry) (s : Bytes)
    (named : AllNamed chunks table) where
  -- The search ends where there is a free slot: there, or before at the text.
  pub find_text-free_slot :
      (rounds idx : ℕ) {i : ℕ}
      → free_slot rounds table idx ≡ some i
      → (find_text rounds chunks table s idx ≡ some (at_free i))
        ⊎ ((id : ℕ) × (find_text rounds chunks table s idx ≡ some (at_id id)))
  unfolding AllNamed free_slot
  find_text-free_slot zero idx h = absurd (cc)
  find_text-free_slot (suc rounds) idx {i} h = elim (Option-cases (get_elem? table idx)) [
    | inl out ↦ absurd (cc (rw out at h))
    | inr (e, at) ↦ elim (Bool-cases (e.id == empty_slot)) [
      | inl free ↦
          let here : idx ≡ i = cc (rw (at, free) at h) in
          inl
            (find_text-stops chunks table s rounds idx e at free ∙ ap (λ k. some (at_free k)) here)
      | inr used ↦
          let n : (t : Bytes) × Named chunks e t = named idx e at used in
          elim (Bool-cases (equal n.0 s)) [
            | inl same ↦ inr (
              e.id,
              find_text-hits chunks table s rounds idx e at used
                  (holds_text-Named s n.1 ∙ ap some same),
            )
            | inr other ↦
                rw
                  (find_text-moves chunks table s rounds idx e at used
                    (holds_text-Named s n.1 ∙ ap some other))
                  (find_text-free_slot rounds (next_slot (length table) idx) (rw (at, used) at h))
          ]
    ]
  ]

  -- What it ends at is an entry of the text.
  pub find_text-Has :
      (rounds idx id : ℕ)
      → find_text rounds chunks table s idx ≡ some (at_id id)
      → (e : Entry) × Has table e × (e.id ≡ id) × Named chunks e s
  unfolding AllNamed find_text
  find_text-Has zero idx id h = cc
  find_text-Has (suc rounds) idx id h = elim (pass chunks table s rounds idx h) [
    | stops e at f same ↦ absurd (cc)
    | hits e at used same is ↦
        let n : (t : Bytes) × Named chunks e t = named idx e at used in
        let t_is : equal n.0 s ≡ true = cc (rw (holds_text-Named s n.1) at same) in
        (e, (idx, at, used), cc, subst (λ (t : Bytes). Named chunks e t) (equal→eq n.0 s t_is) n.1)
    | moves e at used other rest ↦ find_text-Has rounds (next_slot (length table) idx) id rest
  ]

  -- It does not depend on what is written behind the texts.
  pub find_text-Extends :
      (chunks' : List Chunk)
      → Extends chunks chunks'
      → (rounds idx : ℕ) {found : Found} → find_text rounds chunks table s idx ≡ some found
      → find_text rounds chunks' table s idx ≡ some found
  unfolding AllNamed find_text
  find_text-Extends chunks' more zero idx h = cc
  find_text-Extends chunks' more (suc rounds) idx h = elim (pass chunks table s rounds idx h) [
    | stops e at free is ↦ find_text-stops chunks' table s rounds idx e at free ∙ ap some (sym is)
    | hits e at used same is ↦
        find_text-hits chunks' table s rounds idx e at used (as_before e idx at used ∙ same)
        ∙ ap some (sym is)
    | moves e at used other rest ↦
        find_text-moves chunks' table s rounds idx e at used (as_before e idx at used ∙ other)
        ∙ find_text-Extends chunks' more rounds (next_slot (length table) idx) rest
  ]
    where
      as_before :
          (e : Entry) (i : ℕ)
          → get_elem? table i ≡ some e
          → (e.id == empty_slot) ≡ false
          → holds_text chunks' e s ≡ holds_text chunks e s
      as_before e i at used =
          let n : (t : Bytes) × Named chunks e t = named i e at used in
          holds_text-Named s (Named-Extends more n.1) ∙ sym (holds_text-Named s n.1)

  pub find_text-is_free :
      (rounds idx : ℕ) {i : ℕ}
      → find_text rounds chunks table s idx ≡ some (at_free i)
      → (e : Entry) × (get_elem? table i ≡ some e) × ((e.id == empty_slot) ≡ true)
  unfolding find_text
  find_text-is_free zero idx h = cc
  find_text-is_free (suc rounds) idx {i} h = elim (pass chunks table s rounds idx h) [
    | stops e at free is ↦ let here : idx ≡ i = cc in (e, rw (here) at at, free)
    | hits e at used same is ↦ absurd (cc)
    | moves e at used other rest ↦ find_text-is_free rounds (next_slot (length table) idx) rest
  ]
