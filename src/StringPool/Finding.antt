-- ===== src/StringPool/Finding.antt =====
-- src/StringPool.hpp: what the search for a text through the table finds.
use partio.Prelude.{
  ◌≢◌, Option-cases, ℕ, suc, ◌≡◌, refl, ap, ◌∙◌, inl, inr, some, List, length, get_elem?, arith,
  ◌==◌, Bool-cases, true, false,
}
use partio.Prelude.Text.{not_equal, equal, Bytes}
use partio.StringPool.Memory.{Chunk, empty_slot}
use partio.StringPool.Operations.{Entry, next_slot, Found, at_id, at_free, holds_text, find_text}
use partio.StringPool.Storage.{data_of-Stored, Stored-Extends, Stored, Extends}

-- The entry stands for the text.
pub record Named (chunks : List Chunk) (entry : Entry) (s : Bytes) : Type 0 where
  pub stored : Stored chunks entry.id s
  pub len_is : entry.len ≡ length s

pub Named-Extends :
    {chunks chunks' : List Chunk} {entry : Entry} {s : Bytes}
    → Extends chunks chunks'
    → Named chunks entry s
    → Named chunks' entry s
Named-Extends more n = record { stored = Stored-Extends more n.stored; len_is = n.len_is }

-- An entry is compared with a text by its own text.
pub holds_text-Named :
    {chunks : List Chunk} {entry : Entry} {t : Bytes} (s : Bytes)
    → Named chunks entry t
    → holds_text chunks entry s ≡ some (equal t s)
unfolding holds_text
holds_text-Named {chunks} {entry} {t} s n = elim (Bool-cases (entry.len == length s)) [
  | inl same ↦ rw (same, n.len_is, data_of-Stored n.stored) refl
  | inr other ↦
      let ne : t ≢ s = λ e. absurd (different other (n.len_is ∙ ap length e)) in
      rw (other, not_equal t s ne) refl
]
  where
    different : {a b : ℕ} → (a == b) ≡ false → a ≢ b
    different h = ground arith

-- A pass of the search: it stops at a free slot or at the text, or goes on to the next slot.
pub data Pass (chunks : List Chunk) (table : List Entry) (s : Bytes) (rounds idx : ℕ)
    (found : Found) : Type 0 where
  stops :
      (e : Entry)
      → get_elem? table idx ≡ some e
      → (e.id == empty_slot) ≡ true
      → found ≡ at_free idx
      → Pass chunks table s rounds idx found
  hits :
      (e : Entry)
      → get_elem? table idx ≡ some e
      → (e.id == empty_slot) ≡ false
      → holds_text chunks e s ≡ some true
      → found ≡ at_id e.id
      → Pass chunks table s rounds idx found
  moves :
      (e : Entry)
      → get_elem? table idx ≡ some e
      → (e.id == empty_slot) ≡ false
      → holds_text chunks e s ≡ some false
      → find_text rounds chunks table s (next_slot (length table) idx) ≡ some found
      → Pass chunks table s rounds idx found

module _ (chunks : List Chunk) (table : List Entry) (s : Bytes) (rounds idx : ℕ) where
  pub pass :
      {found : Found}
      → find_text (suc rounds) chunks table s idx ≡ some found
      → Pass chunks table s rounds idx found
  unfolding find_text
  pass {found} h = elim (Option-cases (get_elem? table idx)) [
    | inl out ↦ absurd (cc (rw out at h))
    | inr (e, at) ↦ elim (Bool-cases (e.id == empty_slot)) [
      | inl free ↦ stops e at free (cc (rw (at, free) at h))
      | inr used ↦ elim (Option-cases (holds_text chunks e s)) [
        | inl bad ↦ absurd (cc (rw (at, used, bad) at h))
        | inr (true, same) ↦ hits e at used same (cc (rw (at, used, same) at h))
        | inr (false, other) ↦ moves e at used other (rw (at, used, other) at h)
      ]
    ]
  ]

  pub find_text-stops :
      (e : Entry)
      → get_elem? table idx ≡ some e
      → (e.id == empty_slot) ≡ true
      → find_text (suc rounds) chunks table s idx ≡ some (at_free idx)
  unfolding find_text
  find_text-stops e at free = rw (at, free) refl

  pub find_text-hits :
      (e : Entry)
      → get_elem? table idx ≡ some e
      → (e.id == empty_slot) ≡ false
      → holds_text chunks e s ≡ some true
      → find_text (suc rounds) chunks table s idx ≡ some (at_id e.id)
  unfolding find_text
  find_text-hits e at used same = rw (at, used, same) refl

  pub find_text-moves :
      (e : Entry)
      → get_elem? table idx ≡ some e
      → (e.id == empty_slot) ≡ false
      → holds_text chunks e s ≡ some false
      → find_text (suc rounds) chunks table s idx
        ≡ find_text rounds chunks table s (next_slot (length table) idx)
  unfolding find_text
  find_text-moves e at used other = rw (at, used, other) refl
