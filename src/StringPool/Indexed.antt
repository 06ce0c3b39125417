-- ===== src/StringPool/Indexed.antt =====
-- src/StringPool.hpp: the table leads from each text of the pool to its one id, also after it grew.
use partio.Prelude.{
  get_elem?-set_ne, ◌≢◌, subst, get_elem?-lt, get_elem?-set_self, length-set, set, ℕ, zero, suc,
  ◌+◌, ◌≡◌, sym, ap, ◌∙◌, inl, inr, Option, some, List, [], ◌∷◌, length, get_elem?, arith, ◌==◌,
  Bool-cases, true, false,
}
use partio.Prelude.Text.{Bytes}
use partio.StringPool.Memory.{data_of, Chunk, empty_slot}
use partio.StringPool.Slots.{taken}
use partio.StringPool.Operations.{Entry, Found, at_id, at_free, find_text, first_slot}
use partio.StringPool.Storage.{data_of-Stored, Extends}
use partio.StringPool.Finding.{Named, Named-Extends}
use partio.StringPool.Tables.{find_text-Extends, AllNamed, find_text-set_other, find_text-set_new}

-- An entry has one text.
pub Named-unique :
    {chunks : List Chunk} {e : Entry} {s t : Bytes} → Named chunks e s → Named chunks e t → s ≡ t
Named-unique {chunks} {e} {s} {t} n m =
    let len : length s ≡ length t = sym n.len_is ∙ m.len_is in
    let both : some s ≡ some t =
      sym (data_of-Stored n.stored) ∙ ap (data_of chunks e.id) len ∙ data_of-Stored m.stored in
    cc

-- where `intern` searches for the text
abbrev pub search : List Chunk → List Entry → Bytes → Option Found
search chunks table s = find_text (length table) chunks table s (first_slot (length table) s)

-- The search for the text of the entry finds its id.
pub record Entered (chunks : List Chunk) (table : List Entry) (e : Entry) : Type 0 where
  pub name : Bytes
  pub named : Named chunks e name
  pub found : search chunks table name ≡ some (at_id e.id)

unfoldable pub Indexed : List Chunk → List Entry → Type 0
Indexed chunks table =
    (i : ℕ) (e : Entry)
    → get_elem? table i ≡ some e
    → (e.id == empty_slot) ≡ false
    → Entered chunks table e

pub Indexed-AllNamed :
    (chunks : List Chunk) (table : List Entry) → Indexed chunks table → AllNamed chunks table
unfolding Indexed AllNamed
Indexed-AllNamed chunks table ix i e at used = ((ix i e at used).name, (ix i e at used).named)

pub Entered-Extends :
    {chunks chunks' : List Chunk} {table : List Entry} {e : Entry}
    → Extends chunks chunks'
    → AllNamed chunks table
    → Entered chunks table e
    → Entered chunks' table e
Entered-Extends {chunks} {chunks'} {table} {e} more all n = record {
  name = n.name;
  named = Named-Extends more n.named;
  found =
      find_text-Extends chunks table n.name all chunks' more (length table)
        (first_slot (length table) n.name) n.found;
}

-- An entry in a free slot does not hide the others, and is found.
pub Indexed-set :
    (chunks : List Chunk) (table : List Entry) (j : ℕ) (new : Entry) {old : Entry}
    → get_elem? table j ≡ some old
    → (old.id == empty_slot) ≡ true
    → Indexed chunks table
    → Entered chunks (set table j new) new
    → Indexed chunks (set table j new)
unfolding Indexed
Indexed-set chunks table j new at' free ix entered i e at used = elim (Bool-cases (j == i)) [
  | inl same ↦
      let here : j ≡ i = ground arith in
      let e_is : new ≡ e =
        cc (rw (← here, get_elem?-set_self table j new (get_elem?-lt table j at')) at at) in
      subst (λ (x : Entry). Entered chunks (set table j new) x) e_is entered
  | inr other ↦
      let ne : j ≢ i = ground arith in
      let n : Entered chunks table e = ix i e (sym (get_elem?-set_ne table j i new ne) ∙ at) used in
      record {
        name = n.name;
        named = n.named;
        found = rw (length-set table j new) (
            find_text-set_other chunks table n.name j new _ at' free (length table)
              (first_slot (length table) n.name) e.id n.found);
      }
]

pub Entered-set_new :
    (chunks : List Chunk) (table : List Entry) (j : ℕ) (new : Entry) {old : Entry} (s : Bytes)
    → get_elem? table j ≡ some old
    → (old.id == empty_slot) ≡ true
    → (new.id == empty_slot) ≡ false
    → Named chunks new s
    → search chunks table s ≡ some (at_free j)
    → Entered chunks (set table j new) new
Entered-set_new chunks table j new s at' free used n h = record {
  name = s;
  named = n;
  found = rw (length-set table j new) (
      find_text-set_new chunks table s j new _ at' free (length table) (first_slot (length table) s)
        used n h);
}

pub taken-set :
    (table : List Entry) (j : ℕ) (new : Entry) {old : Entry}
    → get_elem? table j ≡ some old
    → (old.id == empty_slot) ≡ true
    → (new.id == empty_slot) ≡ false
    → taken (set table j new) ≡ taken table + 1
taken-set [] j new at free used = absurd (cc)
taken-set (e ∷ es) zero new {old} at free used =
    let e_is : old ≡ e = cc in
    let e_free : (e.id == empty_slot) ≡ true =
      subst (λ (x : Entry). (x.id == empty_slot) ≡ true) e_is free in
    rw (used, e_free) (omega arith)
taken-set (e ∷ es) (suc j) new at free used = elim (Bool-cases (e.id == empty_slot)) [
  | inl f ↦ rw f (taken-set es j new at free used)
  | inr u ↦ rw u (omega (arith, taken-set es j new at free used))
]

-- In a table an id is found by its text; so a text has one id.
pub Indexed-unique :
    (chunks : List Chunk) (table : List Entry) (e f : Entry) (s : Bytes) (i j : ℕ)
    → Indexed chunks table
    → get_elem? table i ≡ some e
    → (e.id == empty_slot) ≡ false
    → get_elem? table j ≡ some f
    → (f.id == empty_slot) ≡ false
    → Named chunks e s
    → Named chunks f s
    → e.id ≡ f.id
unfolding Indexed
Indexed-unique chunks table e f s i j ix at used at' used' n m =
    let x : Entered chunks table e = ix i e at used in
    let y : Entered chunks table f = ix j f at' used' in
    let x_name : x.name ≡ s = Named-unique x.named n in
    let y_name : y.name ≡ s = Named-unique y.named m in
    let same : x.name ≡ y.name = x_name ∙ sym y_name in
    let ids : some (at_id e.id) ≡ some (at_id f.id) =
      sym x.found ∙ ap (search chunks table) same ∙ y.found in
    cc
