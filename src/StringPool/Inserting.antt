-- ===== src/StringPool/Inserting.antt =====
-- src/StringPool.hpp: a new text enters the pool, and the others keep their ids.
use native.Mathlib.Nat.{mod-eq_of_lt}
use partio.Prelude.{
  length-set, subst, set, ℕ, ◌+◌, ◌-◌, ◌%◌, ◌^◌, ◌≤◌, ◌≡◌, refl, sym, ap, ◌∙◌, ◌⊎◌, inl, inr,
  Option, some, List, length, get_elem?, arith, ◌==◌, true, false,
}
use partio.Prelude.Text.{Bytes}
use partio.StringPool.Memory.{Chunk, empty_slot, encode_id}
use partio.StringPool.Operations.{TextPool, Entry, at_free, add_text, first_slot}
use partio.StringPool.Storage.{Stored-not_empty, Extends}
use partio.StringPool.Adding.{Filled, Room, make_room_lem, Extends-trans}
use partio.StringPool.Writing.{Written, store_text_lem}
use partio.StringPool.Finding.{Named-Extends, Named}
use partio.StringPool.Tables.{
  find_text-Extends, Has-set_new, Has-set_other, Has-set_cases, AllNamed,
}
use partio.StringPool.Indexed.{
  taken-set, Entered-set_new, Indexed-set, Entered-Extends, Named-unique, Indexed-AllNamed, Indexed,
  search, Entered,
}
use partio.StringPool.Validity.{active_bound, IsValid, Holds}

-- The pool can take any text of this length.
pub record HasRoom (p : TextPool) (s : Bytes) : Type 0 where
  pub short : length s ≤ 65532
  pub chunk_left : length p.chunks ≤ 255

-- What `intern` leads to.
pub record Interned (p : TextPool) (s : Bytes) (run : Option (TextPool × ℕ)) : Type 0 where
  pub pool : TextPool
  pub id : ℕ
  pub run_is : run ≡ some (pool, id)
  pub valid : IsValid pool
  pub holds : Holds pool s id
  pub kept : (t : Bytes) (j : ℕ) → Holds p t j → Holds pool t j
  pub no_other : (t : Bytes) (j : ℕ) → Holds pool t j → Holds p t j ⊎ ((s ≡ t) × (id ≡ j))

abbrev new_entry : ℕ → Bytes → Entry
new_entry id s = record { id = id; len = length s }

-- The state after a new text went behind the others.
abbrev grown : TextPool → List Chunk → ℕ → Entry → TextPool
grown p chunks idx e = record {
  chunks = chunks;
  hash_table = set p.hash_table idx e;
  active_entries = p.active_entries + 1;
}

module _ (p : TextPool) (s : Bytes) (v : IsValid p) (idx : ℕ) (old : Entry)
    (at : get_elem? p.hash_table idx ≡ some old) (free : (old.id == empty_slot) ≡ true)
    (found : search p.chunks p.hash_table s ≡ some (at_free idx)) where
  IsValid-grown :
      (chunks : List Chunk) (e : Entry)
      → Extends p.chunks chunks
      → Filled chunks (p.active_entries + 1)
      → length chunks ≤ 256
      → Named chunks e s
      → IsValid (grown p chunks idx e)
  unfolding Indexed
  IsValid-grown chunks e more filled few n =
      let all : AllNamed p.chunks p.hash_table = Indexed-AllNamed p.chunks p.hash_table v.indexed in
      let used : (e.id == empty_slot) ≡ false = Stored-not_empty n.stored in
      let still : search chunks p.hash_table s ≡ some (at_free idx) =
        find_text-Extends p.chunks p.hash_table s all chunks more (length p.hash_table)
          (first_slot (length p.hash_table) s) found in
      let before : Indexed chunks p.hash_table =
        λ i f here taken. Entered-Extends more all (v.indexed i f here taken) in
      record {
        size_is = rw (length-set p.hash_table idx e) v.size_is;
        filled = filled;
        few = few;
        indexed =
            Indexed-set chunks p.hash_table idx e at free before
              (Entered-set_new chunks p.hash_table idx e s at free used n still);
        count = omega (arith, taken-set p.hash_table idx e at free used, v.count);
      }

  Holds-grown :
      (chunks : List Chunk) (e : Entry)
      → Extends p.chunks chunks
      → Named chunks e s
      → (t : Bytes) (j : ℕ) → Holds p t j
      → Holds (grown p chunks idx e) t j
  Holds-grown chunks e more n t j h = record {
    entry = h.entry;
    has = Has-set_other p.hash_table idx e at free h.entry h.has;
    id_is = h.id_is;
    named = Named-Extends more h.named;
  }

  grown-no_other :
      (chunks : List Chunk) (e : Entry)
      → Extends p.chunks chunks
      → Named chunks e s
      → (t : Bytes) (j : ℕ) → Holds (grown p chunks idx e) t j
      → Holds p t j ⊎ ((s ≡ t) × (e.id ≡ j))
  unfolding Indexed
  grown-no_other chunks e more n t j h = elim (Has-set_cases p.hash_table idx e at h.entry h.has) [
    | inl (i, here, used) ↦
        let x : Entered p.chunks p.hash_table h.entry = v.indexed i h.entry here used in
        let same : x.name ≡ t = Named-unique (Named-Extends more x.named) h.named in
        inl (record {
          entry = h.entry;
          has = (i, here, used);
          id_is = h.id_is;
          named = subst (λ (t : Bytes). Named p.chunks h.entry t) same x.named;
        })
    | inr new ↦
        let named : Named chunks e t = subst (λ (f : Entry). Named chunks f t) (sym new) h.named in
        inr (Named-unique n named, ap (λ (f : Entry). f.id) new ∙ h.id_is)
  ]

  pub add_text_lem : HasRoom p s → Interned p s (add_text p s idx)
  unfolding add_text
  add_text_lem room =
      let r : Room p.chunks p.active_entries (length s + 4) =
        make_room_lem p.chunks p.active_entries (length s + 4) v.filled
          (omega (arith, room.short)) in
      let w : Written r.chunks' p.active_entries r.offset s =
        store_text_lem r.chunks' p.active_entries r.offset s r.filled
          (r.behind r.filled.last r.filled.last_at) r.inside
          (omega (arith, r.at_most_one, room.chunk_left)) in
      let id : ℕ = encode_id (length r.chunks' - 1) r.offset in
      let e : Entry = new_entry id s in
      let n : Named w.chunks' e s = record { stored = w.stored; len_is = refl } in
      let more : Extends p.chunks w.chunks' =
        Extends-trans p.chunks r.chunks' w.chunks' r.extends w.extends in
      let index : (length r.chunks' - 1) % 2 ^ 32 ≡ length r.chunks' - 1 =
        mod-eq_of_lt (omega (arith, r.at_most_one, room.chunk_left)) in
      let place : r.offset % 2 ^ 32 ≡ r.offset = mod-eq_of_lt (omega (arith, r.inside)) in
      let len : length s % 2 ^ 32 ≡ length s = mod-eq_of_lt (omega (arith, room.short)) in
      let one_more : (p.active_entries + 1) % 2 ^ 32 ≡ p.active_entries + 1 =
        mod-eq_of_lt (omega (arith, active_bound p v)) in
      record {
        pool = grown p w.chunks' idx e;
        id = id;
        run_is = rw (r.made, index, place, w.done, len, one_more) refl;
        valid =
            IsValid-grown w.chunks' e more w.filled
              (omega (arith, w.same_length, r.at_most_one, room.chunk_left)) n;
        holds = record {
          entry = e;
          has = Has-set_new p.hash_table idx e at (Stored-not_empty n.stored);
          id_is = refl;
          named = n;
        };
        kept = Holds-grown w.chunks' e more n;
        no_other = grown-no_other w.chunks' e more n;
      }
