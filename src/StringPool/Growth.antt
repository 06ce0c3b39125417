-- ===== src/StringPool/Growth.antt =====
-- src/StringPool.hpp: `grow_table` keeps all entries.
use partio.Prelude.{
  length-set, subst, set, ℕ, zero, suc, ◌+◌, ◌<◌, ◌≡◌, refl, sym, ap, ◌∙◌, inl, inr, Option, some,
  List, [], ◌∷◌, length, get_elem?, arith, ◌==◌, Bool-cases, true,
}
use partio.StringPool.Memory.{empty_slot}
use partio.StringPool.Operations.{
  at_id, first_slot, free_slot, TextPool, Entry, move_entry, move_entries,
}
use partio.StringPool.Tables.{
  Has-set_new, Has-set_other, find_text-set_other, find_text-Has, Has-set_cases,
  find_text-free_slot, AllNamed, Has,
}
use partio.StringPool.Indexed.{
  taken-set, Indexed-set, Indexed-unique, Entered-set_new, Indexed-AllNamed, Entered, Indexed,
}
use partio.StringPool.Storage.{get_string-Stored}
use partio.StringPool.Finding.{Named}
use partio.StringPool.Slots.{
  free_slot-is_free, first_slot_bound, free_slot-taken, IsTableSize, taken,
}

-- A table into which some of the entries of the pool were put.
pub record Partial (p : TextPool) (table : List Entry) : Type 0 where
  pub size_is : IsTableSize (length table)
  pub indexed : Indexed p.chunks table
  pub from : (e : Entry) → Has table e → Has p.hash_table e

-- What these entries lead to.
pub record Moved (p : TextPool) (entries table : List Entry) (run : Option (List Entry))
    : Type 0 where
  pub table' : List Entry
  pub run_is : run ≡ some table'
  pub partial : Partial p table'
  pub same_length : length table' ≡ length table
  pub count : taken table' ≡ taken table + taken entries
  pub kept : (e : Entry) → Has table e → Has table' e
  pub new : (e : Entry) → Has entries e → Has table' e

module _ (p : TextPool) (ix : Indexed p.chunks p.hash_table) where
  -- The entry is found after it was put into the first free slot.
  placed :
      (table : List Entry) (e : Entry)
      → Partial p table
      → Has p.hash_table e
      → (n : Entered p.chunks p.hash_table e) → {i : ℕ} {old : Entry}
      → free_slot (length table) table (first_slot (length table) n.name) ≡ some i
      → get_elem? table i ≡ some old
      → (old.id == empty_slot) ≡ true
      → Entered p.chunks (set table i e) e
  placed table e part (k, here, used) n {i} slot at free =
      let all : AllNamed p.chunks table = Indexed-AllNamed p.chunks table part.indexed in
      let first : ℕ = first_slot (length table) n.name in
      elim (find_text-free_slot p.chunks table n.name all (length table) first slot) [
        | inl h ↦ Entered-set_new p.chunks table i e n.name at free used n.named h
        | inr (id, h) ↦
            let twin : (f : Entry) × Has table f × (f.id ≡ id) × Named p.chunks f n.name =
              find_text-Has p.chunks table n.name all (length table) first id h in
            let source : Has p.hash_table twin.0 = part.from twin.0 twin.1 in
            let same : e.id ≡ twin.0.id =
              Indexed-unique p.chunks p.hash_table e twin.0 n.name k source.0 ix here used source.1
                source.2 n.named twin.3 in
            let id_is : id ≡ e.id = sym (same ∙ twin.2) in
            record {
              name = n.name;
              named = n.named;
              found = rw (length-set table i e) (
                  find_text-set_other p.chunks table n.name i e _ at free (length table) first id h
                  ∙ ap (λ k. some (at_id k)) id_is);
            }
      ]

  move_entry-taken :
      (table : List Entry) (e : Entry)
      → Partial p table
      → Has p.hash_table e
      → taken table < length table
      → Moved p (e ∷ []) table (move_entry p e table)
  unfolding move_entry Indexed
  move_entry-taken table e part (k, here, used) room =
      let n : Entered p.chunks p.hash_table e = ix k e here used in
      let first : ℕ = first_slot (length table) n.name in
      let slot : (i : ℕ) × (free_slot (length table) table first ≡ some i) =
        free_slot-taken table first part.size_is
          (first_slot_bound (length table) n.name part.size_is) room in
      let at : (old : Entry) × (get_elem? table slot.0 ≡ some old)
          × ((old.id == empty_slot) ≡ true) =
        free_slot-is_free (length table) table first slot.1 in
      record {
        table' = set table slot.0 e;
        run_is = rw (used, get_string-Stored p n.named.stored, slot.1) refl;
        partial = record {
          size_is = rw (length-set table slot.0 e) part.size_is;
          indexed =
              Indexed-set p.chunks table slot.0 e at.1 at.2 part.indexed
                (placed table e part (k, here, used) n slot.1 at.1 at.2);
          from = λ f has. from_source table slot.0 e at.1 part (k, here, used) f has;
        };
        same_length = length-set table slot.0 e;
        count = rw (taken-set table slot.0 e at.1 at.2 used, used) refl;
        kept = λ f has. Has-set_other table slot.0 e at.1 at.2 f has;
        new = λ f has. only (set table slot.0 e) f has (Has-set_new table slot.0 e at.1 used);
      }
    where
      from_source :
          (table : List Entry) (i : ℕ) (e : Entry) {old : Entry}
          → get_elem? table i ≡ some old
          → Partial p table
          → Has p.hash_table e
          → (f : Entry) → Has (set table i e) f
          → Has p.hash_table f
      from_source table i e at part has f h = elim (Has-set_cases table i e at f h) [
        | inl before ↦ part.from f before
        | inr same ↦ subst (Has p.hash_table) same has
      ]

      only : (table : List Entry) (f : Entry) → Has (e ∷ []) f → Has table e → Has table f
      only table f (zero, at, used) has = let same : e ≡ f = cc in subst (Has table) same has
      only table f (suc i, at, used) has = absurd (cc)

  move_entry-free :
      (table : List Entry) (e : Entry)
      → Partial p table
      → (e.id == empty_slot) ≡ true
      → Moved p (e ∷ []) table (move_entry p e table)
  unfolding move_entry
  move_entry-free table e part free = record {
    table' = table;
    run_is = rw free refl;
    partial = part;
    same_length = refl;
    count = rw free (omega arith);
    kept = λ f has. has;
    new = λ f has. none_there f has;
  }
    where
      none_there : (f : Entry) → Has (e ∷ []) f → Has table f
      none_there f (zero, at, used) = let same : e ≡ f = cc in absurd (cc (rw (same, used) at free))
      none_there f (suc i, at, used) = absurd (cc)

  pub move_entries_lem :
      (entries table : List Entry)
      → Partial p table
      → ((e : Entry) → Has entries e → Has p.hash_table e)
      → taken table + taken entries < length table
      → Moved p entries table (move_entries p entries table)
  unfolding move_entries
  move_entries_lem [] table part source room = record {
    table' = table;
    run_is = refl;
    partial = part;
    same_length = refl;
    count = omega arith;
    kept = λ f has. has;
    new = λ f (i, at, used). absurd (cc);
  }
  move_entries_lem (e ∷ es) table part source room =
      let one : Moved p (e ∷ []) table (move_entry p e table) =
        elim (Bool-cases (e.id == empty_slot)) [
          | inl free ↦ move_entry-free table e part free
          | inr used ↦ move_entry-taken table e part (source e (0, refl, used)) (omega arith)
        ] in
      let counted : taken (e ∷ es) ≡ taken (e ∷ []) + taken es = taken-cons e es in
      let rest : Moved p es one.table' (move_entries p es one.table') =
        move_entries_lem es one.table' one.partial (λ f (i, at, used). source f (suc i, at, used))
          (omega (arith, one.count, one.same_length)) in
      record {
        table' = rest.table';
        run_is = rw one.run_is rest.run_is;
        partial = rest.partial;
        same_length = rest.same_length ∙ one.same_length;
        count = omega (arith, rest.count, one.count);
        kept = λ f has. rest.kept f (one.kept f has);
        new = λ f has. first_or_rest one.table' rest.table' rest.kept one.new rest.new f has;
      }
    where
      taken-cons : (e : Entry) (es : List Entry) → taken (e ∷ es) ≡ taken (e ∷ []) + taken es
      taken-cons e es = elim (Bool-cases (e.id == empty_slot)) [
        | inl free ↦ rw free (omega arith)
        | inr used ↦ rw used (omega arith)
      ]

      first_or_rest :
          (middle end : List Entry)
          → ((f : Entry) → Has middle f → Has end f)
          → ((f : Entry) → Has (e ∷ []) f → Has middle f)
          → ((f : Entry) → Has es f → Has end f)
          → (f : Entry) → Has (e ∷ es) f
          → Has end f
      first_or_rest middle end on first rest f (zero, at, used) = on f (first f (0, at, used))
      first_or_rest middle end on first rest f (suc i, at, used) = rest f (i, at, used)
