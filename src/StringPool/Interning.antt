-- ===== src/StringPool/Interning.antt =====
-- src/StringPool.hpp: `intern` gives each text one id, under which `get_string` gives it back.
use partio.Prelude.{
  subst, ℕ, ◌<◌, ◌≡◌, refl, sym, ◌∙◌, ◌⊎◌, inl, inr, some, List, length, get_elem?, ◌==◌, true,
}
use partio.Prelude.Text.{Bytes}
use partio.StringPool.Memory.{Chunk, empty_slot}
use partio.StringPool.Operations.{
  TextPool, Entry, Found, at_id, at_free, add_text, look_up, first_slot, free_slot, intern, roomy,
  get_string,
}
use partio.StringPool.Storage.{get_string-Stored}
use partio.StringPool.Slots.{taken, free_slot-taken, first_slot_bound}
use partio.StringPool.Finding.{Named}
use partio.StringPool.Tables.{find_text-Has, find_text-is_free, find_text-free_slot, Has, AllNamed}
use partio.StringPool.Indexed.{search, Indexed-unique, Indexed-AllNamed}
use partio.StringPool.Inserting.{HasRoom, Interned, add_text_lem}
use partio.StringPool.Validity.{IsValid, Holds, Roomy, roomy_lem}

-- What the search ends at.
look_up_cases :
    (p : TextPool) (s : Bytes)
    → IsValid p
    → taken p.hash_table < length p.hash_table
    → ((idx : ℕ) × (old : Entry) × (look_up p s ≡ some (at_free idx))
        × (get_elem? p.hash_table idx ≡ some old)
        × ((old.id == empty_slot) ≡ true))
      ⊎ ((id : ℕ) × (look_up p s ≡ some (at_id id)) × Holds p s id)
unfolding look_up
look_up_cases p s v room =
    let all : AllNamed p.chunks p.hash_table = Indexed-AllNamed p.chunks p.hash_table v.indexed in
    let size : ℕ = length p.hash_table in
    let first : ℕ = first_slot size s in
    let slot : (i : ℕ) × (free_slot size p.hash_table first ≡ some i) =
      free_slot-taken p.hash_table first v.size_is (first_slot_bound size s v.size_is) room in
    elim (find_text-free_slot p.chunks p.hash_table s all size first slot.1) [
      | inl h ↦
          let at : (old : Entry) × (get_elem? p.hash_table slot.0 ≡ some old)
              × ((old.id == empty_slot) ≡ true) =
            find_text-is_free p.chunks p.hash_table s all size first h in
          inl (slot.0, at.0, h, at.1, at.2)
      | inr (id, h) ↦
          let e : (e : Entry) × Has p.hash_table e × (e.id ≡ id) × Named p.chunks e s =
            find_text-Has p.chunks p.hash_table s all size first id h in
          inr (id, h, record { entry = e.0; has = e.1; id_is = e.2; named = e.3 })
    ]

pub Holds-Roomy : {p q : TextPool} → Roomy p q → (t : Bytes) (j : ℕ) → Holds p t j → Holds q t j
Holds-Roomy r t j h = record {
  entry = h.entry;
  has = r.kept h.entry h.has;
  id_is = h.id_is;
  named = subst (λ (c : List Chunk). Named c h.entry t) (sym r.same_chunks) h.named;
}

pub Roomy-Holds : {p q : TextPool} → Roomy p q → (t : Bytes) (j : ℕ) → Holds q t j → Holds p t j
Roomy-Holds r t j h = record {
  entry = h.entry;
  has = r.from h.entry h.has;
  id_is = h.id_is;
  named = subst (λ (c : List Chunk). Named c h.entry t) r.same_chunks h.named;
}

pub interned : (p : TextPool) (s : Bytes) → IsValid p → HasRoom p s → Interned p s (intern p s)
unfolding intern
interned p s v room =
    let q : (q : TextPool) × (roomy p ≡ some q) × Roomy p q = roomy_lem p v in
    let r : Roomy p q.0 = q.2 in
    let room_q : HasRoom q.0 s = record {
      short = room.short;
      chunk_left = rw r.same_chunks room.chunk_left;
    } in
    elim (look_up_cases q.0 s r.valid r.room) [
      | inl (idx, old, h, at, free) ↦
          let i : Interned q.0 s (add_text q.0 s idx) =
            add_text_lem q.0 s r.valid idx old at free (look_up_search q.0 s h) room_q in
          record {
            pool = i.pool;
            id = i.id;
            run_is = rw (q.1, h) i.run_is;
            valid = i.valid;
            holds = i.holds;
            kept = λ t j k. i.kept t j (Holds-Roomy r t j k);
            no_other = λ t j k. back r t j (i.no_other t j k);
          }
      | inr (id, h, known) ↦ record {
        pool = q.0;
        id = id;
        run_is = rw (q.1, h) refl;
        valid = r.valid;
        holds = known;
        kept = Holds-Roomy r;
        no_other = λ t j k. inl (Roomy-Holds r t j k);
      }
    ]
  where
    look_up_search :
        (q : TextPool) (s : Bytes) {f : Found}
        → look_up q s ≡ some f
        → search q.chunks q.hash_table s ≡ some f
    look_up_search q s h = unfold look_up in h

    back :
        {q : TextPool} {A : Type 0}
        → Roomy p q
        → (t : Bytes) (j : ℕ) → Holds q t j ⊎ A
        → Holds p t j ⊎ A
    back r t j (inl h) = inl (Roomy-Holds r t j h)
    back r t j (inr a) = inr a

-- A text has one id.
pub Holds-one_id :
    (p : TextPool) (s : Bytes) (i j : ℕ) → IsValid p → Holds p s i → Holds p s j → i ≡ j
Holds-one_id p s i j v a b =
    sym a.id_is
    ∙ Indexed-unique p.chunks p.hash_table a.entry b.entry s a.has.0 b.has.0 v.indexed a.has.1
        a.has.2 b.has.1 b.has.2 a.named b.named
    ∙ b.id_is

-- An id stands for one text.
pub get_string-Holds : (p : TextPool) (s : Bytes) (id : ℕ) → Holds p s id → get_string p id ≡ some s
get_string-Holds p s id h = rw (← h.id_is) (get_string-Stored p h.named.stored)
