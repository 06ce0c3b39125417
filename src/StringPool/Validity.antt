-- ===== src/StringPool/Validity.antt =====
-- src/StringPool.hpp: the state of the pool of strings is well formed, before and after it grows.
use native.Mathlib.Nat.{div-add-mod', mod-lt, mod-eq_of_lt, pow-suc, mul-le-mul_right}
use partio.Prelude.{
  ltb, subst, ℕ, zero, suc, ◌+◌, ◌*◌, ◌/◌, ◌%◌, ◌^◌, ◌≤◌, ◌<◌, ◌≡◌, refl, ap, ◌∙◌, inl, inr, some,
  List, [], ◌∷◌, length, get_elem?, arith, ◌==◌, Bool-cases, true, false,
}
use partio.Prelude.Text.{Bytes}
use partio.StringPool.Memory.{empty_slot}
use partio.StringPool.Operations.{
  TextPool, Entry, move_entries, empty_table, empty_entry, grow_table, is_crowded, roomy,
}
use partio.StringPool.Adding.{Filled, Filled-last}
use partio.StringPool.Tables.{Has}
use partio.StringPool.Indexed.{Indexed}
use partio.StringPool.Slots.{IsTableSize, taken, table_size_pos}
use partio.StringPool.Finding.{Named}
use partio.StringPool.Growth.{Partial, Moved, move_entries_lem}

-- The pool is well formed: a table of a size that its masks are for, that leads to every text from
-- its hash; a right count of the entries; chunks that ids can tell apart.
pub record IsValid (p : TextPool) : Type 0 where
  pub size_is : IsTableSize (length p.hash_table)
  pub filled : Filled p.chunks p.active_entries
  pub few : length p.chunks ≤ 256
  pub indexed : Indexed p.chunks p.hash_table
  pub count : taken p.hash_table ≡ p.active_entries

-- The pool has the text under this id.
pub record Holds (p : TextPool) (s : Bytes) (id : ℕ) : Type 0 where
  pub entry : Entry
  pub has : Has p.hash_table entry
  pub id_is : entry.id ≡ id
  pub named : Named p.chunks entry s

-- The same texts under the same ids, in a table that is not full.
pub record Roomy (p q : TextPool) : Type 0 where
  pub valid : IsValid q
  pub room : taken q.hash_table < length q.hash_table
  pub same_chunks : q.chunks ≡ p.chunks
  pub kept : (e : Entry) → Has p.hash_table e → Has q.hash_table e
  pub from : (e : Entry) → Has q.hash_table e → Has p.hash_table e

taken_le : (table : List Entry) → taken table ≤ length table
taken_le [] = omega arith
taken_le (e ∷ es) = elim (Bool-cases (e.id == empty_slot)) [
  | inl free ↦ rw free (omega (arith, taken_le es))
  | inr used ↦ rw used (omega (arith, taken_le es))
]

pub length-empty_table : (n : ℕ) → length (empty_table n) ≡ n
length-empty_table zero = refl
length-empty_table (suc n) = ap suc (length-empty_table n)

pub taken-empty_table : (n : ℕ) → taken (empty_table n) ≡ 0
taken-empty_table zero = refl
taken-empty_table (suc n) = taken-empty_table n

pub empty_table_free :
    (n i : ℕ) (e : Entry) → get_elem? (empty_table n) i ≡ some e → (e.id == empty_slot) ≡ true
empty_table_free zero i e h = absurd (cc)
empty_table_free (suc n) zero e h =
    let same : empty_entry ≡ e = cc in subst (λ (x : Entry). (x.id == empty_slot) ≡ true) same refl
empty_table_free (suc n) (suc i) e h = empty_table_free n i e h

pub Partial-empty_table : (p : TextPool) (n : ℕ) → IsTableSize n → Partial p (empty_table n)
unfolding Indexed
Partial-empty_table p n size = record {
  size_is = rw (length-empty_table n) size;
  indexed = λ i e at used. absurd (cc (rw (empty_table_free n i e at) at used));
  from = λ e (i, at, used). absurd (cc (rw (empty_table_free n i e at) at used));
}

-- No pool holds more texts than this.
pub active_bound : (p : TextPool) → IsValid p → p.active_entries ≤ 4194304
active_bound p v =
    let f : Filled p.chunks p.active_entries = v.filled in
    omega (arith, f.counted, v.few, Filled-last p.chunks f)

crowded_size : (x size : ℕ) → 61 ≤ x / size → size * 61 ≤ x
crowded_size x size h = grind (arith, div-add-mod' x size, mul-le-mul_right size h)

roomy_size : (x size : ℕ) → 1 ≤ size → x / size ≤ 60 → x < size * 61
roomy_size x size pos h = grind (arith, div-add-mod' x size, mod-lt x pos, mul-le-mul_right size h)

-- `grow_table` doubles the table and keeps its entries.
pub record Doubled (p q : TextPool) : Type 0 where
  pub run_is : grow_table p ≡ some q
  pub roomy : Roomy p q
  pub doubled : length q.hash_table ≡ length p.hash_table * 2
  pub same_count : q.active_entries ≡ p.active_entries

pub grow_table_lem :
    (p : TextPool)
    → IsValid p
    → IsTableSize (length p.hash_table * 2)
    → (q : TextPool) × Doubled p q
unfolding grow_table
grow_table_lem p v size =
    let n : ℕ = length p.hash_table * 2 in
    let pos : 1 ≤ length p.hash_table = table_size_pos (length p.hash_table) v.size_is in
    let room : taken (empty_table n) + taken p.hash_table < length (empty_table n) =
      omega (arith, taken-empty_table n, length-empty_table n, taken_le p.hash_table) in
    let m : Moved p p.hash_table (empty_table n) (move_entries p p.hash_table (empty_table n)) =
      move_entries_lem p v.indexed p.hash_table (empty_table n) (Partial-empty_table p n size)
        (λ e has. has) room in
    let q : TextPool = record p { hash_table = m.table' } in
    let count : taken m.table' ≡ p.active_entries =
      omega (arith, m.count, v.count, taken-empty_table n) in
    (
      q,
      record {
        run_is = rw m.run_is refl;
        roomy = record {
          valid = record {
            size_is = m.partial.size_is;
            filled = v.filled;
            few = v.few;
            indexed = m.partial.indexed;
            count = count;
          };
          room = omega (arith, m.count, m.same_length);
          same_chunks = refl;
          kept = m.new;
          from = m.partial.from;
        };
        doubled = m.same_length ∙ length-empty_table n;
        same_count = refl;
      },
    )

load : (p : TextPool) → IsValid p → p.active_entries * 100 % 2 ^ 32 ≡ p.active_entries * 100
load p v = mod-eq_of_lt (omega (arith, active_bound p v))

double_size : (n : ℕ) → IsTableSize n → n * 61 ≤ 419430400 → IsTableSize (n * 2)
double_size n (k, small, e) h = (suc k, omega (arith, below), rw (e, pow-suc 2 k) refl)
  where
    below : k ≤ 30
    below = elim (Bool-cases (k == 31)) [
      | inl last ↦ let k_is : k ≡ 31 = ground arith in absurd (omega (arith, rw k_is at e))
      | inr other ↦ ground arith
    ]

more : (a b : ℕ) → ltb a b ≡ true → suc a ≤ b
more a b h = ground arith

no_more : (a b : ℕ) → ltb a b ≡ false → b ≤ a
no_more a b h = ground arith

-- With this size a table has a free slot for the next text, and for the searches to end.
pub roomy_lem : (p : TextPool) → IsValid p → (q : TextPool) × (roomy p ≡ some q) × Roomy p q
unfolding roomy is_crowded
roomy_lem p v = elim (Bool-cases (is_crowded p)) [
  | inl crowded ↦
      let many : 61 ≤ p.active_entries * 100 / length p.hash_table =
        more 60 (p.active_entries * 100 / length p.hash_table) (rw (load p v) at crowded) in
      let size : length p.hash_table * 61 ≤ 419430400 = omega (
        arith,
        active_bound p v,
        crowded_size (p.active_entries * 100) (length p.hash_table) many,
      ) in
      let d : (q : TextPool) × Doubled p q =
        grow_table_lem p v (double_size (length p.hash_table) v.size_is size) in
      (d.0, rw crowded d.1.run_is, d.1.roomy)
  | inr sparse ↦
      let few : p.active_entries * 100 / length p.hash_table ≤ 60 =
        no_more 60 (p.active_entries * 100 / length p.hash_table) (rw (load p v) at sparse) in
      (
        p,
        rw sparse refl,
        record {
          valid = v;
          room = omega (
            arith,
            v.count,
            roomy_size (p.active_entries * 100) (length p.hash_table)
                (table_size_pos (length p.hash_table) v.size_is) few,
          );
          same_chunks = refl;
          kept = λ e has. has;
          from = λ e has. has;
        },
      )
]
