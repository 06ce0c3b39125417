-- ===== src/Examples/Pooling.antt =====
-- A small pool of strings.
use partio.Prelude.{ℕ, ◌*◌, ◌≡◌, refl, ◌↔◌, Option, none, some, List, [], ◌∷◌, length, arith}
use partio.Prelude.Text.{Bytes, bytes, equal}
use partio.Prelude.Options.{◌>>=◌}
use partio.StringPool.Memory.{encode_id, id_chunk, id_offset, chunk_read, chunk_write, data_of}
use partio.StringPool.Operations.{
  TextPool, new_pool, intern, get_string, grow_table, roomy, is_crowded, move_entries, move_entry,
  free_slot, first_slot, next_slot, hash_fnv1a, find_text, holds_text, look_up, add_text, make_room,
  store_text, aligned_used,
}
use partio.StringPool.Inserting.{HasRoom}
use partio.StringPool.Validity.{IsValid, Holds}
use partio.StringPool.Ids.{
  intern_lem, intern-same_id, here, Represents, InternsTo, intern-InternsTo, grow_table-Holds,
}
use partio.StringPool.Slots.{IsTableSize}
use partio.Prelude.Maps.{map_find}
use partio.StringPool.Tables.{Has}
use partio.StringPool.Operations.{Entry, empty_table}
use partio.StringPool.Validity.{empty_table_free}
use partio.StringPool.Ids.{run-IsValid}
use partio.StringPool.Start.{new_pool-IsValid, has_room-HasRoom}

abbrev small : TextPool
small = new_pool 4

small-IsValid : IsValid small
small-IsValid = new_pool-IsValid 4 (2, omega arith, refl)

-- the ids that calls of `intern` give one after another
abbrev intern_all : TextPool → List Bytes → Option (List ℕ)
intern_all p [] = some []
intern_all p (s ∷ ss) = do next ← intern p s; ids ← intern_all next.0 ss; some (next.1 ∷ ids)

some_ids :
    intern_all small (bytes "ab" ∷ bytes "" ∷ bytes "ab" ∷ bytes "abc" ∷ bytes "" ∷ [])
    ≡ some (0 ∷ 8 ∷ 0 ∷ 12 ∷ 8 ∷ [])
unfolding new_pool intern get_string grow_table roomy is_crowded move_entries move_entry free_slot
    first_slot next_slot hash_fnv1a find_text holds_text look_up add_text make_room store_text
    aligned_used encode_id id_chunk id_offset chunk_read chunk_write data_of equal
some_ids = refl

ab-fits : HasRoom small (bytes "ab")
unfolding new_pool
ab-fits = has_room-HasRoom small (bytes "ab") refl

intern_lem_example :
    (q : TextPool) × (id : ℕ) × (intern small (bytes "ab") ≡ some (q, id))
    × IsValid q
    × (get_string q id ≡ some (bytes "ab"))
    × ((t : Bytes) (j : ℕ)
        → Holds small t j
        → (get_string small j ≡ some t) × (get_string q j ≡ some t))
intern_lem_example = intern_lem small (bytes "ab") small-IsValid ab-fits

abbrev pool_of : Option (TextPool × ℕ) → TextPool
pool_of none = small
pool_of (some (p, id)) = p

-- the pools after one text and after two
abbrev with_ab : TextPool
with_ab = pool_of (intern small (bytes "ab"))

abbrev with_cd : TextPool
with_cd = pool_of (intern with_ab (bytes "cd"))

ab_run : intern small (bytes "ab") ≡ some (with_ab, 0)
unfolding new_pool intern get_string grow_table roomy is_crowded move_entries move_entry free_slot
    first_slot next_slot hash_fnv1a find_text holds_text look_up add_text make_room store_text
    aligned_used encode_id id_chunk id_offset chunk_read chunk_write data_of equal
ab_run = refl

cd_run : intern with_ab (bytes "cd") ≡ some (with_cd, 8)
unfolding new_pool intern get_string grow_table roomy is_crowded move_entries move_entry free_slot
    first_slot next_slot hash_fnv1a find_text holds_text look_up add_text make_room store_text
    aligned_used encode_id id_chunk id_offset chunk_read chunk_write data_of equal
cd_run = refl

cd-fits : HasRoom with_ab (bytes "cd")
unfolding new_pool intern get_string grow_table roomy is_crowded move_entries move_entry free_slot
    first_slot next_slot hash_fnv1a find_text holds_text look_up add_text make_room store_text
    aligned_used encode_id id_chunk id_offset chunk_read chunk_write data_of equal
cd-fits = has_room-HasRoom with_ab (bytes "cd") refl

intern-same_id_example : (◌≡◌ {A = ℕ} 0 8) ↔ (bytes "ab" ≡ bytes "cd")
intern-same_id_example =
    intern-same_id small (bytes "ab") (bytes "cd") with_ab with_ab with_cd 0 8 small-IsValid ab-fits
      ab_run here cd-fits cd_run

-- A new pool has no texts.
small-Represents : Represents small []
unfolding new_pool map_find
small-Represents t j = (λ e. absurd (cc), λ h. nothing h.has)
  where
    nothing : {e : Entry} → Has (empty_table 4) e → none ≡ some j
    nothing (i, at, used) = absurd (cc (rw (empty_table_free 4 i _ at) at used))

intern-InternsTo_example :
    (m' : List (Bytes × ℕ)) × InternsTo (bytes "ab") 0 [] m' × Represents with_ab m'
intern-InternsTo_example =
    intern-InternsTo small (bytes "ab") with_ab 0 [] small-IsValid ab-fits small-Represents ab_run

with_ab-IsValid : IsValid with_ab
with_ab-IsValid = run-IsValid small (bytes "ab") small-IsValid ab-fits ab_run

with_ab-size : IsTableSize (length with_ab.hash_table * 2)
unfolding new_pool intern get_string grow_table roomy is_crowded move_entries move_entry free_slot
    first_slot next_slot hash_fnv1a find_text holds_text look_up add_text make_room store_text
    aligned_used encode_id id_chunk id_offset chunk_read chunk_write data_of equal
with_ab-size = (3, omega arith, refl)

grow_table-Holds_example :
    (q : TextPool) × (grow_table with_ab ≡ some q)
    × IsValid q
    × (length q.hash_table ≡ length with_ab.hash_table * 2)
    × ((t : Bytes) (j : ℕ) → Holds with_ab t j ↔ Holds q t j)
grow_table-Holds_example = grow_table-Holds with_ab with_ab-IsValid with_ab-size
