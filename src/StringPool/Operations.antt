-- ===== src/StringPool/Operations.antt =====
-- src/StringPool.hpp: the pool of strings, a hash table over texts that stand in chunks.
use Prim.Native.Nat.{bit_and, bit_xor}
use partio.Prelude.{
  ℕ, zero, suc, ◌+◌, ◌-◌, ◌*◌, ◌/◌, ◌%◌, ◌^◌, Option, none, some, Bool, false, List, [], ◌∷◌, ◌++◌,
  length, leb, ltb, ◌==◌, get_elem?, set, if◌then◌else◌,
}
use partio.Prelude.Text.{Bytes, bytes, equal}
use partio.Prelude.Options.{◌>>=◌}
use partio.StringPool.Memory.{
  Chunk, new_chunk, chunk_capacity, chunk_read, chunk_write, u32_bytes, u32_of, encode_id, id_chunk,
  id_offset, empty_slot, data_of,
}

-- A slot of the table: the id of a text and its length.
pub record Entry : Type 0 where
  pub id : ℕ
  pub len : ℕ

abbrev pub empty_entry : Entry
empty_entry = record { id = empty_slot; len = 0 }

pub record TextPool : Type 0 where
  pub chunks : List Chunk
  pub hash_table : List Entry
  pub active_entries : ℕ

-- FNV-1a, in 32 bits
abbrev pub hash_from : ℕ → Bytes → ℕ
hash_from hash [] = hash
hash_from hash (c ∷ cs) = hash_from (bit_xor hash (c % 256) * 16777619 % 2 ^ 32) cs

unfoldable pub hash_fnv1a : Bytes → ℕ
hash_fnv1a str = hash_from 2166136261 str

unfoldable pub get_string : TextPool → ℕ → Option Bytes
get_string p id =
    if id == empty_slot
    then some []
    else if leb (length p.chunks) (id_chunk id)
    then some (bytes "<invalid id>")
    else (get_elem? p.chunks (id_chunk id) >>= λ chunk.
        chunk_read chunk (id_offset id) 4 >>= λ prefix.
        chunk_read chunk (id_offset id + 4) (u32_of prefix))

abbrev pub empty_table : ℕ → List Entry
empty_table zero = []
empty_table (suc n) = empty_entry ∷ empty_table n

-- the mask of a table of this size, a `uint32_t`
abbrev pub mask_of : ℕ → ℕ
mask_of size = (size - 1) % 2 ^ 32

-- The slot that comes next.
unfoldable pub next_slot : ℕ → ℕ → ℕ
next_slot size idx = bit_and (idx + 1) (mask_of size)

-- Where the search for a text begins.
unfoldable pub first_slot : ℕ → Bytes → ℕ
first_slot size str = bit_and (hash_fnv1a str) (mask_of size)

-- The loop of `grow_table` that looks for a free slot; `none` where it ran for all its rounds.
unfoldable pub free_slot : ℕ → List Entry → ℕ → Option ℕ
free_slot zero table idx = none
free_slot (suc rounds) table idx =
    let rest = free_slot rounds table (next_slot (length table) idx) in
    get_elem? table idx >>= λ entry. if entry.id == empty_slot then some idx else rest

-- One pass of the loop of `grow_table`, in a table with an entry less.
unfoldable pub move_entry : TextPool → Entry → List Entry → Option (List Entry)
move_entry old entry table =
    if entry.id == empty_slot
    then some table
    else (get_string old entry.id >>= λ s.
        free_slot (length table) table (first_slot (length table) s) >>= λ idx.
        some (set table idx entry))

unfoldable pub move_entries : TextPool → List Entry → List Entry → Option (List Entry)
move_entries old [] table = some table
move_entries old (entry ∷ entries) table =
    move_entry old entry table >>= λ next. move_entries old entries next

unfoldable pub grow_table : TextPool → Option TextPool
grow_table p = move_entries p p.hash_table (empty_table (length p.hash_table * 2)) >>= λ table.
    some (record p { hash_table = table })

-- `StringPool` with a table of this size
unfoldable pub new_pool : ℕ → TextPool
new_pool initial_hash_size = record {
  chunks = new_chunk ∷ [];
  hash_table = empty_table initial_hash_size;
  active_entries = 0;
}

-- How the search of `intern` ends: at the text, or at a free slot.
pub data Found : Type 0 where
  at_id : ℕ → Found
  at_free : ℕ → Found

-- Does the slot hold the text? The texts are compared where the lengths agree.
unfoldable pub holds_text : List Chunk → Entry → Bytes → Option Bool
holds_text chunks entry str =
    if entry.len == length str
    then (data_of chunks entry.id entry.len >>= λ text. some (equal text str))
    else some false

unfoldable pub find_text : ℕ → List Chunk → List Entry → Bytes → ℕ → Option Found
find_text zero chunks table str idx = none
find_text (suc rounds) chunks table str idx =
    let rest = find_text rounds chunks table str (next_slot (length table) idx) in
    get_elem? table idx >>= λ entry.
    if entry.id == empty_slot
    then some (at_free idx)
    else (holds_text chunks entry str >>= λ same. if same then some (at_id entry.id) else rest)

-- `used + 3 & ~3`, in 64 bits
unfoldable pub aligned_used : ℕ → ℕ
aligned_used used = bit_and (used + 3) (2 ^ 64 - 4)

abbrev pub first_bytes : ℕ → Bytes → Bytes
first_bytes zero str = []
first_bytes (suc n) [] = []
first_bytes (suc n) (b ∷ bs) = b ∷ first_bytes n bs

-- The chunk that takes a text, and the place in it: the last one, or else a new one.
unfoldable pub make_room : List Chunk → ℕ → Option (List Chunk × ℕ)
make_room chunks needed = get_elem? chunks (length chunks - 1) >>= λ chunk.
    if ltb chunk_capacity (aligned_used chunk.used + needed)
    then some (chunks ++ new_chunk ∷ [], 0)
    else some (chunks, aligned_used chunk.used)

-- The length and the bytes of a text are written into the last chunk.
unfoldable pub store_text : List Chunk → ℕ → Bytes → Option (List Chunk)
store_text chunks current_used str =
    let len = length str % 2 ^ 32 in
    get_elem? chunks (length chunks - 1) >>= λ chunk.
    chunk_write chunk current_used (u32_bytes len) >>= λ with_length.
    chunk_write with_length (current_used + 4) (first_bytes len str) >>= λ with_text.
    some
      (set chunks (length chunks - 1) (record with_text { used = current_used + (length str + 4) }))

unfoldable pub add_text : TextPool → Bytes → ℕ → Option (TextPool × ℕ)
add_text p str idx = make_room p.chunks (length str + 4) >>= λ room.
    let new_id = encode_id ((length room.0 - 1) % 2 ^ 32) (room.1 % 2 ^ 32) in
    store_text room.0 room.1 str >>= λ chunks. some (
      record {
        chunks = chunks;
        hash_table = set p.hash_table idx (record { id = new_id; len = length str % 2 ^ 32 });
        active_entries = (p.active_entries + 1) % 2 ^ 32;
      },
      new_id,
    )

abbrev pub settle : TextPool → Bytes → Found → Option (TextPool × ℕ)
settle p str (Found.at_id id) = some (p, id)
settle p str (Found.at_free idx) = add_text p str idx

unfoldable pub look_up : TextPool → Bytes → Option Found
look_up p str =
    let size = length p.hash_table in find_text size p.chunks p.hash_table str (first_slot size str)

-- Are more than 60 % of the slots taken?
unfoldable pub is_crowded : TextPool → Bool
is_crowded p = ltb 60 (p.active_entries * 100 % 2 ^ 32 / length p.hash_table)

unfoldable pub roomy : TextPool → Option TextPool
roomy p = if is_crowded p then grow_table p else some p

-- `none` stands for a write or a read past a chunk, or for a search that does not end.
unfoldable pub intern : TextPool → Bytes → Option (TextPool × ℕ)
intern p str = roomy p >>= λ q. look_up q str >>= λ found. settle q str found
