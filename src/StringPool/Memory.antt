-- ===== src/StringPool/Memory.antt =====
-- src/StringPool.hpp: the chunks, their bytes, and the ids of the places in them.
use Prim.Native.Nat.{bit_and, bit_or}
use partio.Prelude.{
  ℕ, zero, suc, ◌+◌, ◌*◌, ◌/◌, ◌%◌, ◌^◌, Option, none, some, List, [], ◌∷◌, length, leb, ◌==◌,
  get_elem?, if◌then◌else◌,
}
use partio.Prelude.Text.{Bytes}
use partio.Prelude.Options.{◌>>=◌}

-- `Chunk::CAPACITY`
abbrev pub chunk_capacity : ℕ
chunk_capacity = 64 * 1024

-- The bytes of a chunk, by their offset.
pub record Chunk : Type 0 where
  pub data_at : ℕ → ℕ
  pub used : ℕ

-- `std::make_unique<char[]>` fills with zeros.
abbrev pub new_chunk : Chunk
new_chunk = record { data_at = λ offset. 0; used = 0 }

-- `memcpy` into the bytes
abbrev pub write_bytes : (ℕ → ℕ) → ℕ → Bytes → ℕ → ℕ
write_bytes data_at offset [] i = data_at i
write_bytes data_at offset (b ∷ bs) i =
    let rest = write_bytes data_at (suc offset) bs i in if i == offset then b else rest

-- `memcpy` from the bytes
abbrev pub read_bytes : (ℕ → ℕ) → ℕ → ℕ → Bytes
read_bytes data_at offset zero = []
read_bytes data_at offset (suc n) = data_at offset ∷ read_bytes data_at (suc offset) n

-- Reads and writes stay inside of the chunk.
unfoldable pub chunk_read : Chunk → ℕ → ℕ → Option Bytes
chunk_read chunk offset n =
    if leb (offset + n) chunk_capacity then some (read_bytes chunk.data_at offset n) else none

unfoldable pub chunk_write : Chunk → ℕ → Bytes → Option Chunk
chunk_write chunk offset bs =
    if leb (offset + length bs) chunk_capacity
    then some (record chunk { data_at = write_bytes chunk.data_at offset bs })
    else none

-- The bytes of a `uint32_t`, the lowest first.
abbrev pub u32_bytes : ℕ → Bytes
u32_bytes n = n % 256 ∷ n / 256 % 256 ∷ n / 65536 % 256 ∷ n / 16777216 % 256 ∷ []

abbrev pub u32_of : Bytes → ℕ
u32_of [] = 0
u32_of (b ∷ bs) = b + 256 * u32_of bs

unfoldable pub encode_id : ℕ → ℕ → ℕ
encode_id chunk_idx offset = bit_or (chunk_idx * 2 ^ 24 % 2 ^ 32) (bit_and offset 16777215)

-- The two results of `decode_id`.
unfoldable pub id_chunk : ℕ → ℕ
id_chunk id = id / 2 ^ 24

unfoldable pub id_offset : ℕ → ℕ
id_offset id = bit_and id 16777215

abbrev pub empty_slot : ℕ
empty_slot = 4294967295

-- `&data[c_off + sizeof(std::uint32_t)]` of the chunk, for so many bytes
unfoldable pub data_of : List Chunk → ℕ → ℕ → Option Bytes
data_of chunks id n = do
  chunk ← get_elem? chunks (id_chunk id)
  chunk_read chunk (id_offset id + 4) n
