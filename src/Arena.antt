-- ===== src/Arena.antt =====
-- src/Arena.hpp, src/Arena.cpp: memory that is given out piece by piece.
pub mod Pieces
use partio.Prelude.{ℕ, ◌+◌, ◌-◌, ◌*◌, ◌%◌, ◌^◌, List, [], ◌∷◌, ltb, if◌then◌else◌}
use partio.Prelude.Alignment.{round_up}

-- `data` is an address.
pub record Chunk : Type 0 where
  pub data_ptr : ℕ
  pub capacity : ℕ
  pub offset : ℕ

-- The chunks behind `next`, the newest first, are `older`.
pub record Arena : Type 0 where
  pub head : Chunk
  pub older : List Chunk
  pub chunk_size : ℕ

abbrev pub size_mod : ℕ
size_mod = 2 ^ 64

-- in 64 bits
unfoldable pub align_forward : ℕ → ℕ → ℕ
align_forward ptr alignment = round_up 64 ptr alignment

-- `Chunk(size)`, where the system gave this memory
abbrev pub new_chunk : ℕ → ℕ → Chunk
new_chunk memory size = record { data_ptr = memory; capacity = size; offset = 0 }

-- `Arena(chunk_size)`
unfoldable pub new_arena : ℕ → ℕ → Arena
new_arena memory chunk_size = record {
  head = new_chunk memory chunk_size;
  older = [];
  chunk_size = chunk_size;
}

abbrev pub current_ptr : Chunk → ℕ
current_ptr chunk = (chunk.data_ptr + chunk.offset) % size_mod

abbrev pub padding : Chunk → ℕ → ℕ
padding chunk alignment =
    (align_forward (current_ptr chunk) alignment + size_mod - current_ptr chunk) % size_mod

-- The end of `raw_allocate`: the piece is taken from the head.
abbrev pub take_piece : Arena → ℕ → ℕ → Arena × ℕ
take_piece a size alignment =
    let taken = (a.head.offset + padding a.head alignment + size) % size_mod in
    (
      record a { head = record a.head { offset = taken } },
      align_forward (current_ptr a.head) alignment,
    )

-- `std::max(chunk_size, size)`
abbrev pub new_size : Arena → ℕ → ℕ
new_size a size = if ltb a.chunk_size size then size else a.chunk_size

-- A new head, in memory that the system gave for `new_size a size` bytes.
abbrev pub push_chunk : Arena → ℕ → ℕ → Arena
push_chunk a size memory = record a {
  head = new_chunk memory (new_size a size);
  older = a.head ∷ a.older;
}

-- `memory` is what the system gives if it is asked for a chunk.
unfoldable pub raw_allocate : Arena → ℕ → ℕ → ℕ → Arena × ℕ
raw_allocate a size alignment memory =
    if ltb a.head.capacity ((a.head.offset + padding a.head alignment + size) % size_mod)
    then take_piece (push_chunk a size memory) size alignment
    else take_piece a size alignment

-- `do_allocate`
abbrev pub do_allocate : Arena → ℕ → ℕ → ℕ → Arena × ℕ
do_allocate = raw_allocate

-- `do_deallocate` does nothing.
abbrev pub do_deallocate : Arena → ℕ → ℕ → ℕ → Arena
do_deallocate a p bytes alignment = a
