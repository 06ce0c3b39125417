-- ===== src/Examples/Memory.antt =====
-- A small arena.
use partio.Prelude.{◌≤◌, ◌≢◌, ℕ, ◌+◌, ◌*◌, ◌%◌, ◌<◌, ◌≡◌, refl, [], ◌∷◌, arith, inr}
use partio.Arena.{size_mod, padding, align_forward, Arena, new_arena, raw_allocate, do_allocate}
use partio.Arena.Pieces.{Placed, Fresh, raw_allocate-Placed, raw_allocate_overruns}

abbrev small : Arena
small = new_arena 4096 64

small-Placed : Placed small []
unfolding new_arena
small-Placed = record {
  head_within = omega arith;
  head_low = omega arith;
  older_within = tt;
  apart = tt;
  inside = tt;
  separate = tt;
}

pieces :
    ((do_allocate small 10 1 0).1 ≡ 4096)
    × ((do_allocate (do_allocate small 10 1 0).0 8 8 0).1 ≡ 4112)
unfolding new_arena raw_allocate align_forward
pieces = (refl, refl)

small-Fresh : Fresh small 100 8 8192
unfolding new_arena
small-Fresh = record {
  aligned = (1024, refl);
  low = omega arith;
  off_head = inr (omega arith);
  off_older = tt;
}

raw_allocate-Placed_example :
    (a' : Arena) × (ptr : ℕ) × (raw_allocate small 100 8 8192 ≡ (a', ptr))
    × Placed a' (record { start = ptr; size = 100 } ∷ [])
    × ((q : ℕ) × (ptr ≡ q * 8))
raw_allocate-Placed_example =
    raw_allocate-Placed small [] 100 8 8192 small-Placed (3, omega arith, refl, omega arith)
      (omega arith) small-Fresh

small_full : small.head.capacity < (small.head.offset + padding small.head 32 + 100) % size_mod
unfolding new_arena align_forward
small_full = omega arith

not_aligned : (q : ℕ) → 8208 ≢ q * 32
not_aligned q e = omega arith

chunk_size_small : small.chunk_size ≤ 100
unfolding new_arena
chunk_size_small = omega arith

raw_allocate_overruns_example :
    (a' : Arena) × (ptr : ℕ) × (raw_allocate small 100 32 8208 ≡ (a', ptr))
    × (a'.head.data_ptr + a'.head.capacity < ptr + 100)
raw_allocate_overruns_example =
    raw_allocate_overruns small 100 32 8208 (5, omega arith, refl, omega arith) (omega arith)
      chunk_size_small (omega arith) not_aligned small_full
