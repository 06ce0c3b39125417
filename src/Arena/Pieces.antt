-- ===== src/Arena/Pieces.antt =====
-- src/Arena.hpp: the pieces of memory that an arena gives out.
use native.Mathlib.Nat.{mul-le-mul_right, mod-eq_of_lt}
use partio.Prelude.{
  ◌≢◌, All-map, ℕ, ◌+◌, ◌-◌, ◌*◌, ◌%◌, ◌^◌, ◌≤◌, ◌<◌, ◌≡◌, refl, ap, ◌∙◌, ◌⊎◌, inl, inr, List, [],
  ◌∷◌, All, arith, Bool-cases, ltb, true,
}
use partio.Prelude.Alignment.{round_up_lem}
use partio.Arena.{
  Arena, Chunk, new_chunk, align_forward, current_ptr, padding, size_mod, take_piece, push_chunk,
  new_size, raw_allocate,
}

pub record Piece : Type 0 where
  pub start : ℕ
  pub size : ℕ

-- The piece lies in the used part of the chunk.
abbrev pub LiesIn : Piece → Chunk → Type 0
LiesIn piece chunk =
    (chunk.data_ptr ≤ piece.start) × (piece.start + piece.size ≤ chunk.data_ptr + chunk.offset)

abbrev pub LiesInOne : Piece → List Chunk → Type 0
LiesInOne piece [] = ⊥
LiesInOne piece (chunk ∷ chunks) = LiesIn piece chunk ⊎ LiesInOne piece chunks

abbrev pub Apart : Chunk → Chunk → Type 0
Apart c d = (c.data_ptr + c.capacity ≤ d.data_ptr) ⊎ (d.data_ptr + d.capacity ≤ c.data_ptr)

abbrev pub Clear : Piece → Piece → Type 0
Clear p q = (p.start + p.size ≤ q.start) ⊎ (q.start + q.size ≤ p.start)

-- No two of the pieces overlap.
abbrev pub Separate : List Piece → Type 0
Separate [] = Unit
Separate (p ∷ ps) = All (Clear p) ps × Separate ps

abbrev pub IsWithin : Chunk → Type 0
IsWithin chunk = chunk.offset ≤ chunk.capacity

-- Pieces that the arena gave out.
pub record Placed (a : Arena) (pieces : List Piece) : Type 0 where
  pub head_within : IsWithin a.head
  pub head_low : a.head.data_ptr + a.head.capacity ≤ 2 ^ 63
  pub older_within : All IsWithin a.older
  pub apart : All (Apart a.head) a.older
  pub inside : All (λ p. LiesInOne p (a.head ∷ a.older)) pieces
  pub separate : Separate pieces

-- What the system promises of the memory for a chunk: an address of this alignment, in the lower
-- half of the address space, and none of it in use.
pub record Fresh (a : Arena) (size alignment memory : ℕ) : Type 0 where
  pub aligned : (q : ℕ) × (memory ≡ q * alignment)
  pub low : memory + new_size a size ≤ 2 ^ 63
  pub off_head : Apart (new_chunk memory (new_size a size)) a.head
  pub off_older : All (Apart (new_chunk memory (new_size a size))) a.older

abbrev pub IsAlignment : ℕ → Type 0
IsAlignment alignment = (k : ℕ) × (k ≤ 62) × (alignment ≡ 2 ^ k) × (alignment ≤ 2 ^ 62)

-- The piece that is taken from the head, if it fits.
record Taken (a : Arena) (size alignment : ℕ) : Type 0 where
  ptr : ℕ
  used : ℕ
  taken_is :
      take_piece a size alignment ≡ (record a { head = record a.head { offset = used } }, ptr)
  used_is : a.head.data_ptr + used ≡ ptr + size
  behind : a.head.data_ptr + a.head.offset ≤ ptr
  close : ptr < a.head.data_ptr + a.head.offset + alignment
  multiple : (q : ℕ) × (ptr ≡ q * alignment)
  tested : (a.head.offset + padding a.head alignment + size) % size_mod ≡ used

taken :
    (a : Arena) (size alignment : ℕ)
    → IsWithin a.head
    → a.head.data_ptr + a.head.capacity ≤ 2 ^ 63
    → IsAlignment alignment
    → size ≤ 2 ^ 62
    → Taken a size alignment
unfolding align_forward
taken a size alignment within low (k, small, power, bound) short =
    let cur : ℕ = a.head.data_ptr + a.head.offset in
    let cur_is : current_ptr a.head ≡ cur = mod-eq_of_lt (omega arith) in
    let ptr : ℕ = align_forward cur alignment in
    let up : (cur ≤ ptr) × (ptr < cur + alignment) × ((q : ℕ) × (ptr ≡ q * alignment)) =
      round_up_lem 64 cur alignment k (omega arith) power (omega arith) in
    let pad : padding a.head alignment ≡ ptr - cur =
      rw cur_is (pad_is cur ptr up.0 (omega (arith, up.1))) in
    let used : ℕ = a.head.offset + (ptr - cur) + size in
    let no_wrap : used % size_mod ≡ used = mod-eq_of_lt (omega (arith, up.1)) in
    record {
      ptr = ptr;
      used = used;
      taken_is = rw (pad, cur_is, no_wrap) refl;
      used_is = omega (arith, up.0);
      behind = up.0;
      close = up.1;
      multiple = up.2;
      tested = rw pad no_wrap;
    }
  where
    pad_is :
        (cur ptr : ℕ) → cur ≤ ptr → ptr < 2 ^ 64 → (ptr + size_mod - cur) % size_mod ≡ ptr - cur
    pad_is cur ptr le h = omega arith

-- A piece in another chunk does not meet what lies in the head.
Clear-others :
    (new p : Piece) (head : Chunk) (chunks : List Chunk)
    → head.data_ptr ≤ new.start
    → new.start + new.size ≤ head.data_ptr + head.capacity
    → All (Apart head) chunks
    → All IsWithin chunks
    → LiesInOne p chunks
    → Clear new p
Clear-others new p head [] low high apart within i = elim i [ ]
Clear-others new p head (c ∷ cs) low high apart within (inl (f, g)) =
    omega (arith, apart.0, within.0)
Clear-others new p head (c ∷ cs) low high apart within (inr rest) =
    Clear-others new p head cs low high apart.1 within.1 rest

Placed-taken :
    (a : Arena) (size alignment : ℕ) (pieces : List Piece) (t : Taken a size alignment)
    → Placed a pieces
    → t.used ≤ a.head.capacity
    → Placed
        (record a { head = record a.head { offset = t.used } })
        (record { start = t.ptr; size = size } ∷ pieces)
Placed-taken a size alignment pieces t v fits =
    let new : Piece = record { start = t.ptr; size = size } in
    let head : Chunk = record a.head { offset = t.used } in
    record {
      head_within = fits;
      head_low = v.head_low;
      older_within = v.older_within;
      apart = v.apart;
      inside = (
        inl (omega (arith, t.behind), omega (arith, t.used_is)),
        All-map pieces (λ p i. still p i) v.inside,
      );
      separate = (All-map pieces (λ p i. clear p i) v.inside, v.separate);
    }
  where
    still :
        (p : Piece)
        → LiesInOne p (a.head ∷ a.older)
        → LiesInOne p (record a.head { offset = t.used } ∷ a.older)
    still p (inl (f, g)) = inl (f, omega (arith, t.behind, t.used_is))
    still p (inr i) = inr i

    clear :
        (p : Piece)
        → LiesInOne p (a.head ∷ a.older)
        → Clear (record { start = t.ptr; size = size }) p
    clear p (inl (f, g)) = inr (omega (arith, t.behind))
    clear p (inr i) =
        Clear-others (record { start = t.ptr; size = size }) p a.head a.older
          (omega (arith, t.behind)) (omega (arith, t.used_is, v.head_within)) v.apart v.older_within
          i

Placed-push_chunk :
    (a : Arena) (size alignment memory : ℕ) (pieces : List Piece)
    → Placed a pieces
    → Fresh a size alignment memory
    → Placed (push_chunk a size memory) pieces
Placed-push_chunk a size alignment memory pieces v f = record {
  head_within = omega arith;
  head_low = f.low;
  older_within = (v.head_within, v.older_within);
  apart = (f.off_head, f.off_older);
  inside = All-map pieces (λ p i. inr i) v.inside;
  separate = v.separate;
}

same_multiple :
    (a m n : ℕ) → ((q : ℕ) × (m ≡ q * a)) → ((q : ℕ) × (n ≡ q * a)) → m ≤ n → n < m + a → n ≡ m
same_multiple a m n (q, e) (r, f) le lt = elim (Bool-cases (ltb q r)) [
  | inl more ↦
      let up : (q + 1) * a ≤ r * a = mul-le-mul_right a (ground arith) in absurd (grind (arith, up))
  | inr no_more ↦
      let down : r * a ≤ q * a = mul-le-mul_right a (ground arith) in omega (arith, down)
]

new_size_enough : (a : Arena) (size : ℕ) → size ≤ new_size a size
new_size_enough a size = ground arith

-- An arena gives out pieces that are aligned as asked for, lie in full in its chunks and do not
-- overlap any piece that it gave out before, if the system gives memory that is not in use and
-- aligned as the piece. Alignments are powers of two; they and sizes are at most 2 ^ 62.
pub raw_allocate-Placed :
    (a : Arena) (pieces : List Piece) (size alignment memory : ℕ)
    → Placed a pieces
    → IsAlignment alignment
    → size ≤ 2 ^ 62
    → Fresh a size alignment memory
    → (a' : Arena) × (ptr : ℕ) × (raw_allocate a size alignment memory ≡ (a', ptr))
      × Placed a' (record { start = ptr; size = size } ∷ pieces)
      × ((q : ℕ) × (ptr ≡ q * alignment))
unfolding raw_allocate
raw_allocate-Placed a pieces size alignment memory v al short f =
    let t : Taken a size alignment = taken a size alignment v.head_within v.head_low al short in
    elim (Bool-cases (ltb a.head.capacity t.used)) [
      | inl full ↦
          let b : Arena = push_chunk a size memory in
          let w : Placed b pieces = Placed-push_chunk a size alignment memory pieces v f in
          let u : Taken b size alignment =
            taken b size alignment w.head_within w.head_low al short in
          let start : u.ptr ≡ memory =
            same_multiple alignment memory u.ptr f.aligned u.multiple (omega (arith, u.behind))
              (omega (arith, u.close)) in
          let fits : u.used ≤ b.head.capacity = omega (arith, u.used_is, new_size_enough a size) in
          (
            record b { head = record b.head { offset = u.used } },
            u.ptr,
            rw (ap (ltb a.head.capacity) t.tested ∙ full) u.taken_is,
            Placed-taken b size alignment pieces u w fits,
            u.multiple,
          )
      | inr room ↦ (
        record a { head = record a.head { offset = t.used } },
        t.ptr,
        rw (ap (ltb a.head.capacity) t.tested ∙ room) t.taken_is,
        Placed-taken a size alignment pieces t v (ground arith),
        t.multiple,
      )
    ]

-- A piece of at least `chunk_size` bytes does not fit the chunk that is made for it, if the memory of
-- this chunk is not aligned as the piece: what lies before the piece is missing at its end.
pub raw_allocate_overruns :
    (a : Arena) (size alignment memory : ℕ)
    → IsAlignment alignment
    → size ≤ 2 ^ 62
    → a.chunk_size ≤ size
    → memory + size ≤ 2 ^ 63
    → ((q : ℕ) → memory ≢ q * alignment)
    → a.head.capacity < (a.head.offset + padding a.head alignment + size) % size_mod
    → (a' : Arena) × (ptr : ℕ) × (raw_allocate a size alignment memory ≡ (a', ptr))
      × (a'.head.data_ptr + a'.head.capacity < ptr + size)
unfolding raw_allocate
raw_allocate_overruns a size alignment memory al short big low odd full =
    let b : Arena = push_chunk a size memory in
    let size_is : new_size a size ≡ size = ground arith in
    let u : Taken b size alignment =
      taken b size alignment (omega arith) (omega (arith, size_is)) al short in
    let test : ltb a.head.capacity ((a.head.offset + padding a.head alignment + size) % size_mod)
        ≡ true =
      ground arith in
    let off : memory ≢ u.ptr = λ e. odd u.multiple.0 (e ∙ u.multiple.1) in
    (
      record b { head = record b.head { offset = u.used } },
      u.ptr,
      rw test u.taken_is,
      omega (arith, size_is, u.behind, off),
    )
