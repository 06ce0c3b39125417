-- ===== src/StringPool/Storage.antt =====
-- src/StringPool.hpp: what stands in the chunks stays there, and is read back.
use Prim.Native.Nat.{bit_and, bit_or}
use native.Mathlib.Nat.{mod-eq_of_lt}
use partio.Prelude.{
  get_elem?-lt, false, ◌==◌, leb, ℕ, zero, suc, ◌+◌, ◌*◌, ◌%◌, ◌^◌, ◌≤◌, ◌<◌, ◌≡◌, refl, ap, ◌∙◌,
  ◌⊎◌, inl, inr, some, List, [], ◌∷◌, length, get_elem?, arith,
}
use partio.Prelude.Text.{Bytes}
use partio.Prelude.Bits.{bit_and-mod, bit_or-add}
use partio.StringPool.Memory.{
  Chunk, chunk_capacity, write_bytes, read_bytes, chunk_read, u32_bytes, u32_of, encode_id,
  id_chunk, id_offset, empty_slot, data_of,
}
use partio.StringPool.Operations.{TextPool, get_string, first_bytes}

pub write_bytes-outside :
    (d : ℕ → ℕ) (o : ℕ) (bs : Bytes) (i : ℕ)
    → (i < o) ⊎ (o + length bs ≤ i)
    → write_bytes d o bs i ≡ d i
write_bytes-outside d o [] i h = refl
write_bytes-outside d o (b ∷ bs) i (inl h) =
    ground (arith, write_bytes-outside d (suc o) bs i (inl (omega arith)))
write_bytes-outside d o (b ∷ bs) i (inr h) =
    ground (arith, write_bytes-outside d (suc o) bs i (inr (omega arith)))

abbrev pub AgreeOn : (ℕ → ℕ) → (ℕ → ℕ) → ℕ → ℕ → Type 0
AgreeOn d d' o n = (i : ℕ) → o ≤ i → i < o + n → d' i ≡ d i

pub read_bytes-AgreeOn :
    (d d' : ℕ → ℕ) (o n : ℕ) → AgreeOn d d' o n → read_bytes d' o n ≡ read_bytes d o n
read_bytes-AgreeOn d d' o zero h = refl
read_bytes-AgreeOn d d' o (suc n) h =
    rw
      (
        h o (omega arith) (omega arith),
        read_bytes-AgreeOn d d' (suc o) n (λ i l u. h i (omega arith) (omega arith)),
      )
      refl

write_bytes-here : (d : ℕ → ℕ) (o b : ℕ) (bs : Bytes) → write_bytes d o (b ∷ bs) o ≡ b
write_bytes-here d o b bs = ground arith

write_bytes-behind :
    (d : ℕ → ℕ) (o b : ℕ) (bs : Bytes) (i : ℕ)
    → suc o ≤ i
    → write_bytes d o (b ∷ bs) i ≡ write_bytes d (suc o) bs i
write_bytes-behind d o b bs i h = ground arith

pub read_bytes-write_bytes :
    (d : ℕ → ℕ) (o : ℕ) (bs : Bytes) → read_bytes (write_bytes d o bs) o (length bs) ≡ bs
read_bytes-write_bytes d o [] = refl
read_bytes-write_bytes d o (b ∷ bs) =
    rw
      (
        write_bytes-here d o b bs,
        read_bytes-AgreeOn (write_bytes d (suc o) bs) (write_bytes d o (b ∷ bs)) (suc o) (length bs)
            (λ i l u. write_bytes-behind d o b bs i l),
        read_bytes-write_bytes d (suc o) bs,
      )
      refl

pub u32_of-u32_bytes : (n : ℕ) → n < 2 ^ 32 → u32_of (u32_bytes n) ≡ n
u32_of-u32_bytes n h = omega arith

pub first_bytes-all : (s : Bytes) → first_bytes (length s) s ≡ s
first_bytes-all [] = refl
first_bytes-all (b ∷ bs) = ap (◌∷◌ b) (first_bytes-all bs)

pub id_chunk-encode_id : (c o : ℕ) → c < 256 → o < 2 ^ 24 → id_chunk (encode_id c o) ≡ c
unfolding id_chunk encode_id
id_chunk-encode_id c o h k = omega (
  arith,
  bit_and-mod 24 o,
  ap (λ q. bit_or q (bit_and o 16777215))
      (mod-eq_of_lt {n = c * 2 ^ 24} {m = 2 ^ 32} (omega arith)),
  bit_or-add 24 c (bit_and o 16777215) (omega (arith, bit_and-mod 24 o)),
)

pub id_offset-encode_id : (c o : ℕ) → c < 256 → o < 2 ^ 24 → id_offset (encode_id c o) ≡ o
unfolding id_offset encode_id
id_offset-encode_id c o h k = omega (
  arith,
  bit_and-mod 24 o,
  bit_and-mod 24 (bit_or (c * 2 ^ 24 % 2 ^ 32) (bit_and o 16777215)),
  ap (λ q. bit_or q (bit_and o 16777215))
      (mod-eq_of_lt {n = c * 2 ^ 24} {m = 2 ^ 32} (omega arith)),
  bit_or-add 24 c (bit_and o 16777215) (omega (arith, bit_and-mod 24 o)),
)

-- The text stands in full, behind its length, in the used part of the chunk that the id shows.
pub record Stored (chunks : List Chunk) (id : ℕ) (s : Bytes) : Type 0 where
  pub chunk : Chunk
  pub chunk_at : get_elem? chunks (id_chunk id) ≡ some chunk
  pub ends : id_offset id + 4 + length s ≤ chunk.used
  pub fits : chunk.used ≤ chunk_capacity
  pub prefix : read_bytes chunk.data_at (id_offset id) 4 ≡ u32_bytes (length s)
  pub text : read_bytes chunk.data_at (id_offset id + 4) (length s) ≡ s

-- The chunk is there with at least as many bytes, and what its used part held.
pub record Grown (chunks' : List Chunk) (c : ℕ) (chunk : Chunk) : Type 0 where
  pub now : Chunk
  pub now_at : get_elem? chunks' c ≡ some now
  pub longer : chunk.used ≤ now.used
  pub fits : now.used ≤ chunk_capacity
  pub kept : AgreeOn chunk.data_at now.data_at 0 chunk.used

abbrev pub Extends : List Chunk → List Chunk → Type 0
Extends chunks chunks' =
    (c : ℕ) (chunk : Chunk) → get_elem? chunks c ≡ some chunk → Grown chunks' c chunk

pub Stored-Extends :
    {chunks chunks' : List Chunk} {id : ℕ} {s : Bytes}
    → Extends chunks chunks'
    → Stored chunks id s
    → Stored chunks' id s
Stored-Extends {chunks} {chunks'} {id} {s} more st =
    let g : Grown chunks' (id_chunk id) st.chunk = more (id_chunk id) st.chunk st.chunk_at in
    record {
      chunk = g.now;
      chunk_at = g.now_at;
      ends = omega (arith, st.ends, g.longer);
      fits = g.fits;
      prefix =
          read_bytes-AgreeOn st.chunk.data_at g.now.data_at (id_offset id) 4
            (λ i l u. g.kept i (omega arith) (omega (arith, st.ends)))
          ∙ st.prefix;
      text =
          read_bytes-AgreeOn st.chunk.data_at g.now.data_at (id_offset id + 4) (length s)
            (λ i l u. g.kept i (omega arith) (omega (arith, st.ends)))
          ∙ st.text;
    }

chunk_read-inside :
    (chunk : Chunk) (o n : ℕ)
    → o + n ≤ chunk_capacity
    → chunk_read chunk o n ≡ some (read_bytes chunk.data_at o n)
unfolding chunk_read
chunk_read-inside chunk o n h = ground arith

pub data_of-Stored :
    {chunks : List Chunk} {id : ℕ} {s : Bytes}
    → Stored chunks id s
    → data_of chunks id (length s) ≡ some s
unfolding data_of
data_of-Stored {chunks} {id} {s} st =
    rw
      (
        st.chunk_at,
        chunk_read-inside st.chunk (id_offset id + 4) (length s) (omega (arith, st.ends, st.fits)),
        st.text,
      )
      refl

-- No text stands at the id of an empty slot.
pub Stored-not_empty :
    {chunks : List Chunk} {id : ℕ} {s : Bytes} → Stored chunks id s → (id == empty_slot) ≡ false
unfolding id_offset
Stored-not_empty {chunks} {id} {s} st =
    let far : id_offset id + 4 ≤ chunk_capacity = omega (arith, st.ends, st.fits) in
    ground (arith, bit_and-mod 24 id)

pub get_string-Stored :
    (p : TextPool) {id : ℕ} {s : Bytes} → Stored p.chunks id s → get_string p id ≡ some s
unfolding get_string
get_string-Stored p {id} {s} st =
    let length_back : u32_of (u32_bytes (length s)) ≡ length s =
      u32_of-u32_bytes (length s) (omega (arith, st.ends, st.fits)) in
    rw
      (
        Stored-not_empty st,
        leb_false (length p.chunks) (id_chunk id) (get_elem?-lt p.chunks (id_chunk id) st.chunk_at),
        st.chunk_at,
        chunk_read-inside st.chunk (id_offset id) 4 (omega (arith, st.ends, st.fits))
            ∙ ap some st.prefix,
        length_back,
        chunk_read-inside st.chunk (id_offset id + 4) (length s) (omega (arith, st.ends, st.fits)),
        st.text,
      )
      refl
  where
    leb_false : (a b : ℕ) → b < a → leb a b ≡ false
    leb_false a b h = ground arith
