-- ===== src/StringPool/Writing.antt =====
-- src/StringPool.hpp: the write of a text behind the others.
use native.Mathlib.Nat.{mod-eq_of_lt}
use partio.Prelude.{
  get_elem?-set_ne, All-set, ◌≢◌, ◌==◌, length-set, get_elem?-set_self, set, subst, get_elem?-lt,
  Bool-cases, All, ℕ, ◌+◌, ◌-◌, ◌%◌, ◌^◌, ◌≤◌, ◌<◌, ◌≡◌, refl, ◌∙◌, inl, inr, some, List, length,
  get_elem?, arith,
}
use partio.Prelude.Text.{Bytes}
use partio.StringPool.Memory.{
  id_offset, id_chunk, u32_bytes, encode_id, write_bytes, chunk_write, Chunk, chunk_capacity,
}
use partio.StringPool.Operations.{store_text}
use partio.StringPool.Storage.{
  read_bytes-write_bytes, write_bytes-outside, read_bytes-AgreeOn, id_offset-encode_id,
  id_chunk-encode_id, AgreeOn, first_bytes-all, Stored, Extends,
}
use partio.StringPool.Adding.{Filled, IsWithin, same_chunk}

-- What the write of a text into the last chunk leaves.
pub record Written (chunks : List Chunk) (n offset : ℕ) (s : Bytes) : Type 0 where
  pub chunks' : List Chunk
  pub done : store_text chunks offset s ≡ some chunks'
  pub filled : Filled chunks' (n + 1)
  pub extends : Extends chunks chunks'
  pub stored : Stored chunks' (encode_id (length chunks - 1) offset) s
  pub same_length : length chunks' ≡ length chunks

chunk_write-inside :
    (chunk : Chunk) (o : ℕ) (bs : Bytes)
    → o + length bs ≤ chunk_capacity
    → chunk_write chunk o bs ≡ some (record chunk { data_at = write_bytes chunk.data_at o bs })
unfolding chunk_write
chunk_write-inside chunk o bs h = ground arith

-- the last chunk after the write
abbrev written : Chunk → ℕ → Bytes → Chunk
written chunk offset s = record {
  data_at = write_bytes (write_bytes chunk.data_at offset (u32_bytes (length s))) (offset + 4) s;
  used = offset + (length s + 4);
}

store_text-written :
    (chunks : List Chunk) (offset : ℕ) (s : Bytes) (chunk : Chunk)
    → get_elem? chunks (length chunks - 1) ≡ some chunk
    → offset + (length s + 4) ≤ chunk_capacity
    → store_text chunks offset s ≡ some (set chunks (length chunks - 1) (written chunk offset s))
unfolding store_text
store_text-written chunks offset s chunk at h =
    let small : length s % 2 ^ 32 ≡ length s = mod-eq_of_lt (omega arith) in
    rw
      (
        at,
        small,
        chunk_write-inside chunk offset (u32_bytes (length s)) (omega arith),
        first_bytes-all s,
        chunk_write-inside
            (record chunk { data_at = write_bytes chunk.data_at offset (u32_bytes (length s)) })
            (offset + 4) s (omega arith),
      )
      refl

written-kept :
    (chunk : Chunk) (offset : ℕ) (s : Bytes)
    → chunk.used ≤ offset
    → AgreeOn chunk.data_at (written chunk offset s).data_at 0 chunk.used
written-kept chunk offset s h i l u =
    let first : ℕ → ℕ = write_bytes chunk.data_at offset (u32_bytes (length s)) in
    write_bytes-outside first (offset + 4) s i (inl (omega arith))
    ∙ write_bytes-outside chunk.data_at offset (u32_bytes (length s)) i (inl (omega arith))

Stored-written :
    (chunks' : List Chunk) (k offset : ℕ) (s : Bytes) (chunk : Chunk)
    → get_elem? chunks' k ≡ some (written chunk offset s)
    → k < 256
    → offset + (length s + 4) ≤ chunk_capacity
    → Stored chunks' (encode_id k offset) s
Stored-written chunks' k offset s chunk at small h =
    let c : id_chunk (encode_id k offset) ≡ k = id_chunk-encode_id k offset small (omega arith) in
    let o : id_offset (encode_id k offset) ≡ offset =
      id_offset-encode_id k offset small (omega arith) in
    let first : ℕ → ℕ = write_bytes chunk.data_at offset (u32_bytes (length s)) in
    record {
      chunk = written chunk offset s;
      chunk_at = rw c at;
      ends = omega (arith, o);
      fits = omega arith;
      prefix = rw o (
          read_bytes-AgreeOn first (write_bytes first (offset + 4) s) offset 4
            (λ i l u. write_bytes-outside first (offset + 4) s i (inl (omega arith)))
          ∙ read_bytes-write_bytes chunk.data_at offset (u32_bytes (length s)));
      text = rw o (read_bytes-write_bytes first (offset + 4) s);
    }

Extends-set :
    (chunks : List Chunk) (k : ℕ) (before after : Chunk)
    → All IsWithin chunks
    → get_elem? chunks k ≡ some before
    → before.used ≤ after.used
    → IsWithin after
    → AgreeOn before.data_at after.data_at 0 before.used
    → Extends chunks (set chunks k after)
Extends-set chunks k before after fits at longer within kept c chunk h =
    elim (Bool-cases (k == c)) [
      | inl same ↦
          let e : k ≡ c = ground arith in
          let b : before ≡ chunk = cc (rw e at at) in
          record {
            now = after;
            now_at = rw (← e) (get_elem?-set_self chunks k after (get_elem?-lt chunks k at));
            longer = subst (λ (b : Chunk). b.used ≤ after.used) b longer;
            fits = within;
            kept = subst (λ (b : Chunk). AgreeOn b.data_at after.data_at 0 b.used) b kept;
          }
      | inr other ↦
          let ne : k ≢ c = ground arith in
          same_chunk chunks (set chunks k after) c chunk fits h
            (get_elem?-set_ne chunks k c after ne ∙ h)
    ]

pub store_text_lem :
    (chunks : List Chunk) (n offset : ℕ) (s : Bytes) (filled : Filled chunks n)
    → filled.last.used ≤ offset
    → offset + (length s + 4) ≤ chunk_capacity
    → length chunks ≤ 256
    → Written chunks n offset s
store_text_lem chunks n offset s f behind inside few =
    let k : ℕ = length chunks - 1 in
    let here : k < length chunks = get_elem?-lt chunks k f.last_at in
    let after : Chunk = written f.last offset s in
    let at : get_elem? (set chunks k after) k ≡ some after =
      get_elem?-set_self chunks k after here in
    record {
      chunks' = set chunks k after;
      done = store_text-written chunks offset s f.last f.last_at inside;
      filled = record {
        last = after;
        last_at = rw (length-set chunks k after) at;
        counted = omega (arith, f.counted, length-set chunks k after);
        fits = All-set IsWithin chunks k after f.fits inside;
      };
      extends =
          Extends-set chunks k f.last after f.fits f.last_at (omega arith) inside
            (written-kept f.last offset s behind);
      stored = Stored-written (set chunks k after) k offset s f.last at (omega arith) inside;
      same_length = length-set chunks k after;
    }
