-- ===== src/StringPool/Adding.antt =====
-- src/StringPool.hpp: the room for a text that is new to the pool of strings.
use Prim.Native.Nat.{bit_and}
use partio.Prelude.{
  All-append, All-get_elem?, subst, get_elem?-append_left, get_elem?-lt, get_elem?-append_last,
  length-append, ◌++◌, ltb, Bool-cases, All, ℕ, ◌+◌, ◌-◌, ◌*◌, ◌/◌, ◌^◌, ◌≤◌, ◌<◌, ◌≡◌, refl, ◌∙◌,
  inl, inr, Option, some, List, [], ◌∷◌, length, get_elem?, arith,
}
use partio.Prelude.Bits.{bit_and_high_mask}
use partio.StringPool.Memory.{Chunk, new_chunk, chunk_capacity}
use partio.StringPool.Operations.{aligned_used, make_room}
use partio.StringPool.Storage.{Grown, Extends}

pub aligned_used_lem :
    (used : ℕ) → used ≤ chunk_capacity → (used ≤ aligned_used used) × (aligned_used used ≤ used + 3)
unfolding aligned_used
aligned_used_lem used h =
    let e : bit_and (used + 3) ((2 ^ 62 - 1) * 2 ^ 2) ≡ (used + 3) / 2 ^ 2 * 2 ^ 2 =
      bit_and_high_mask 2 62 (used + 3) (omega arith) in
    (omega (arith, e), omega (arith, e))

abbrev pub IsWithin : Chunk → Type 0
IsWithin chunk = chunk.used ≤ chunk_capacity

-- The chunks are not over-full, and stand for at least so many texts: each takes four bytes.
pub record Filled (chunks : List Chunk) (n : ℕ) : Type 0 where
  pub last : Chunk
  pub last_at : get_elem? chunks (length chunks - 1) ≡ some last
  pub counted : n ≤ 16384 * (length chunks - 1) + last.used / 4
  pub fits : All IsWithin chunks

pub Extends-trans : (a b c : List Chunk) → Extends a b → Extends b c → Extends a c
Extends-trans a b c f g i chunk h =
    let first : Grown b i chunk = f i chunk h in
    let second : Grown c i first.now = g i first.now first.now_at in
    record {
      now = second.now;
      now_at = second.now_at;
      longer = omega (arith, first.longer, second.longer);
      fits = second.fits;
      kept = λ j l u. second.kept j l (omega (arith, first.longer)) ∙ first.kept j l u;
    }

pub same_chunk :
    (chunks chunks' : List Chunk) (c : ℕ) (chunk : Chunk)
    → All IsWithin chunks
    → get_elem? chunks c ≡ some chunk
    → get_elem? chunks' c ≡ some chunk
    → Grown chunks' c chunk
same_chunk chunks chunks' c chunk fits old new = record {
  now = chunk;
  now_at = new;
  longer = omega arith;
  fits = All-get_elem? IsWithin chunks c fits old;
  kept = λ i l u. refl;
}

Extends-refl : (chunks : List Chunk) {n : ℕ} → Filled chunks n → Extends chunks chunks
Extends-refl chunks f c chunk h = same_chunk chunks chunks c chunk f.fits h h

Extends-append :
    (chunks more : List Chunk) {n : ℕ} → Filled chunks n → Extends chunks (chunks ++ more)
Extends-append chunks more f c chunk h =
    same_chunk chunks (chunks ++ more) c chunk f.fits h
      (get_elem?-append_left chunks more c (get_elem?-lt chunks c h) ∙ h)

last_of-append :
    (chunks : List Chunk) (chunk : Chunk)
    → get_elem? (chunks ++ chunk ∷ []) (length (chunks ++ chunk ∷ []) - 1) ≡ some chunk
last_of-append chunks chunk =
    let e : length (chunks ++ chunk ∷ []) - 1 ≡ length chunks =
      omega (arith, length-append chunks (chunk ∷ [])) in
    rw (e, get_elem?-append_last chunks chunk) refl

Filled-new_chunk :
    (chunks : List Chunk) (n : ℕ) → Filled chunks n → Filled (chunks ++ new_chunk ∷ []) n
Filled-new_chunk chunks n f =
    let some_chunk : length chunks - 1 < length chunks =
      get_elem?-lt chunks (length chunks - 1) f.last_at in
    let last_fits : f.last.used ≤ chunk_capacity =
      All-get_elem? IsWithin chunks (length chunks - 1) f.fits f.last_at in
    record {
      last = new_chunk;
      last_at = last_of-append chunks new_chunk;
      counted = omega (arith, f.counted, length-append chunks (new_chunk ∷ []));
      fits = All-append IsWithin chunks (new_chunk ∷ []) f.fits (omega arith, tt);
    }

-- Where there is room for a text of this size, behind what is used.
pub record Room (chunks : List Chunk) (n needed : ℕ) : Type 0 where
  pub chunks' : List Chunk
  pub offset : ℕ
  pub made : make_room chunks needed ≡ some (chunks', offset)
  pub filled : Filled chunks' n
  pub extends : Extends chunks chunks'
  pub behind :
      (chunk : Chunk) → get_elem? chunks' (length chunks' - 1) ≡ some chunk → chunk.used ≤ offset
  pub inside : offset + needed ≤ chunk_capacity
  pub at_most_one : length chunks' ≤ length chunks + 1

pub make_room_lem :
    (chunks : List Chunk) (n needed : ℕ)
    → Filled chunks n
    → needed ≤ chunk_capacity
    → Room chunks n needed
unfolding make_room
make_room_lem chunks n needed f h =
    elim (Bool-cases (ltb chunk_capacity (aligned_used f.last.used + needed))) [
      | inl full ↦ record {
        chunks' = chunks ++ new_chunk ∷ [];
        offset = 0;
        made = rw (f.last_at, full) refl;
        filled = Filled-new_chunk chunks n f;
        extends = Extends-append chunks (new_chunk ∷ []) f;
        behind = λ chunk at. behind_it (last_of-append chunks new_chunk) at (omega arith);
        inside = omega arith;
        at_most_one = omega (arith, length-append chunks (new_chunk ∷ []));
      }
      | inr roomy ↦ record {
        chunks' = chunks;
        offset = aligned_used f.last.used;
        made = rw (f.last_at, roomy) refl;
        filled = f;
        extends = Extends-refl chunks f;
        behind = λ chunk at.
            behind_it f.last_at at
              (aligned_used_lem f.last.used
                (All-get_elem? IsWithin chunks (length chunks - 1) f.fits f.last_at)).0;
        inside = ground arith;
        at_most_one = omega arith;
      }
    ]
  where
    behind_it :
        {o : Option Chunk} {chunk last : Chunk} {offset : ℕ}
        → o ≡ some last
        → o ≡ some chunk
        → last.used ≤ offset
        → chunk.used ≤ offset
    behind_it {o} {chunk} {last} {offset} e f h =
        let same : last ≡ chunk = cc in subst (λ (k : Chunk). k.used ≤ offset) same h

-- The last chunk is not over-full.
pub Filled-last : (chunks : List Chunk) {n : ℕ} (f : Filled chunks n) → f.last.used ≤ chunk_capacity
Filled-last chunks f = All-get_elem? IsWithin chunks (length chunks - 1) f.fits f.last_at
