-- ===== src/StringPool/Start.antt =====
-- src/StringPool.hpp: a new pool of strings, and the pool as the lexer uses it.
use partio.Prelude.{
  arith, ℕ, ◌≡◌, refl, ap, Bool, true, ◌&&◌, leb, Option, none, some, [], length, if◌then◌else◌,
  Bool-cases, inl, inr,
}
use partio.Prelude.Text.{Bytes}
use partio.StringPool.{StringPool, HasOneId}
use partio.StringPool.Memory.{new_chunk}
use partio.StringPool.Operations.{TextPool, new_pool, intern, get_string}
use partio.StringPool.Slots.{IsTableSize}
use partio.StringPool.Inserting.{HasRoom}
use partio.StringPool.Validity.{
  Holds, taken-empty_table, Partial-empty_table, length-empty_table, IsValid,
}
use partio.StringPool.Interning.{Holds-one_id, get_string-Holds}
use partio.StringPool.Ids.{run-kept, run-Holds, run-IsValid}

-- A new pool whose table has a power of two of slots, up to 2 ^ 31, is well formed and has no texts.
pub new_pool-IsValid : (size : ℕ) → IsTableSize size → IsValid (new_pool size)
unfolding new_pool
new_pool-IsValid size h = record {
  size_is = rw (length-empty_table size) h;
  filled = record {
    last = new_chunk;
    last_at = refl;
    counted = omega arith;
    fits = (omega arith, tt);
  };
  few = omega arith;
  indexed = (Partial-empty_table (new_pool size) size h).indexed;
  count = taken-empty_table size;
}

-- Is there room for the text, with a chunk to spare?
abbrev pub has_room : TextPool → Bytes → Bool
has_room p s = leb (length s) 65532 && leb (length p.chunks) 255

pub has_room-HasRoom : (p : TextPool) (s : Bytes) → has_room p s ≡ true → HasRoom p s
has_room-HasRoom p s h = record { short = ground arith; chunk_left = ground arith }

-- `intern`, where there is room
abbrev pub intern_with_room : TextPool → Bytes → Option (TextPool × ℕ)
intern_with_room p s = if has_room p s then intern p s else none

abbrev pub or_empty : Option Bytes → Bytes
or_empty none = []
or_empty (some s) = s

pub with_room :
    (p : TextPool) (s : Bytes) {q : TextPool} {id : ℕ}
    → intern_with_room p s ≡ some (q, id)
    → HasRoom p s × (intern p s ≡ some (q, id))
with_room p s h = elim (Bool-cases (has_room p s)) [
  | inl fits ↦ (has_room-HasRoom p s fits, rw fits at h)
  | inr full ↦ absurd (cc (rw full at h))
]

pub intern_with_room-IsValid :
    (p : TextPool) (s : Bytes) (q : TextPool) (id : ℕ)
    → IsValid p
    → intern_with_room p s ≡ some (q, id)
    → IsValid q
intern_with_room-IsValid p s q id v h = let run = with_room p s h in run-IsValid p s v run.0 run.1

pub intern_with_room-Holds :
    (p : TextPool) (s : Bytes) (q : TextPool) (id : ℕ)
    → IsValid p
    → intern_with_room p s ≡ some (q, id)
    → Holds q s id
intern_with_room-Holds p s q id v h = let run = with_room p s h in run-Holds p s v run.0 run.1

pub intern_with_room-kept :
    (p : TextPool) (s : Bytes) (q : TextPool) (id : ℕ)
    → IsValid p
    → intern_with_room p s ≡ some (q, id)
    → (t : Bytes) (j : ℕ) → Holds p t j
    → Holds q t j
intern_with_room-kept p s q id v h = let run = with_room p s h in run-kept p s v run.0 run.1

-- The pool as the lexer and the preprocessor use it.
abbrev pub text_pool : StringPool
text_pool = record {
  Pool = TextPool;
  IsValid = IsValid;
  intern = intern_with_room;
  get_string = λ p id. or_empty (get_string p id);
  intern-IsValid = intern_with_room-IsValid;
  Holds = Holds;
  intern-Holds = intern_with_room-Holds;
  intern-kept = intern_with_room-kept;
  get_string-Holds = λ p s id h. ap or_empty (get_string-Holds p s id h);
}

pub text_pool-HasOneId : HasOneId text_pool
text_pool-HasOneId = record { one_id = λ p s i j v a b. Holds-one_id p s i j v a b }
