-- ===== src/StringPool.antt =====
-- src/StringPool.hpp: the pool of strings, as the lexer and the preprocessor see it. The children model
-- what stands behind it.
pub mod Memory
pub mod Operations
pub mod Storage
pub mod Adding
pub mod Writing
pub mod Slots
pub mod Finding
pub mod Tables
pub mod Indexed
pub mod Growth
pub mod Validity
pub mod Inserting
pub mod Interning
pub mod Ids
pub mod Start
use partio.Prelude.{ℕ, Option, some, ◌≡◌}
use partio.Prelude.Text.{Bytes}

-- What the lexer and the preprocessor use of src/StringPool.hpp. `intern` gives `none` where the
-- pool cannot store the text.
pub record StringPool : Type 1 where
  pub Pool : Type 0
  pub IsValid : Pool → Type 0
  pub intern : Pool → Bytes → Option (Pool × ℕ)
  pub get_string : Pool → ℕ → Bytes
  pub intern-IsValid :
      (p : Pool) (s : Bytes) (p' : Pool) (id : ℕ)
      → IsValid p
      → intern p s ≡ some (p', id)
      → IsValid p'
  -- The pool has the text under this id.
  pub Holds : Pool → Bytes → ℕ → Type 0
  pub intern-Holds :
      (p : Pool) (s : Bytes) (p' : Pool) (id : ℕ)
      → IsValid p
      → intern p s ≡ some (p', id)
      → Holds p' s id
  pub intern-kept :
      (p : Pool) (s : Bytes) (p' : Pool) (id : ℕ)
      → IsValid p
      → intern p s ≡ some (p', id)
      → (t : Bytes) (j : ℕ) → Holds p t j
      → Holds p' t j
  pub get_string-Holds : (p : Pool) (s : Bytes) (id : ℕ) → Holds p s id → get_string p id ≡ s

-- The promise that a text has one id, of a pool that looks for it first.
pub record HasOneId (sp : StringPool) : Type 0 where
  pub one_id :
      (p : sp.Pool) (s : Bytes) (i j : ℕ) → sp.IsValid p → sp.Holds p s i → sp.Holds p s j → i ≡ j
