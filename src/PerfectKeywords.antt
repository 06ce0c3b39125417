-- ===== src/PerfectKeywords.antt =====
-- src/PerfectKeywordTable.hpp: a hash table of keywords whose seed is searched for.
pub mod Correct
use partio.Prelude.{
  false, true, Bool, ℕ, zero, suc, ◌+◌, ◌*◌, ◌%◌, ◌^◌, List, [], ◌∷◌, Option, none, some,
  if◌then◌else◌, length, get_elem?, set,
}
use partio.Prelude.Text.{Bytes, equal}
use partio.Token.{TokenKind}
use partio.Keywords.{KeywordEntry}

-- A table in which the slot of a name depends on the seed.
pub record PerfectTable : Type 0 where
  pub table : List (Option KeywordEntry)
  pub magic_seed : ℕ

-- in 32 bits
abbrev pub hash_on : ℕ → Bytes → ℕ
hash_on h [] = h
hash_on h (c ∷ cs) = hash_on ((h * 33 + c % 256) % 2 ^ 32) cs

unfoldable pub slot_of : ℕ → ℕ → Bytes → ℕ
slot_of size seed s = hash_on seed s % size

-- `table.fill(std::nullopt)`
abbrev pub no_entries : ℕ → List (Option KeywordEntry)
no_entries zero = []
no_entries (suc n) = none ∷ no_entries n

abbrev pub is_free : Option (Option KeywordEntry) → Bool
is_free (some none) = true
is_free _ = false

-- One pass of the search: the entries go to their slots; `none` stands for a collision.
unfoldable pub fill :
    ℕ → List KeywordEntry → List (Option KeywordEntry) → Option (List (Option KeywordEntry))
fill seed [] table = some table
fill seed (kw ∷ kws) table =
    let h = slot_of (length table) seed kw.name in
    let rest = fill seed kws (set table h (some kw)) in
    if is_free (get_elem? table h) then rest else none

abbrev pub found_seed :
    ℕ → Option (List (Option KeywordEntry)) → Option PerfectTable → Option PerfectTable
found_seed seed (some table) rest = some (record { table = table; magic_seed = seed })
found_seed seed none rest = rest

-- The search for a seed; `none` where it goes on after so many rounds.
unfoldable pub search_seed : ℕ → ℕ → List KeywordEntry → ℕ → Option PerfectTable
search_seed zero size keywords magic_seed = none
search_seed (suc rounds) size keywords magic_seed =
    let seed = (magic_seed + 1) % 2 ^ 32 in
    let rest = search_seed rounds size keywords seed in
    found_seed seed (fill seed keywords (no_entries size)) rest

-- the kind of an entry, where it has the name
abbrev pub kind_of : Option (Option KeywordEntry) → Bytes → TokenKind
kind_of (some (some e)) s = if equal e.name s then e.kind else TokenKind.token_identifier
kind_of _ s = TokenKind.token_identifier

unfoldable pub perfect_lookup : PerfectTable → Bytes → TokenKind
perfect_lookup t s = kind_of (get_elem? t.table (slot_of (length t.table) t.magic_seed s)) s
