-- ===== src/Keywords.antt =====
-- src/BinaryKeywordTable.hpp: the table of keywords, sorted once, and its binary search.
mod Raw
pub mod Sorted
pub mod Search
unfoldable pub use Raw.*
use partio.Prelude.{
  ℕ, zero, suc, ◌+◌, ◌-◌, ◌/◌, Bool, true, false, List, [], ◌∷◌, Option, none, some, ◌==◌,
  if◌then◌else◌, length, get_elem?,
}
use partio.Prelude.Text.{Bytes, equal, less}
use partio.Token.{TokenKind}

-- `std::sort` by name: any algorithm gives this order, since the names differ.
pub insert_entry : KeywordEntry → List KeywordEntry → List KeywordEntry
insert_entry e [] = e ∷ []
insert_entry e (x ∷ xs) = if less x.name e.name then x ∷ insert_entry e xs else e ∷ x ∷ xs

pub sort_entries : List KeywordEntry → List KeywordEntry
unfolding insert_entry
sort_entries [] = []
sort_entries (e ∷ es) = insert_entry e (sort_entries es)

-- the comparison that is handed to `std::lower_bound`, at an index
pub name_less : List KeywordEntry → ℕ → Bytes → Bool
name_less table i s = elim (get_elem? table i) [ some e ↦ less e.name s | none ↦ false ]

-- `std::lower_bound` over `[first, first + count)`: halve the range until it is empty. The fuel
-- bounds the rounds.
pub lower_bound : ℕ → List KeywordEntry → ℕ → ℕ → Bytes → ℕ
unfolding name_less
lower_bound zero table first count s = first
lower_bound (suc fuel) table first count s =
    let half = count / 2 in
    let right = lower_bound fuel table (first + half + 1) (count - half - 1) s in
    let left = lower_bound fuel table first half s in
    if count == 0 then first else if name_less table (first + half) s then right else left

-- `it != table.end() && it->name == s`
kind_at : Option KeywordEntry → Bytes → TokenKind
kind_at none s = TokenKind.token_identifier
kind_at (some e) s = if equal e.name s then e.kind else TokenKind.token_identifier

unfoldable pub lookup : List KeywordEntry → Bytes → TokenKind
unfolding lower_bound kind_at
lookup table s = kind_at (get_elem? table (lower_bound (length table) table 0 (length table) s)) s

-- `KEYWORDS`
unfoldable pub keywords : List KeywordEntry
unfolding raw_keywords sort_entries
keywords = sort_entries raw_keywords
