-- ===== src/Examples/Seeds.antt =====
-- A small table with a seed.
use partio.Prelude.{◌++◌, ◌≤◌, ◌≡◌, refl, List, [], ◌∷◌, Option, none, some, arith}
use partio.Prelude.Text.{Bytes, bytes}
use partio.Token.{TokenKind}
use partio.Keywords.{KeywordEntry}
use partio.Keywords.Sorted.{find_kind}
use partio.PerfectKeywords.{PerfectTable, fill, slot_of, no_entries, search_seed, perfect_lookup}
use partio.PerfectKeywords.Correct.{search_seed-find}

abbrev two : List KeywordEntry
two =
    record { name = bytes "if"; kind = TokenKind.token_kw_if }
    ∷ record { name = bytes "else"; kind = TokenKind.token_kw_else }
    ∷ []

abbrev or_none : Option (List (Option KeywordEntry)) → List (Option KeywordEntry)
or_none none = []
or_none (some t) = t

abbrev seed_table : List (Option KeywordEntry)
seed_table = or_none (fill 2 two (no_entries 4))

seed_fills : fill 2 two (no_entries 4) ≡ some seed_table
unfolding fill slot_of
seed_fills = refl

collides : fill 1 (two ++ two) (no_entries 4) ≡ none
unfolding fill slot_of
collides = refl

search_seed-find_example :
    (p : PerfectTable) × (search_seed 5 4 two 0 ≡ some p)
    × (p.magic_seed ≤ 2)
    × ((s : Bytes) → perfect_lookup p s ≡ find_kind two s)
search_seed-find_example =
    search_seed-find 5 4 two 2 seed_table (omega arith) (omega arith) (omega arith) seed_fills
