-- ===== src/Examples/Projects.antt =====
-- A build file with two targets: `app` that depends on `lib`, and a file whose targets form a cycle.
use mathlib.Core.List.{Memᴰ}
use partio.Prelude.{
  ℕ, zero, suc, ◌<◌, ◌≡◌, refl, ◌⊎◌, inl, inr, true, List, [], ◌∷◌, ◌++◌, some, ok, length, arith,
}
use partio.Prelude.Text.{Bytes, bytes, equal, less}
use partio.Prelude.Maps.{map_find}
use partio.Values.{target_value, cons, nil}
use partio.Targets.{Target, new_target}
use partio.Interpreter.{Interpreter}
use partio.Interpreter.Blocks.{Body}
use partio.Cycles.{dependencies}
use partio.Cycles.Graph.{Closed, one}
use partio.Cycles.Search.{IsCyclic}
use partio.Cycles.Correct.{NoCycleFrom}
use partio.ProjectFiles.{new_interpreter, insert_key, register, aborted, project_file, built}
use partio.ProjectFiles.Outcome.{project_file-built, project_file-aborted}

abbrev fresh : Interpreter
fresh = new_interpreter (bytes "x64") (bytes "release")

abbrev names : List Bytes
names = bytes "lib" ∷ bytes "app" ∷ bytes "lib" ∷ []

abbrev app : Target
app = record (new_target (bytes "app")) { depends = cons (target_value 0) nil }

-- `lib` is the first target of the store, `app` the second.
abbrev depends_on_lib : Body
depends_on_lib i = ok (record i { store = new_target (bytes "lib") ∷ app ∷ [] })

abbrev visited : Interpreter
visited = record fresh {
  store = new_target (bytes "lib") ∷ app ∷ [];
  targets = (bytes "app", 1) ∷ (bytes "lib", 0) ∷ [];
}

visited-run : depends_on_lib (register names fresh) ≡ ok visited
unfolding register insert_key map_find equal less
visited-run = refl

visited-targets : visited.targets ≡ (register names fresh).targets
unfolding register insert_key map_find equal less
visited-targets = refl

visited-Closed : Closed visited.store
visited-Closed zero w m = elim m [ ]
visited-Closed (suc zero) w (Memᴰ.head e) = omega arith
visited-Closed (suc zero) w (Memᴰ.tail m) = elim m [ ]
visited-Closed (suc (suc v)) w m = elim m [ ]

visited-pointers : (r : ℕ) → Memᴰ r (1 ∷ 0 ∷ []) → r < length visited.store
visited-pointers r (Memᴰ.head e) = omega arith
visited-pointers r (Memᴰ.tail (Memᴰ.head e)) = omega arith
visited-pointers r (Memᴰ.tail (Memᴰ.tail m)) = elim m [ ]

project_file-built_example :
    ((project_file depends_on_lib names fresh ≡ aborted visited) × IsCyclic visited.store)
    ⊎ (NoCycleFrom visited.store (1 ∷ 0 ∷ [])
        × ((name : Bytes) (t : ℕ)
            → map_find name visited.targets ≡ some t
            → built (project_file depends_on_lib names fresh) name
              ≡ some (dependencies visited.store t ++ t ∷ [], true)))
project_file-built_example =
    project_file-built depends_on_lib names fresh visited visited-run tt visited-targets
      visited-Closed visited-pointers

-- `lib` depends on itself; an imported file has left a plan for `app`
abbrev circular : Target
circular = record (new_target (bytes "lib")) { depends = cons (target_value 0) nil }

abbrev depends_on_itself : Body
depends_on_itself i =
    ok (record i { store = circular ∷ app ∷ []; execution_plan = (bytes "app", 0 ∷ []) ∷ [] })

abbrev stuck : Interpreter
stuck = record visited { store = circular ∷ app ∷ []; execution_plan = (bytes "app", 0 ∷ []) ∷ [] }

stuck-run : depends_on_itself (register names fresh) ≡ ok stuck
unfolding register insert_key map_find equal less
stuck-run = refl

stuck-Closed : Closed stuck.store
stuck-Closed zero w (Memᴰ.head e) = omega arith
stuck-Closed zero w (Memᴰ.tail m) = elim m [ ]
stuck-Closed (suc zero) w (Memᴰ.head e) = omega arith
stuck-Closed (suc zero) w (Memᴰ.tail m) = elim m [ ]
stuck-Closed (suc (suc v)) w m = elim m [ ]

stuck-pointers : (r : ℕ) → Memᴰ r (1 ∷ 0 ∷ []) → r < length stuck.store
stuck-pointers r (Memᴰ.head e) = omega arith
stuck-pointers r (Memᴰ.tail (Memᴰ.head e)) = omega arith
stuck-pointers r (Memᴰ.tail (Memᴰ.tail m)) = elim m [ ]

project_file-aborted_example :
    (project_file depends_on_itself names fresh ≡ aborted stuck)
    × (built (project_file depends_on_itself names fresh) (bytes "app") ≡ some (0 ∷ 1 ∷ [], true))
unfolding map_find equal
project_file-aborted_example =
    project_file-aborted depends_on_itself names fresh stuck stuck-run 1 0 (bytes "app") 1 (0 ∷ [])
      stuck-Closed stuck-pointers (Memᴰ.head refl) (inr (one (Memᴰ.head refl)))
      (one (Memᴰ.head refl)) refl (inl refl)
