-- ===== src/ProjectFiles/Outcome.antt =====
-- src/Interpreter.cpp, src/main.cpp: a build file beside the graph of its targets.
use mathlib.Core.List.{Memᴰ}
use partio.Prelude.{
  ℕ, ◌<◌, ◌≡◌, refl, sym, ap, ◌∙◌, ◌⊎◌, inl, inr, true, false, List, [], ◌∷◌, ◌++◌, Option, none,
  some, length, ok, Bool-cases,
}
use partio.Prelude.Text.{Bytes, less, equal, not_equal, unequal}
use partio.Prelude.Maps.{map_find, HasUniqueKeys}
use partio.Interpreter.{Interpreter}
use partio.Interpreter.Blocks.{Body}
use partio.Cycles.{dependencies}
use partio.Cycles.Graph.{Closed, Leads}
use partio.Cycles.Search.{IsCyclic}
use partio.Cycles.Correct.{NoCycleFrom, has_cycles_lem}
use partio.Plans.Direct.{build-planned, build-build_execution_plans}
use partio.ProjectFiles.{insert_key, register_one, register, aborted, pointers, project_file, built}

map_find-insert_key_ne :
    (q k : Bytes) (t : ℕ) (m : List (Bytes × ℕ))
    → equal k q ≡ false
    → map_find q (insert_key k t m) ≡ map_find q m
unfolding map_find insert_key
map_find-insert_key_ne q k t [] h = rw h refl
map_find-insert_key_ne q k t ((j, u) ∷ rest) h = elim (Bool-cases (less k j)) [
  | inl before ↦ rw (before, map_find, h) refl
  | inr behind ↦ rw (behind, map_find, map_find-insert_key_ne q k t rest h) refl
]

insert_key-HasUniqueKeys :
    (k : Bytes) (t : ℕ) (m : List (Bytes × ℕ))
    → HasUniqueKeys m
    → map_find k m ≡ none
    → HasUniqueKeys (insert_key k t m)
unfolding map_find insert_key
insert_key-HasUniqueKeys k t [] u h = (refl, tt)
insert_key-HasUniqueKeys k t ((j, v) ∷ rest) u h = elim (Bool-cases (less k j)) [
  | inl before ↦ rw before (h, u)
  | inr behind ↦ elim (Bool-cases (equal j k)) [
    | inl same ↦ cc (rw same at h)
    | inr other ↦
        let new : equal k j ≡ false = not_equal k j (λ e. unequal j k other (sym e)) in
        rw behind (
          map_find-insert_key_ne j k t rest new ∙ u.0,
          insert_key-HasUniqueKeys k t rest u.1 (rw other at h),
        )
  ]
]

register-HasUniqueKeys :
    (names : List Bytes) (i : Interpreter)
    → HasUniqueKeys i.targets
    → HasUniqueKeys (register names i).targets
unfolding register
register-HasUniqueKeys [] i u = u
register-HasUniqueKeys (name ∷ names) i u =
    register-HasUniqueKeys names (register_one name i (map_find name i.targets))
      (one_more (map_find name i.targets) refl)
  where
    one_more :
        (o : Option ℕ) → map_find name i.targets ≡ o → HasUniqueKeys (register_one name i o).targets
    one_more (some t) h = u
    one_more none h = insert_key-HasUniqueKeys name (length i.store) i.targets u h

module _ (statements : Body) (names : List Bytes) (start i : Interpreter)
    (ran : statements (register names start) ≡ ok i) where
  -- If the statements of a build file end, keep the map of targets and write no pointer that shows
  -- nothing, then either some target depends on itself, directly or not, and the visit is aborted, or
  -- no cycle can be reached from the targets, and each of them is built by compiling the targets that
  -- it depends on directly and then itself, as long as the calls of `compile_target` return.
  pub project_file-built :
      HasUniqueKeys start.targets
      → i.targets ≡ (register names start).targets
      → Closed i.store
      → ((r : ℕ) → Memᴰ r (pointers i.targets) → r < length i.store)
      → ((project_file statements names start ≡ aborted i) × IsCyclic i.store)
        ⊎ (NoCycleFrom i.store (pointers i.targets)
            × ((name : Bytes) (t : ℕ)
                → map_find name i.targets ≡ some t
                → built (project_file statements names start) name
                  ≡ some (dependencies i.store t ++ t ∷ [], true)))
  unfolding project_file built
  project_file-built unique same closed inside =
      elim (has_cycles_lem i.store (pointers i.targets) closed inside) [
        | inl (yes_cyclic, cyclic) ↦ inl (rw (ran, yes_cyclic) refl, cyclic)
        | inr (clean, none_reached) ↦ inr (
          none_reached,
          λ name t found.
              let keys : HasUniqueKeys i.targets =
                rw same (register-HasUniqueKeys names start unique) in
              rw (ran, clean)
                (ap some (build-build_execution_plans i.store i.targets name t keys found)),
        )
      ]

  -- If the statements of a build file end, all pointers show targets, and a path leads from a target of
  -- the file into a cycle, then the visit throws, and `main` builds all the same: for a target that the
  -- map holds it compiles what the visit of an imported file planned for it, or nothing where there is
  -- no such plan, and then the target itself, whatever it depends on, as long as the calls of
  -- `compile_target` return.
  pub project_file-aborted :
      (r u : ℕ) (name : Bytes) (t : ℕ) (queue : List ℕ)
      → Closed i.store
      → ((v : ℕ) → Memᴰ v (pointers i.targets) → v < length i.store)
      → Memᴰ r (pointers i.targets)
      → (r ≡ u) ⊎ Leads i.store r u
      → Leads i.store u u
      → map_find name i.targets ≡ some t
      → (map_find name i.execution_plan ≡ some queue)
        ⊎ ((map_find name i.execution_plan ≡ none) × (queue ≡ []))
      → (project_file statements names start ≡ aborted i)
        × (built (project_file statements names start) name ≡ some (queue ++ t ∷ [], true))
  unfolding project_file built
  project_file-aborted r u name t queue closed inside root path cycle found old =
      elim (has_cycles_lem i.store (pointers i.targets) closed inside) [
        | inl (yes_cyclic, cyclic) ↦ (
          rw (ran, yes_cyclic) refl,
          rw (ran, yes_cyclic)
              (ap some (build-planned i.execution_plan i.targets name t queue old found)),
        )
        | inr (clean, none_reached) ↦ absurd (none_reached r u root path cycle)
      ]
