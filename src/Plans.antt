-- ===== src/Plans.antt =====
-- src/Interpreter.cpp: `buildExecutionPlans`; src/Builder.cpp: the order in which `build` compiles.
pub mod Direct
use partio.Prelude.{
  ℕ, Bool, true, false, ◌||◌, List, [], ◌∷◌, ◌++◌, Option, none, some, ◌==◌, if◌then◌else◌,
}
use partio.Prelude.Text.{Bytes}
use partio.Prelude.Maps.{map_find, map_set}
use partio.Targets.{Target}
use partio.Cycles.{dependencies}

abbrev pub contains : ℕ → List ℕ → Bool
contains t [] = false
contains t (u ∷ us) = t == u || contains t us

-- the closure `dfs`, with `visited` and `current_plan` before and after
unfoldable pub visit : List Target → ℕ → List ℕ × List ℕ → List ℕ × List ℕ
visit store t (visited, current_plan) =
    if contains t visited
    then (visited, current_plan)
    else (t ∷ visited, current_plan ++ dependencies store t)

abbrev pub plan_of : List Target → ℕ → List ℕ
plan_of store root = (visit store root ([], [])).1

-- the loop over the targets, with the plans so far
unfoldable pub build_plans :
    List Target → List (Bytes × ℕ) → List (Bytes × List ℕ) → List (Bytes × List ℕ)
build_plans store [] plans = plans
build_plans store ((name, root) ∷ targets) plans =
    build_plans store targets (map_set name (plan_of store root) plans)

unfoldable pub build_execution_plans : List Target → List (Bytes × ℕ) → List (Bytes × List ℕ)
build_execution_plans store targets = build_plans store targets []

-- the queue, or nothing where the target has no plan
planned : Option (List ℕ) → List ℕ
planned (some queue) = queue
planned none = []

-- `targets.at(config->target)`; `false` where it throws
finish : List ℕ → Option ℕ → List ℕ × Bool
finish queue (some project) = (queue ++ project ∷ [], true)
finish queue none = (queue, false)

-- The targets that `Builder::build` hands to `compile_target`, in order, as long as these calls return,
-- and whether `at` finds the target that is asked for.
unfoldable pub build : List (Bytes × List ℕ) → List (Bytes × ℕ) → Bytes → List ℕ × Bool
unfolding planned finish
build execution_plan targets target =
    finish (planned (map_find target execution_plan)) (map_find target targets)
