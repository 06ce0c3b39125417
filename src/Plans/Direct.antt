-- ===== src/Plans/Direct.antt =====
-- The plans of `buildExecutionPlans` as `Builder::build` uses them.
use partio.Prelude.{
  ℕ, ◌≡◌, refl, ◌∙◌, ◌⊎◌, inl, inr, true, List, [], ◌∷◌, ◌++◌, none, some, Bool-cases,
}
use partio.Prelude.Text.{Bytes, equal, equal→eq, equal_refl}
use partio.Prelude.Maps.{
  map_find, map_set, map_find-map_set_self, map_find-map_set_ne, HasUniqueKeys,
}
use partio.Targets.{Target}
use partio.Cycles.{dependencies}
use partio.Plans.{visit, plan_of, build_plans, build_execution_plans, build, planned, finish}

-- What is in the plan is compiled first, then the target that is asked for.
pub build-planned :
    (execution_plan : List (Bytes × List ℕ)) (targets : List (Bytes × ℕ)) (name : Bytes) (t : ℕ)
    (queue : List ℕ)
    → (map_find name execution_plan ≡ some queue)
      ⊎ ((map_find name execution_plan ≡ none) × (queue ≡ []))
    → map_find name targets ≡ some t
    → build execution_plan targets name ≡ (queue ++ t ∷ [], true)
unfolding build planned finish
build-planned execution_plan targets name t queue (inl has_plan) found = rw (has_plan, found)
build-planned execution_plan targets name t queue (inr (no_plan, empty)) found =
    rw (no_plan, found, empty)

module _ (store : List Target) where
  skips :
      (name : Bytes) (targets : List (Bytes × ℕ)) (plans : List (Bytes × List ℕ))
      → map_find name targets ≡ none
      → map_find name (build_plans store targets plans) ≡ map_find name plans
  unfolding build_plans map_find
  skips name [] plans h = refl
  skips name ((k, root) ∷ targets) plans h = elim (Bool-cases (equal k name)) [
    | inl same ↦ cc (rw same at h)
    | inr other ↦
        skips name targets (map_set k (plan_of store root) plans) (rw other at h)
        ∙ map_find-map_set_ne k name (plan_of store root) plans
            (λ e. cc (rw (e, equal_refl name) at other))
  ]

  -- The plan of a target of the project.
  plan_is_found :
      (name : Bytes) (t : ℕ) (targets : List (Bytes × ℕ)) (plans : List (Bytes × List ℕ))
      → HasUniqueKeys targets
      → map_find name targets ≡ some t
      → map_find name (build_plans store targets plans) ≡ some (plan_of store t)
  unfolding build_plans map_find
  plan_is_found name t [] plans u h = cc
  plan_is_found name t ((k, root) ∷ targets) plans u h = elim (Bool-cases (equal k name)) [
    | inl same ↦
        let e : k ≡ name = equal→eq k name same in
        let r : root ≡ t = cc (rw same at h) in
        skips name targets (map_set k (plan_of store root) plans) (rw e at u.0)
        ∙ rw (e, r) (map_find-map_set_self name (plan_of store t) plans)
    | inr other ↦
        plan_is_found name t targets (map_set k (plan_of store root) plans) u.1 (rw other at h)
  ]

  -- A target of the project is built by compiling the targets that it depends on directly, in the
  -- order of its list `depends` and as often as they stand there, then the target itself, and
  -- nothing else, as long as the calls of `compile_target` return.
  pub build-build_execution_plans :
      (targets : List (Bytes × ℕ)) (name : Bytes) (t : ℕ)
      → HasUniqueKeys targets
      → map_find name targets ≡ some t
      → build (build_execution_plans store targets) targets name
        ≡ (dependencies store t ++ t ∷ [], true)
  unfolding build build_execution_plans visit planned finish
  build-build_execution_plans targets name t u h = rw (plan_is_found name t targets [] u h, h)
