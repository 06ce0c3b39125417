-- ===== src/Cycles/Correct.antt =====
-- `hasCycles` beside the graph of dependencies.
use mathlib.Core.List.{Memᴰ}
use partio.Prelude.{
  ℕ, zero, suc, ◌≤◌, ◌<◌, ◌≡◌, ◌≢◌, refl, sym, subst, ◌∙◌, ◌⊎◌, inl, inr, Bool, true, false, List,
  [], ◌∷◌, arith, length, Result, ok,
}
use partio.Targets.{Target}
use partio.Cycles.{unseen, in_progress, Marks, Fault, search_all, dfs, has_cycles}
use partio.Cycles.Graph.{Leads, Grounded, Grounded-path, Closed, no_cycle}
use partio.Cycles.Marks.{Mark-cases, unseen_below}
use partio.Cycles.Search.{IsCyclic, AllGrounded, dfs_lem}

-- From no target of the list a path leads into a cycle.
abbrev pub NoCycleFrom : List Target → List ℕ → Type 0
NoCycleFrom store roots = (r u : ℕ) → Memᴰ r roots → (r ≡ u) ⊎ Leads store r u → ¬ Leads store u u

module _ (store : List Target) where
  GroundedIn-NoCycleFrom :
      (roots : List ℕ) → ((r : ℕ) → Memᴰ r roots → Grounded store r) → NoCycleFrom store roots
  GroundedIn-NoCycleFrom roots h r u m (inl e) = no_cycle store u (subst (Grounded store) e (h r m))
  GroundedIn-NoCycleFrom roots h r u m (inr p) =
      no_cycle store u (Grounded-path store r u p (h r m))

  abbrev Answer : List ℕ → Result Fault Bool → Type 0
  Answer roots r =
      ((r ≡ ok true) × IsCyclic store)
      ⊎ ((r ≡ ok false) × ((v : ℕ) → Memᴰ v roots → Grounded store v))

  next_root :
      (v : ℕ) (vs : List ℕ) (r r' : Result Fault Bool)
      → r' ≡ r
      → Grounded store v
      → Answer vs r
      → Answer (v ∷ vs) r'
  next_root v vs r r' e g (inl (found, cyclic)) = inl (e ∙ found, cyclic)
  next_root v vs r r' e g (inr (clean, gs)) = inr (e ∙ clean, grounded_in)
    where
      grounded_in : (w : ℕ) → Memᴰ w (v ∷ vs) → Grounded store w
      grounded_in w (Memᴰ.head same) = subst (Grounded store) (sym same) g
      grounded_in w (Memᴰ.tail m) = gs w m

  search_all_lem :
      (roots : List ℕ) (state : Marks)
      → Closed store
      → AllGrounded store state
      → ((u : ℕ) → state u ≢ in_progress)
      → ((r : ℕ) → Memᴰ r roots → r < length store)
      → Answer roots (search_all (dfs store (suc (length store))) roots state)
  unfolding search_all
  search_all_lem [] state closed sound idle there = inr (refl, λ v m. elim m [ ])
  search_all_lem (v ∷ vs) state closed sound idle there = elim (Mark-cases (state v)) [
    | inl new ↦
        elim (dfs_lem store (suc (length store)) closed v state (there v (Memᴰ.head refl)) new
          (record {
            fuel = omega (arith, unseen_below_le (length store) state);
            sound = sound;
            leads = λ u e. absurd (idle u e);
          })) [
            | inl (state', found, cyclic) ↦ inl (rw (search_all, new, found), cyclic)
            | inr (state', clean, q, g) ↦ next_root v vs _ _ (rw (search_all, new, clean)) g (
                search_all_lem vs state' closed q.sound (λ u e. idle u (q.progress u e))
                  (λ r m. there r (Memᴰ.tail m)))
          ]
    | inr (inl open_now) ↦ absurd (idle v open_now)
    | inr (inr done) ↦
        next_root v vs _ _ (rw (search_all, done)) (sound v done)
          (search_all_lem vs state closed sound idle (λ r m. there r (Memᴰ.tail m)))
  ]
    where
      unseen_below_le : (n : ℕ) (st : Marks) → unseen_below n st ≤ n
      unseen_below_le zero st = omega arith
      unseen_below_le (suc n) st = elim (Mark-cases (st n)) [
        | inl a ↦ rw a (omega (arith, unseen_below_le n st))
        | inr (inl b) ↦ rw b (omega (arith, unseen_below_le n st))
        | inr (inr c) ↦ rw c (omega (arith, unseen_below_le n st))
      ]

-- Where all pointers show targets, `has_cycles` always gives an answer, and the right one: it says
-- `true` only where some target depends on itself, directly or not, and `false` only where no
-- cycle can be reached from the targets of the project.
pub has_cycles_lem :
    (store : List Target) (roots : List ℕ)
    → Closed store
    → ((r : ℕ) → Memᴰ r roots → r < length store)
    → ((has_cycles store roots ≡ ok true) × IsCyclic store)
      ⊎ ((has_cycles store roots ≡ ok false) × NoCycleFrom store roots)
unfolding has_cycles
has_cycles_lem store roots closed there =
    elim (search_all_lem store roots (λ v. unseen) closed (λ u e. cc) (λ u e. cc) there) [
      | inl yes_cyclic ↦ inl yes_cyclic
      | inr (clean, gs) ↦ inr (clean, GroundedIn-NoCycleFrom store roots gs)
    ]
