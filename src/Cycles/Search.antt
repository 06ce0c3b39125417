-- ===== src/Cycles/Search.antt =====
-- One search of `hasCycles`: what it may be started with and what it ends in.
use mathlib.Core.List.{Memᴰ}
use partio.Prelude.{
  ℕ, zero, suc, ◌<◌, ◌≡◌, refl, sym, subst, ◌∙◌, ◌⊎◌, inl, inr, true, false, List, [], ◌∷◌, arith,
  length, ok,
}
use partio.Targets.{Target}
use partio.Cycles.{unseen, in_progress, checked, Marks, mark, dependencies, Searched, scan, dfs}
use partio.Cycles.Graph.{DependsOn, Leads, Grounded, Closed, grounded}
use partio.Cycles.Marks.{
  Mark-cases, unseen_below, Later, unseen_below-Later, mark_self, mark-other, same_or_not,
  mark-Later, unseen_below-mark,
}

abbrev pub IsCyclic : List Target → Type 0
IsCyclic store = (u : ℕ) × Leads store u u

abbrev pub AllGrounded : List Target → Marks → Type 0
AllGrounded store state = (u : ℕ) → state u ≡ checked → Grounded store u

-- A search that finds nothing sees more targets, leaves none in progress that was not before, and
-- checks grounded targets only.
pub record Quiet (store : List Target) (state state' : Marks) : Type 0 where
  pub later : Later state state'
  pub progress : (u : ℕ) → state' u ≡ in_progress → state u ≡ in_progress
  pub sound : AllGrounded store state'

-- The search finds a cycle that is there, or ends quietly with the fact `P`.
abbrev pub Outcome : List Target → Marks → Searched → Type 0 → Type 0
Outcome store state r P =
    ((state' : Marks) × (r ≡ ok (true, state')) × IsCyclic store)
    ⊎ ((state' : Marks) × (r ≡ ok (false, state')) × Quiet store state state' × P)

-- what a search may be started with
pub record Ready (store : List Target) (f v : ℕ) (state : Marks) : Type 0 where
  pub fuel : unseen_below (length store) state < f
  pub sound : AllGrounded store state
  pub leads : (u : ℕ) → state u ≡ in_progress → Leads store u v

module _ (store : List Target) where
  Quiet-trans : (a b c : Marks) → Quiet store a b → Quiet store b c → Quiet store a c
  Quiet-trans a b c p q = record {
    later = λ u. omega (arith, p.later u, q.later u);
    progress = λ u e. p.progress u (q.progress u e);
    sound = q.sound;
  }

  Quiet-refl : (a : Marks) → AllGrounded store a → Quiet store a a
  Quiet-refl a h = record { later = λ u. omega arith; progress = λ u e. e; sound = h }

  abbrev Finds : ℕ → (ℕ → Marks → Searched) → Type 0
  Finds f self =
      (w : ℕ) (state : Marks)
      → w < length store
      → state w ≡ unseen
      → Ready store f w state
      → Outcome store state (self w state) (Grounded store w)

  -- all targets of the list are grounded
  abbrev GroundedIn : List ℕ → Type 0
  GroundedIn ws = (w : ℕ) → Memᴰ w ws → Grounded store w

  GroundedIn-cons : (w : ℕ) (ws : List ℕ) → Grounded store w → GroundedIn ws → GroundedIn (w ∷ ws)
  GroundedIn-cons w ws g h u (Memᴰ.head e) = subst (Grounded store) (sym e) g
  GroundedIn-cons w ws g h u (Memᴰ.tail m) = h u m

  -- the loop after the first of its targets
  go_on :
      (w : ℕ) (ws : List ℕ) (a b : Marks) (r r' : Searched)
      → Quiet store a b
      → Grounded store w
      → r' ≡ r
      → Outcome store b r (GroundedIn ws)
      → Outcome store a r' (GroundedIn (w ∷ ws))
  go_on w ws a b r r' q g e (inl (c, found, cyclic)) = inl (c, e ∙ found, cyclic)
  go_on w ws a b r r' q g e (inr (c, clean, q', gs)) =
      inr (c, e ∙ clean, Quiet-trans a b c q q', GroundedIn-cons w ws g gs)

  scan_lem :
      (f : ℕ) (self : ℕ → Marks → Searched) (deps : List ℕ) (state : Marks)
      → Finds f self
      → unseen_below (length store) state < f
      → AllGrounded store state
      → ((w u : ℕ) → Memᴰ w deps → state u ≡ in_progress → Leads store u w)
      → ((w : ℕ) → Memᴰ w deps → w < length store)
      → Outcome store state (scan self deps state) (GroundedIn deps)
  unfolding scan
  scan_lem f self [] state finds fuel sound leads closed =
      inr (state, refl, Quiet-refl state sound, λ w m. elim m [ ])
  scan_lem f self (w ∷ ws) state finds fuel sound leads closed = elim (Mark-cases (state w)) [
    | inl new ↦
        elim (finds w state (closed w (Memᴰ.head refl)) new
          (record { fuel = fuel; sound = sound; leads = λ u. leads w u (Memᴰ.head refl) })) [
            | inl (state', found, cyclic) ↦ inl (state', rw (scan, new, found), cyclic)
            | inr (state', clean, q, g) ↦
                go_on w ws state state' (scan self ws state') _ q g (rw (scan, new, clean)) (
                  scan_lem f self ws state' finds
                    (omega (arith, unseen_below-Later (length store) state state' q.later)) q.sound
                    (λ x u m e. leads x u (Memᴰ.tail m) (q.progress u e))
                    (λ x m. closed x (Memᴰ.tail m)))
          ]
    | inr (inl open_now) ↦
        inl (state, rw (scan, open_now), (w, leads w w (Memᴰ.head refl) open_now))
    | inr (inr done) ↦
        go_on w ws state state (scan self ws state) _ (Quiet-refl state sound) (sound w done)
          (rw (scan, done))
          (scan_lem f self ws state finds fuel sound (λ x u m e. leads x u (Memᴰ.tail m) e)
            (λ x m. closed x (Memᴰ.tail m)))
  ]

  -- the targets in progress below a target that was just entered
  below :
      (v w u : ℕ) (state : Marks)
      → ((x : ℕ) → state x ≡ in_progress → Leads store x v)
      → DependsOn store v w
      → mark v in_progress state u ≡ in_progress
      → Leads store u w
  below v w u state leads d e = elim (same_or_not u v) [
    | inl same ↦ rw same (Leads.one d)
    | inr other ↦ Leads.more (leads u (sym (mark-other v u in_progress state other) ∙ e)) d
  ]

  enter_sound :
      (v : ℕ) (state : Marks)
      → AllGrounded store state
      → AllGrounded store (mark v in_progress state)
  enter_sound v state sound u e = elim (same_or_not u v) [
    | inl same ↦ cc (rw (same, mark_self v in_progress state) at e)
    | inr other ↦ sound u (sym (mark-other v u in_progress state other) ∙ e)
  ]

  leave :
      (v : ℕ) (state state' : Marks)
      → Quiet store (mark v in_progress state) state'
      → Grounded store v
      → Quiet store state (mark v checked state')
  leave v state state' q g = record {
    later = λ u. omega (
      arith,
      mark-Later v checked state' refl u,
      q.later u,
      mark-Later v in_progress state refl u,
    );
    progress = λ u e. elim (same_or_not u v) [
      | inl same ↦ cc (rw (same, mark_self v checked state') at e)
      | inr other ↦
          sym (mark-other v u in_progress state other)
          ∙ q.progress u (sym (mark-other v u checked state' other) ∙ e)
    ];
    sound = λ u e. elim (same_or_not u v) [
      | inl same ↦ rw same g
      | inr other ↦ q.sound u (sym (mark-other v u checked state' other) ∙ e)
    ];
  }

  -- With fuel for every unseen target a search from an unseen one finds a cycle that is there, or
  -- shows that the target is grounded.
  pub dfs_lem : (f : ℕ) → Closed store → Finds f (dfs store f)
  unfolding dfs
  dfs_lem zero closed v state lt new ready = absurd (omega (arith, ready.fuel))
  dfs_lem (suc f) closed v state lt new ready =
      let entered = mark v in_progress state in
      let fewer = unseen_below-mark (length store) v in_progress state lt new refl in
      elim (scan_lem f (dfs store f) (dependencies store v) entered (dfs_lem f closed)
        (omega (arith, fewer, ready.fuel)) (enter_sound v state ready.sound)
        (λ w u d e. below v w u state ready.leads d e) (closed v)) [
          | inl (state', found, cyclic) ↦ inl (state', rw found, cyclic)
          | inr (state', clean, q, gs) ↦
              let g : Grounded store v = grounded gs in
              inr (mark v checked state', rw clean, leave v state state' q g, g)
        ]
