-- ===== src/Cycles/Graph.antt =====
-- The graph of dependencies: its paths, and the targets from which no path goes on for ever.
use mathlib.Core.List.{Memᴰ}
use partio.Prelude.{ℕ, ◌<◌, List, length}
use partio.Targets.{Target}
use partio.Cycles.{dependencies}

abbrev pub DependsOn : List Target → ℕ → ℕ → Type 0
DependsOn store v w = Memᴰ w (dependencies store v)

-- There is a path of at least one step.
pub data Leads (store : List Target) : ℕ → ℕ → Type 0 where
  one : {v w : ℕ} → DependsOn store v w → Leads store v w
  more : {u v w : ℕ} → Leads store u v → DependsOn store v w → Leads store u w

-- Every path from the target ends.
pub data Grounded (store : List Target) : ℕ → Type 0 where
  grounded : {v : ℕ} → ((w : ℕ) → DependsOn store v w → Grounded store w) → Grounded store v

-- All pointers show targets of the store.
abbrev pub Closed : List Target → Type 0
Closed store = (v w : ℕ) → DependsOn store v w → w < length store

pub Grounded-step :
    (store : List Target) (v w : ℕ) → Grounded store v → DependsOn store v w → Grounded store w
Grounded-step store v w (Grounded.grounded below) d = below w d

pub Grounded-path :
    (store : List Target) (v w : ℕ) → Leads store v w → Grounded store v → Grounded store w
Grounded-path store v w (Leads.one d) g = Grounded-step store v w g d
Grounded-path store v w (Leads.more {v = u} p d) g =
    Grounded-step store u w (Grounded-path store v u p g) d

-- A path is also a first step and a rest.
first_step :
    (store : List Target) (v w : ℕ)
    → Leads store v w
    → (u : ℕ) × DependsOn store v u × ((x : ℕ) → DependsOn store w x → Leads store u x)
first_step store v w (Leads.one d) = (w, d, λ x e. Leads.one e)
first_step store v w (Leads.more {v = m} p d) =
    let (u, e, rest) = first_step store v m p in (u, e, λ x f. Leads.more (rest w d) f)

-- From a grounded target no path leads back to it.
pub no_cycle : (store : List Target) (v : ℕ) → Grounded store v → ¬ Leads store v v
no_cycle store v (Grounded.grounded below) p =
    let (u, d, rest) = first_step store v v p in no_cycle store u (below u d) (rest u d)
