-- ===== src/Interpreter/Blocks.antt =====
-- src/Interpreter.hpp: `visitTarget_block` and src/Interpreter.cpp: `visitNamespace_block`. The
-- statements of a block are a function of the state.
use partio.Prelude.{
  ℕ, ◌≡◌, refl, sym, ap, ◌∙◌, inl, inr, Bool, true, ◌||◌, List, [], ◌∷◌, Option, none, some,
  if◌then◌else◌, get_elem?, set, get_elem?-set_self, get_elem?-set_ne, get_elem?-lt, arith, ◌==◌,
  ◌⊎◌, Result, ok, err, ◌>>=◌, >>=-eq-ok, Bool-cases, Option-cases,
}
use partio.Prelude.Text.{Bytes}
use partio.Prelude.Maps.{map_find}
use partio.Targets.{Target}
use partio.Interpreter.{
  Scope, Interpreter, Thrown, unknown_target, described_twice, is_empty, qualified,
}

abbrev pub Body : Type 0
Body = Interpreter → Result Thrown Interpreter

-- `scopes.pop_back()`
abbrev pub pop_scope : List Scope → List Scope
pop_scope [] = []
pop_scope (scope ∷ outer) = outer

abbrev pub enter_target : ℕ → Bool → Target → Interpreter → Interpreter
enter_target t is_async target i = record i {
  store = set i.store t (record target { is_defined = true; async = target.async || is_async });
  current_target = some t;
  scopes = [] ∷ i.scopes;
}

abbrev pub leave_target : Option ℕ → Interpreter → Interpreter
leave_target old_target i = record i { scopes = pop_scope i.scopes; current_target = old_target }

define_target : Body → ℕ → Bool → Interpreter → Option Target → Result Thrown Interpreter
define_target body t is_async i none = err unknown_target
define_target body t is_async i (some target) =
    let described =
      body (enter_target t is_async target i) >>= λ i'. ok (leave_target i.current_target i') in
    if target.is_defined then err described_twice else described

unfoldable pub target_block : Body → Bytes → Bool → Interpreter → Result Thrown Interpreter
unfolding define_target
target_block body name is_async i = elim (map_find name i.targets) [
  | some t ↦ define_target body t is_async i (get_elem? i.store t)
  | none ↦ err unknown_target
]

inner_namespace : Bytes → Bytes → Bytes
inner_namespace old ns = if is_empty old then ns else qualified old ns

unfoldable pub namespace_block : Body → Bytes → Interpreter → Result Thrown Interpreter
unfolding inner_namespace
namespace_block body ns i =
    body (record i { current_namespace = inner_namespace i.current_namespace ns }) >>= λ i'.
    ok (record i' { current_namespace = i.current_namespace })

-- The map of targets leads from `name` to a target that is described.
pub record IsDescribed (i : Interpreter) (name : Bytes) : Type 0 where
  pub pointer : ℕ
  pub target : Target
  pub found : map_find name i.targets ≡ some pointer
  pub there : get_elem? i.store pointer ≡ some target
  pub defined : target.is_defined ≡ true

-- Where these statements end, each name of a described target still leads to a described target.
abbrev pub KeepsDescribed : Body → Type 0
KeepsDescribed body =
    (i i' : Interpreter) (name : Bytes) → body i ≡ ok i' → IsDescribed i name → IsDescribed i' name

pub IsDescribed-same :
    (i i' : Interpreter) (name : Bytes)
    → i'.targets ≡ i.targets
    → i'.store ≡ i.store
    → IsDescribed i name
    → IsDescribed i' name
IsDescribed-same i i' name targets store d = record {
  pointer = d.pointer;
  target = d.target;
  found = ap (map_find name) targets ∙ d.found;
  there = ap (λ (s : List Target). get_elem? s d.pointer) store ∙ d.there;
  defined = d.defined;
}

-- A target is replaced by a described one, or by one that is described as far as the old one was.
pub IsDescribed-set :
    (i i' : Interpreter) (t : ℕ) (old new : Target) (name : Bytes)
    → i'.targets ≡ i.targets
    → i'.store ≡ set i.store t new
    → get_elem? i.store t ≡ some old
    → (new.is_defined ≡ true) ⊎ (new.is_defined ≡ old.is_defined)
    → IsDescribed i name
    → IsDescribed i' name
IsDescribed-set i i' t old new name targets store at kept d = elim (Bool-cases (t == d.pointer)) [
  | inl equals ↦
      let same : t ≡ d.pointer = ground arith in
      let is_old : old ≡ d.target = cc (at, d.there, same) in
      record {
        pointer = t;
        target = new;
        found = ap (map_find name) targets ∙ d.found ∙ ap some (sym same);
        there =
            ap (λ (s : List Target). get_elem? s t) store
            ∙ get_elem?-set_self i.store t new (get_elem?-lt i.store t at);
        defined = elim kept [
          | inl yes_defined ↦ yes_defined
          | inr as_before ↦ as_before ∙ ap (λ (x : Target). x.is_defined) is_old ∙ d.defined
        ];
      }
  | inr differs ↦ record {
    pointer = d.pointer;
    target = d.target;
    found = ap (map_find name) targets ∙ d.found;
    there =
        ap (λ (s : List Target). get_elem? s d.pointer) store
        ∙ get_elem?-set_ne i.store t d.pointer new (λ e. ground arith)
        ∙ d.there;
    defined = d.defined;
  }
]

-- A block that ends was entered at a target that the map knows and that was not described.
pub record Entered (body : Body) (name : Bytes) (is_async : Bool) (i i' : Interpreter)
    : Type 0 where
  pub pointer : ℕ
  pub target : Target
  pub inside : Interpreter
  pub found : map_find name i.targets ≡ some pointer
  pub there : get_elem? i.store pointer ≡ some target
  pub ran : body (enter_target pointer is_async target i) ≡ ok inside
  pub left : leave_target i.current_target inside ≡ i'

target_block-Entered :
    (body : Body) (name : Bytes) (is_async : Bool) (i i' : Interpreter)
    → target_block body name is_async i ≡ ok i'
    → Entered body name is_async i i'
unfolding target_block define_target
target_block-Entered body name is_async i i' h = elim (Option-cases (map_find name i.targets)) [
  | inl missing ↦ cc (rw (target_block, missing) at h)
  | inr (t, found) ↦ elim (Option-cases (get_elem? i.store t)) [
    | inl dangling ↦ cc (rw (target_block, found, dangling, define_target) at h)
    | inr (target, there) ↦ elim (Bool-cases target.is_defined) [
      | inl old ↦ cc (rw (target_block, found, there, define_target, old) at h)
      | inr new ↦
          let (inside, ran, left) =
            >>=-eq-ok (body (enter_target t is_async target i)) _
              (rw (target_block, found, there, define_target, new) at h) in
          record {
            pointer = t;
            target = target;
            inside = inside;
            found = found;
            there = there;
            ran = ran;
            left = cc left;
          }
    ]
  ]
]

leave-IsDescribed :
    (old : Option ℕ) (inside i' : Interpreter) (name : Bytes)
    → leave_target old inside ≡ i'
    → IsDescribed inside name
    → IsDescribed i' name
leave-IsDescribed old inside i' name left d =
    IsDescribed-same inside i' name (ap (λ (x : Interpreter). x.targets) (sym left))
      (ap (λ (x : Interpreter). x.store) (sym left)) d

enter-IsDescribed :
    (t : ℕ) (is_async : Bool) (target : Target) (i : Interpreter) (name : Bytes)
    → map_find name i.targets ≡ some t
    → get_elem? i.store t ≡ some target
    → IsDescribed (enter_target t is_async target i) name
enter-IsDescribed t is_async target i name found there = record {
  pointer = t;
  target = _;
  found = found;
  there = get_elem?-set_self i.store t _ (get_elem?-lt i.store t there);
  defined = refl;
}

-- A block describes its target.
target_block-IsDescribed :
    (body : Body) (name : Bytes) (is_async : Bool) (i i' : Interpreter)
    → KeepsDescribed body
    → target_block body name is_async i ≡ ok i'
    → IsDescribed i' name
target_block-IsDescribed body name is_async i i' keeps h =
    let e : Entered body name is_async i i' = target_block-Entered body name is_async i i' h in
    leave-IsDescribed i.current_target e.inside i' name e.left (
      keeps _ e.inside name e.ran
        (enter-IsDescribed e.pointer is_async e.target i name e.found e.there))

pub target_block-KeepsDescribed :
    (body : Body) (name : Bytes) (is_async : Bool)
    → KeepsDescribed body
    → KeepsDescribed (target_block body name is_async)
target_block-KeepsDescribed body name is_async keeps i i' other h d =
    let e : Entered body name is_async i i' = target_block-Entered body name is_async i i' h in
    leave-IsDescribed i.current_target e.inside i' other e.left (
      keeps _ e.inside other e.ran
        (IsDescribed-set i _ e.pointer e.target _ other refl refl e.there (inl refl) d))

pub namespace_block-KeepsDescribed :
    (body : Body) (ns : Bytes) → KeepsDescribed body → KeepsDescribed (namespace_block body ns)
unfolding namespace_block
namespace_block-KeepsDescribed body ns keeps i i' name h d =
    let (inside, ran, left) = >>=-eq-ok (body _) _ h in
    let same : record inside { current_namespace = i.current_namespace } ≡ i' = cc left in
    IsDescribed-same inside i' name (ap (λ (x : Interpreter). x.targets) (sym same))
      (ap (λ (x : Interpreter). x.store) (sym same))
      (keeps _ inside name ran (IsDescribed-same i _ name refl refl d))

again-throws :
    (body : Body) (name : Bytes) (is_async : Bool) (i : Interpreter)
    → IsDescribed i name
    → target_block body name is_async i ≡ err described_twice
unfolding target_block define_target
again-throws body name is_async i d = rw (target_block, d.found, d.there, define_target, d.defined)

-- If the statements of a block and those behind it keep described targets described under their names,
-- and both end, then a target whose block was carried out cannot be described again later: a second
-- block of the same name throws before its statements are reached, whatever they are.
pub target_block-twice :
    (body later again : Body) (name : Bytes) (is_async is_async' : Bool) (i i' i'' : Interpreter)
    → KeepsDescribed body
    → KeepsDescribed later
    → target_block body name is_async i ≡ ok i'
    → later i' ≡ ok i''
    → target_block again name is_async' i'' ≡ err described_twice
target_block-twice body later again name is_async is_async' i i' i'' keeps keeps' h go =
    again-throws again name is_async' i''
      (keeps' i' i'' name go (target_block-IsDescribed body name is_async i i' keeps h))
