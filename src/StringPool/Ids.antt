-- ===== src/StringPool/Ids.antt =====
-- src/StringPool.hpp: what the pool of strings promises.
use partio.Prelude.{
  Bool-cases, ◌≢◌, subst, ℕ, ◌*◌, ◌≡◌, sym, ap, ◌∙◌, ◌⊎◌, inl, inr, ◌↔◌, none, some, List, length,
  Option-cases,
}
use partio.Prelude.Text.{unequal, equal→eq, equal, Bytes}
use partio.Prelude.Maps.{map_find-map_set_ne, map_find-map_set_self, map_find, map_set}
use partio.StringPool.Operations.{grow_table, TextPool, intern, get_string}
use partio.StringPool.Inserting.{HasRoom, Interned}
use partio.StringPool.Interning.{Roomy-Holds, Holds-Roomy, Holds-one_id, get_string-Holds, interned}
use partio.StringPool.Validity.{IsValid, Holds, Doubled, grow_table_lem, Roomy}
use partio.StringPool.Slots.{IsTableSize}

-- While a well formed pool has fewer than 256 chunks, `intern` takes every text of at most 65,532
-- bytes: its searches end, no read or write passes the end of a chunk, the pool stays well formed,
-- `get_string` gives back the text for the id, and for the id of each other text what it gave before.
pub intern_lem :
    (p : TextPool) (s : Bytes)
    → IsValid p
    → HasRoom p s
    → (q : TextPool) × (id : ℕ) × (intern p s ≡ some (q, id))
      × IsValid q
      × (get_string q id ≡ some s)
      × ((t : Bytes) (j : ℕ) → Holds p t j → (get_string p j ≡ some t) × (get_string q j ≡ some t))
intern_lem p s v room =
    let i : Interned p s (intern p s) = interned p s v room in
    (
      i.pool,
      i.id,
      i.run_is,
      i.valid,
      get_string-Holds i.pool s i.id i.holds,
      λ t j h. (get_string-Holds p t j h, get_string-Holds i.pool t j (i.kept t j h)),
    )

-- The states that calls of `intern` lead to, each with room for its text.
pub data Reaches (p : TextPool) : TextPool → Type 0 where
  here : Reaches p p
  later :
      {q r : TextPool} {id : ℕ} (s : Bytes)
      → Reaches p q
      → HasRoom q s
      → intern q s ≡ some (r, id)
      → Reaches p r

module _ (p : TextPool) (s : Bytes) (v : IsValid p) (room : HasRoom p s) {q : TextPool} {id : ℕ}
    (run : intern p s ≡ some (q, id)) where
  -- The run is the one of the theorem.
  the_run : Interned p s (some (q, id))
  the_run = subst (Interned p s) run (interned p s v room)

  ends_at : ◌≡◌ {A = TextPool × ℕ} (the_run.pool, the_run.id) (q, id)
  ends_at = cc (sym the_run.run_is)

  pub run-IsValid : IsValid q
  run-IsValid = subst (λ (x : TextPool × ℕ). IsValid x.0) ends_at the_run.valid

  pub run-Holds : Holds q s id
  run-Holds = subst (λ (x : TextPool × ℕ). Holds x.0 s x.1) ends_at the_run.holds

  pub run-kept : (t : Bytes) (j : ℕ) → Holds p t j → Holds q t j
  run-kept t j h = subst (λ (x : TextPool × ℕ). Holds x.0 t j) ends_at (the_run.kept t j h)

  run-no_other : (t : Bytes) (j : ℕ) → Holds q t j → Holds p t j ⊎ ((s ≡ t) × (id ≡ j))
  run-no_other =
      subst
        (λ (x : TextPool × ℕ).
          (t : Bytes) (j : ℕ) → Holds x.0 t j → Holds p t j ⊎ ((s ≡ t) × (x.1 ≡ j)))
        ends_at the_run.no_other

Reaches-IsValid : {p q : TextPool} → IsValid p → Reaches p q → IsValid q
Reaches-IsValid v here = v
Reaches-IsValid {p} v (later {q} s before room run) =
    run-IsValid q s (Reaches-IsValid v before) room run

Reaches-Holds :
    {p q : TextPool} → IsValid p → Reaches p q → (t : Bytes) (j : ℕ) → Holds p t j → Holds q t j
Reaches-Holds v here t j h = h
Reaches-Holds v (later {q} s before room run) t j h =
    run-kept q s (Reaches-IsValid v before) room run t j (Reaches-Holds v before t j h)

-- Two calls of `intern` give the same id exactly where their texts are the same, however many texts
-- were interned between them, as long as the pool had room for each.
pub intern-same_id :
    (p : TextPool) (s t : Bytes) (q r r' : TextPool) (i j : ℕ)
    → IsValid p
    → HasRoom p s
    → intern p s ≡ some (q, i)
    → Reaches q r
    → HasRoom r t
    → intern r t ≡ some (r', j)
    → (i ≡ j) ↔ (s ≡ t)
intern-same_id p s t q r r' i j v room run more room' run' =
    let vq : IsValid q = run-IsValid p s v room run in
    let vr : IsValid r = Reaches-IsValid vq more in
    let vr' : IsValid r' = run-IsValid r t vr room' run' in
    let first : Holds r' s i =
      run-kept r t vr room' run' s i (Reaches-Holds vq more s i (run-Holds p s v room run)) in
    let second : Holds r' t j = run-Holds r t vr room' run' in
    (
      λ e.
          let texts : some s ≡ some t =
            sym (get_string-Holds r' s i first)
            ∙ ap (get_string r') e
            ∙ get_string-Holds r' t j second in
          cc,
      λ e. Holds-one_id r' t i j vr' (subst (λ (x : Bytes). Holds r' x i) e first) second,
    )

-- The pool as a map from texts to ids.
abbrev pub Represents : TextPool → List (Bytes × ℕ) → Type 0
Represents p m = (t : Bytes) (j : ℕ) → (map_find t m ≡ some j) ↔ Holds p t j

-- On maps: the id of a text that is there, or else a new id for it.
pub data InternsTo (s : Bytes) (id : ℕ) (m : List (Bytes × ℕ)) : List (Bytes × ℕ) → Type 0 where
  known : map_find s m ≡ some id → InternsTo s id m m
  added :
      map_find s m ≡ none
      → ((t : Bytes) → map_find t m ≢ some id)
      → InternsTo s id m (map_set s id m)

-- `intern` does to the map from texts to ids that the pool stands for what a map of names does: it
-- gives the id that the text has and leaves the map as it is, or else adds the text under an id that
-- no other text has.
pub intern-InternsTo :
    (p : TextPool) (s : Bytes) (q : TextPool) (id : ℕ) (m : List (Bytes × ℕ))
    → IsValid p
    → HasRoom p s
    → Represents p m
    → intern p s ≡ some (q, id)
    → (m' : List (Bytes × ℕ)) × InternsTo s id m m' × Represents q m'
intern-InternsTo p s q id m v room rep run = elim (Option-cases (map_find s m)) [
  | inr (j, h) ↦
      let vq : IsValid q = run-IsValid p s v room run in
      let same : j ≡ id =
        Holds-one_id q s j id vq (run-kept p s v room run s j ((rep s j).0 h))
          (run-Holds p s v room run) in
      (
        m,
        known (h ∙ ap some same),
        λ t k. (
          λ e. run-kept p s v room run t k ((rep t k).0 e),
          λ k_held. old_text same h t k (run-no_other p s v room run t k k_held),
        ),
      )
  | inl new ↦ (map_set s id m, added new (fresh new), λ t k. new_text t k)
]
  where
    old_text :
        {j : ℕ}
        → j ≡ id
        → map_find s m ≡ some j
        → (t : Bytes) (k : ℕ) → Holds p t k ⊎ ((s ≡ t) × (id ≡ k))
        → map_find t m ≡ some k
    old_text same h t k (inl before) = (rep t k).1 before
    old_text same h t k (inr (e, f)) = ap (λ x. map_find x m) (sym e) ∙ h ∙ ap some (same ∙ f)

    fresh : map_find s m ≡ none → (t : Bytes) → map_find t m ≢ some id
    fresh new t h =
        let texts : some t ≡ some s =
          sym (get_string-Holds q t id (run-kept p s v room run t id ((rep t id).0 h)))
          ∙ get_string-Holds q s id (run-Holds p s v room run) in
        let t_is : t ≡ s = cc in absurd (cc (sym h ∙ ap (λ x. map_find x m) t_is ∙ new))

    new_text : (t : Bytes) (k : ℕ) → (map_find t (map_set s id m) ≡ some k) ↔ Holds q t k
    new_text t k = elim (Bool-cases (equal s t)) [
      | inl same ↦
          (let here : s ≡ t = equal→eq s t same in
            let set_here : map_find t (map_set s id m) ≡ some id =
              ap (λ x. map_find x (map_set s id m)) (sym here) ∙ map_find-map_set_self s id m in
            let held : Holds q t id =
              subst (λ (x : Bytes). Holds q x id) here (run-Holds p s v room run) in
            (
              λ e. let k_is : id ≡ k = cc (sym set_here ∙ e) in subst (Holds q t) k_is held,
              λ h. set_here ∙ ap some (Holds-one_id q t id k (run-IsValid p s v room run) held h),
            ))
      | inr other ↦
          let ne : s ≢ t = unequal s t other in
          let there : map_find t (map_set s id m) ≡ map_find t m =
            map_find-map_set_ne s t id m ne in
          (
            λ e. run-kept p s v room run t k ((rep t k).0 (sym there ∙ e)),
            λ h. there ∙ before t k ne (run-no_other p s v room run t k h),
          )
    ]
      where
        before :
            (t : Bytes) (k : ℕ) → s ≢ t → Holds p t k ⊎ ((s ≡ t) × (id ≡ k)) → map_find t m ≡ some k
        before t k ne (inl h) = (rep t k).1 h
        before t k ne (inr (e, f)) = absurd (ne e)

-- Growing ends with a table of twice the size, in which exactly the texts of the pool stand, under
-- the ids that they had; the pool stays well formed.
pub grow_table-Holds :
    (p : TextPool)
    → IsValid p
    → IsTableSize (length p.hash_table * 2)
    → (q : TextPool) × (grow_table p ≡ some q)
      × IsValid q
      × (length q.hash_table ≡ length p.hash_table * 2)
      × ((t : Bytes) (j : ℕ) → Holds p t j ↔ Holds q t j)
grow_table-Holds p v size =
    let d : (q : TextPool) × Doubled p q = grow_table_lem p v size in
    let r : Roomy p d.0 = d.1.roomy in
    (d.0, d.1.run_is, r.valid, d.1.doubled, λ t j. (Holds-Roomy r t j, Roomy-Holds r t j))
