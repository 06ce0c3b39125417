-- ===== src/TypeRegistry/Layout/Operations.antt =====
-- `begin_struct`, `add_struct_field` and `finalize_struct` over the table.
use partio.Prelude.{
  ℕ, ◌+◌, ◌*◌, ◌%◌, ◌≤◌, ◌<◌, ◌≡◌, ◌≢◌, refl, sym, ◌∙◌, List, [], ◌∷◌, ◌++◌, some, arith, length,
  get_elem?, set, get_elem?-set_ne, get_elem?-append_last, get_elem?-append_left, get_elem?-lt,
}
use partio.TypeRegistry.{
  FieldInfo, TypeKind, TypeInfo, TypeRegistry, u32_mod, align_up, empty_struct, begin_struct,
  add_field, add_struct_field, finalize, finalize_struct,
}
use partio.TypeRegistry.Layout.Align.{
  IsAlignment, IsMultiple, IsMultiple-add, IsMultiple-mul, IsMultiple-trans, align_up_lem,
}
use partio.TypeRegistry.Layout.Fields.{
  IsPlaced, Fits, IsLaidOut, Fits-grow, Fits-append, Fits-concat, raised,
}

-- `types` differs from `types'` at most in the card `id`.
abbrev pub Agree : TypeRegistry → TypeRegistry → ℕ → Type 0
Agree types types' id = (j : ℕ) → j ≢ id → get_elem? types' j ≡ get_elem? types j

add_field-IsLaidOut :
    (types types' : TypeRegistry) (id name tid : ℕ) (s t : TypeInfo)
    → Agree types types' id
    → IsLaidOut types id s
    → get_elem? types tid ≡ some t
    → tid ≢ id
    → IsAlignment t.alignment
    → s.size + t.alignment + t.size ≤ u32_mod
    → IsLaidOut types' id (add_field s name tid t)
unfolding add_field
add_field-IsLaidOut types types' id name tid s t same h e other pow fits =
    let (a', is_max, alignment_ok, from_s, from_t) =
      raised s.alignment t.alignment h.alignment_ok pow in
    let up = align_up_lem s.size t.alignment pow (omega arith) in
    let no_wrap : (align_up s.size t.alignment + t.size) % u32_mod
        ≡ align_up s.size t.alignment + t.size =
      omega arith in
    let new : FieldInfo = record {
      name_id = name;
      type_id = tid;
      offset = align_up s.size t.alignment;
    } in
    let kept : Fits types' id a' 0 s.size s.fields =
      Fits-grow types types' id s.alignment a' 0 s.size s.size s.fields same from_s (omega arith)
        h.fields_fit in
    let placed : IsPlaced types' id a' s.size new t = record {
      type_is = same tid other ∙ e;
      other = other;
      after = up.0;
      aligned = up.2;
      divides = from_t;
    } in
    rw (no_wrap, ← is_max)
      (record {
        alignment_ok = alignment_ok;
        fields_fit = Fits-concat types' id a' 0 s.size s.fields new t kept placed;
      })

finalize-IsLaidOut :
    (types types' : TypeRegistry) (id : ℕ) (s : TypeInfo)
    → Agree types types' id
    → IsLaidOut types id s
    → s.size + s.alignment ≤ u32_mod
    → IsLaidOut types' id (finalize s) × IsMultiple s.alignment (finalize s).size
unfolding finalize
finalize-IsLaidOut types types' id s same h fits =
    let up = align_up_lem s.size s.alignment h.alignment_ok fits in
    (
      record {
        alignment_ok = h.alignment_ok;
        fields_fit =
            Fits-grow types types' id s.alignment s.alignment 0 s.size _ s.fields same
              (1, omega arith) up.0 h.fields_fit;
      },
      up.2,
    )

set-Agree : (types : TypeRegistry) (id : ℕ) (s : TypeInfo) → Agree types (set types id s) id
set-Agree types id s j other = get_elem?-set_ne types id j s (λ e. other (sym e))

-- The new card is that of an empty structure, behind the cards as they were; nothing in it asks for
-- more than one byte of alignment.
abbrev pub Begins : TypeRegistry → ℕ → Type 0
Begins types name =
    (s : TypeInfo) × ((begin_struct types name).0 ≡ types ++ s ∷ [])
    × (get_elem? (begin_struct types name).0 (begin_struct types name).1 ≡ some s)
    × IsLaidOut (begin_struct types name).0 (begin_struct types name).1 s
    × (s.kind ≡ TypeKind.struct)
    × (s.name_id ≡ name)
    × (s.fields ≡ [])
    × (s.size ≡ 0)
    × (s.alignment ≡ 1)

-- While the table holds fewer than 2 ^ 32 cards, `begin_struct` puts the card of an empty structure
-- behind the others, of kind `STRUCT`, with size 0 and alignment 1, and returns its index; the card
-- is well laid out, and an old card that is well laid out stays so at its old index, which is not the
-- new one.
pub begin_struct-IsLaidOut :
    (types : TypeRegistry) (name id : ℕ) (old : TypeInfo)
    → length types < u32_mod
    → get_elem? types id ≡ some old
    → IsLaidOut types id old
    → Begins types name
      × (get_elem? (begin_struct types name).0 id ≡ some old)
      × IsLaidOut (begin_struct types name).0 id old
      × (id ≢ (begin_struct types name).1)
unfolding begin_struct
begin_struct-IsLaidOut types name id old small there h = (
  (
    empty_struct name,
    refl,
    rw (mod_small (length types) small) (get_elem?-append_last types (empty_struct name)),
    record { alignment_ok = (0, omega arith, refl); fields_fit = omega arith },
    refl,
    refl,
    refl,
    refl,
    refl,
  ),
  get_elem?-append_left types (empty_struct name ∷ []) id inside ∙ there,
  record {
    alignment_ok = h.alignment_ok;
    fields_fit =
        Fits-append types (empty_struct name) id old.alignment 0 old.size old.fields h.fields_fit;
  },
  λ e. omega (arith, inside, e, mod_small (length types) small),
)
  where
    inside : id < length types
    inside = get_elem?-lt types id there

    mod_small : (n : ℕ) → n < u32_mod → n % u32_mod ≡ n
    mod_small n h = omega arith

-- The card of the structure is replaced by a well laid out one with a field more.
abbrev pub AddsField : TypeRegistry → ℕ → ℕ → ℕ → TypeInfo → TypeInfo → Type 0
AddsField types id name tid s t =
    (types' : TypeRegistry) × (s' : TypeInfo) × (f : FieldInfo) × (add_struct_field types id name
        tid
      ≡ some types')
    × (types' ≡ set types id s')
    × IsLaidOut types' id s'
    × (s'.fields ≡ s.fields ++ f ∷ [])
    × (f.name_id ≡ name)
    × (f.type_id ≡ tid)
    × (f.offset < s.size + t.alignment)
    × (s'.size ≡ f.offset + t.size)

-- Adding a field of another, complete type to a well laid out structure succeeds, if the sizes stay
-- below 2 ^ 32: the card of the structure is again well laid out (fields in order and aligned, none
-- over another or past the size), its old fields are kept and the new one is the last, with less
-- padding before it than its alignment; all other cards stay as they are.
pub add_struct_field-IsLaidOut :
    (types : TypeRegistry) (id name tid : ℕ) (s t : TypeInfo)
    → get_elem? types id ≡ some s
    → IsLaidOut types id s
    → get_elem? types tid ≡ some t
    → tid ≢ id
    → IsAlignment t.alignment
    → s.size + t.alignment + t.size ≤ u32_mod
    → AddsField types id name tid s t
unfolding add_struct_field
add_struct_field-IsLaidOut types id name tid s t e h et other pow fits =
    let s' : TypeInfo = add_field s name tid t in
    let up = align_up_lem s.size t.alignment pow (omega arith) in
    (
      set types id s',
      s',
      record { name_id = name; type_id = tid; offset = align_up s.size t.alignment },
      rw (e, et) refl,
      refl,
      add_field-IsLaidOut types (set types id s') id name tid s t (set-Agree types id s') h et other
          pow fits,
      unfold add_field in refl,
      refl,
      refl,
      up.1,
      unfold add_field in (omega arith),
    )

-- Each field is aligned for its type in a structure that starts at `base`.
abbrev pub AlignedAt : TypeRegistry → ℕ → List FieldInfo → Type 0
AlignedAt types base [] = Unit
AlignedAt types base (f ∷ fs) =
    ((t : TypeInfo) × (get_elem? types f.type_id ≡ some t)
      × IsMultiple t.alignment (base + f.offset))
    × AlignedAt types base fs

Fits-AlignedAt :
    (types : TypeRegistry) (id a start size base : ℕ) (fs : List FieldInfo)
    → IsMultiple a base
    → Fits types id a start size fs
    → AlignedAt types base fs
Fits-AlignedAt types id a start size base [] m h = tt
Fits-AlignedAt types id a start size base (f ∷ fs) m (t, p, rest) = (
  (
    t,
    p.type_is,
    IsMultiple-add t.alignment base f.offset (IsMultiple-trans t.alignment a base p.divides m)
        p.aligned,
  ),
  Fits-AlignedAt types id a (f.offset + t.size) size base fs m rest,
)

-- The card of the structure is replaced by a well laid out one with the same fields, fit for an array.
abbrev pub Finalizes : TypeRegistry → ℕ → TypeInfo → Type 0
Finalizes types id s =
    (types' : TypeRegistry) × (s' : TypeInfo) × (finalize_struct types id ≡ some types')
    × (types' ≡ set types id s')
    × IsLaidOut types' id s'
    × (s'.fields ≡ s.fields)
    × IsMultiple s'.alignment s'.size
    × ((i : ℕ) → AlignedAt types' (i * s'.size) s'.fields)

-- Finalising a well laid out structure succeeds, if its padded size stays below 2 ^ 32: it stays
-- well laid out with the same fields, its size becomes a multiple of its alignment, so that in an
-- array of such structures each field is aligned for its type in every element; all other
-- cards stay as they are.
pub finalize_struct-IsLaidOut :
    (types : TypeRegistry) (id : ℕ) (s : TypeInfo)
    → get_elem? types id ≡ some s
    → IsLaidOut types id s
    → s.size + s.alignment ≤ u32_mod
    → Finalizes types id s
unfolding finalize_struct
finalize_struct-IsLaidOut types id s e h fits =
    let s' : TypeInfo = finalize s in
    let (laid_out, padded) =
      finalize-IsLaidOut types (set types id s') id s (set-Agree types id s') h fits in
    (
      set types id s',
      s',
      rw e refl,
      refl,
      laid_out,
      unfold finalize in refl,
      unfold finalize in padded,
      λ i.
          Fits-AlignedAt (set types id s') id s'.alignment 0 s'.size (i * s'.size) s'.fields
            (IsMultiple-mul s'.alignment i s'.size (unfold finalize in padded)) laid_out.fields_fit,
    )
