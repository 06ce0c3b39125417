-- ===== src/TypeRegistry/Layout/Fields.antt =====
-- What a well laid out structure is: the fields of a card of src/TypeRegistry.hpp.
use partio.Prelude.{
  ℕ, ◌+◌, ◌≤◌, ◌≡◌, ◌≢◌, refl, inl, inr, List, [], ◌∷◌, ◌++◌, some, ◌∙◌, arith, ltb, if◌then◌else◌,
  get_elem?, get_elem?-lt, get_elem?-append_left, Bool-cases,
}
use partio.TypeRegistry.{FieldInfo, TypeInfo, TypeRegistry}
use partio.TypeRegistry.Layout.Align.{IsAlignment, IsMultiple, IsMultiple-trans, alignment_divides}

-- A field stands in `[start, ..)` at a multiple of its type's alignment, which divides that of the
-- structure `id`; its type is another card of the table.
pub record IsPlaced (types : TypeRegistry) (id alignment start : ℕ) (f : FieldInfo) (t : TypeInfo)
    : Type 0 where
  pub type_is : get_elem? types f.type_id ≡ some t
  pub other : f.type_id ≢ id
  pub after : start ≤ f.offset
  pub aligned : IsMultiple t.alignment f.offset
  pub divides : IsMultiple t.alignment alignment

-- The fields stand one behind the other between `start` and `size`.
abbrev pub Fits : TypeRegistry → ℕ → ℕ → ℕ → ℕ → List FieldInfo → Type 0
Fits types id alignment start size [] = start ≤ size
Fits types id alignment start size (f ∷ fs) =
    (t : TypeInfo) × IsPlaced types id alignment start f t
    × Fits types id alignment (f.offset + t.size) size fs

pub record IsLaidOut (types : TypeRegistry) (id : ℕ) (s : TypeInfo) : Type 0 where
  pub alignment_ok : IsAlignment s.alignment
  pub fields_fit : Fits types id s.alignment 0 s.size s.fields

-- The same fields fit when the size or the alignment grows, or when the card of `id` changes.
pub Fits-grow :
    (types types' : TypeRegistry) (id a a' start size size' : ℕ) (fs : List FieldInfo)
    → ((j : ℕ) → j ≢ id → get_elem? types' j ≡ get_elem? types j)
    → IsMultiple a a'
    → size ≤ size'
    → Fits types id a start size fs
    → Fits types' id a' start size' fs
Fits-grow types types' id a a' start size size' [] same up le h = omega arith
Fits-grow types types' id a a' start size size' (f ∷ fs) same up le (t, p, rest) = (
  t,
  record {
    type_is = same f.type_id p.other ∙ p.type_is;
    other = p.other;
    after = p.after;
    aligned = p.aligned;
    divides = IsMultiple-trans t.alignment a a' p.divides up;
  },
  Fits-grow types types' id a a' (f.offset + t.size) size size' fs same up le rest,
)

-- The same fields fit when a card is put behind the others.
pub Fits-append :
    (types : TypeRegistry) (new : TypeInfo) (id a start size : ℕ) (fs : List FieldInfo)
    → Fits types id a start size fs
    → Fits (types ++ new ∷ []) id a start size fs
Fits-append types new id a start size [] h = h
Fits-append types new id a start size (f ∷ fs) (t, p, rest) = (
  t,
  record {
    type_is =
        get_elem?-append_left types (new ∷ []) f.type_id (get_elem?-lt types f.type_id p.type_is)
        ∙ p.type_is;
    other = p.other;
    after = p.after;
    aligned = p.aligned;
    divides = p.divides;
  },
  Fits-append types new id a (f.offset + t.size) size fs rest,
)

pub Fits-concat :
    (types : TypeRegistry) (id a start size : ℕ) (fs : List FieldInfo) (f : FieldInfo)
    (t : TypeInfo)
    → Fits types id a start size fs
    → IsPlaced types id a size f t
    → Fits types id a start (f.offset + t.size) (fs ++ f ∷ [])
Fits-concat types id a start size [] f t h p = (
  t,
  record {
    type_is = p.type_is;
    other = p.other;
    after = omega (arith, p.after);
    aligned = p.aligned;
    divides = p.divides;
  },
  omega arith,
)
Fits-concat types id a start size (g ∷ fs) f t (u, q, rest) p =
    (u, q, Fits-concat types id a (g.offset + u.size) size fs f t rest p)

-- The alignment that `add_struct_field` leaves is that of the structure or of the field, and a
-- multiple of both.
pub raised :
    (a b : ℕ)
    → IsAlignment a
    → IsAlignment b
    → (r : ℕ) × (r ≡ (if ltb a b then b else a)) × IsAlignment r × IsMultiple a r × IsMultiple b r
raised a b p q = elim (Bool-cases (ltb a b)) [
  | inl lt ↦ (b, rw lt refl, q, alignment_divides a b p q (ground arith), (1, omega arith))
  | inr ge ↦ (a, rw ge refl, p, (1, omega arith), alignment_divides b a q p (ground arith))
]
