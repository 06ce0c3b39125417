-- ===== src/Examples/Layout.antt =====
-- A structure of a `char` and a pointer.
use partio.Prelude.{ℕ, ◌≡◌, ◌≢◌, refl, [], ◌∷◌, some, get_elem?, arith}
use partio.TypeRegistry.{TypeKind, TypeInfo, TypeRegistry, begin_struct, align_up}
use partio.TypeRegistry.Layout.Fields.{IsLaidOut}
use partio.TypeRegistry.Layout.Operations.{
  Begins, AddsField, Finalizes, begin_struct-IsLaidOut, add_struct_field-IsLaidOut,
  finalize_struct-IsLaidOut,
}

abbrev card : TypeKind → ℕ → TypeInfo
card kind size = record {
  kind = kind;
  name_id = 0;
  size = size;
  alignment = size;
  fields = [];
  base_type_id = 0;
}

-- a structure with the name 7, with its first field
abbrev with_char : TypeInfo
with_char = record {
  kind = TypeKind.struct;
  name_id = 7;
  size = 1;
  alignment = 1;
  fields = (record { name_id = 8; type_id = 1; offset = 0 }) ∷ [];
  base_type_id = 0;
}

abbrev types : TypeRegistry
types =
    card TypeKind.void 0
    ∷ card TypeKind.primitive 1
    ∷ card TypeKind.primitive 4
    ∷ card TypeKind.pointer 8
    ∷ with_char
    ∷ []

with_char-IsLaidOut : IsLaidOut types 4 with_char
with_char-IsLaidOut = record {
  alignment_ok = (0, omega arith, refl);
  fields_fit = (
    card TypeKind.primitive 1,
    record {
      type_is = refl;
      other = omega arith;
      after = omega arith;
      aligned = (0, refl);
      divides = (1, refl);
    },
    omega arith,
  );
}

align_up_test : align_up 13 8 ≡ 16
unfolding align_up
align_up_test = refl

begin_struct-IsLaidOut_example :
    Begins types 10
    × (get_elem? (begin_struct types 10).0 4 ≡ some with_char)
    × IsLaidOut (begin_struct types 10).0 4 with_char
    × (4 ≢ (begin_struct types 10).1)
begin_struct-IsLaidOut_example =
    begin_struct-IsLaidOut types 10 4 with_char (omega arith) refl with_char-IsLaidOut

add_struct_field-IsLaidOut_example : AddsField types 4 9 3 with_char (card TypeKind.pointer 8)
add_struct_field-IsLaidOut_example =
    add_struct_field-IsLaidOut types 4 9 3 with_char (card TypeKind.pointer 8) refl
      with_char-IsLaidOut refl (omega arith) (3, omega arith, refl) (omega arith)

finalize_struct-IsLaidOut_example : Finalizes types 4 with_char
finalize_struct-IsLaidOut_example =
    finalize_struct-IsLaidOut types 4 with_char refl with_char-IsLaidOut (omega arith)
