-- ===== src/TypeRegistry.antt =====
-- src/TypeRegistry.hpp: the table of types that the parser fills, and the layout of structures.
pub mod Layout
use Prim.Native.Nat.{bit_and}
use partio.Prelude.{
  ℕ, suc, ◌+◌, ◌-◌, ◌^◌, ◌%◌, List, [], ◌∷◌, ◌++◌, Option, none, some, ltb, if◌then◌else◌, length,
  get_elem?, set,
}

pub data TypeKind : Type 0 where
  void primitive pointer struct : TypeKind

pub record FieldInfo : Type 0 where
  pub name_id : ℕ
  pub type_id : ℕ
  pub offset : ℕ

pub record TypeInfo : Type 0 where
  pub kind : TypeKind
  pub name_id : ℕ
  pub size : ℕ
  pub alignment : ℕ
  pub fields : List FieldInfo
  pub base_type_id : ℕ

abbrev pub TypeRegistry : Type 0
TypeRegistry = List TypeInfo

abbrev pub u32_mod : ℕ
u32_mod = 2 ^ 32

-- `~ (align - 1)` of a `uint32_t`
abbrev pub complement : ℕ → ℕ
complement x = u32_mod - 1 - x

-- `value + align - 1 & ~(align - 1)` in `uint32_t`: `&` binds loosest.
unfoldable pub align_up : ℕ → ℕ → ℕ
align_up value align =
    bit_and ((value + align + u32_mod - 1) % u32_mod) (complement ((align + u32_mod - 1) % u32_mod))

abbrev pub type_void : ℕ
type_void = 0

abbrev pub type_char : ℕ
type_char = 1

abbrev pub type_int : ℕ
type_int = 2

abbrev pub type_ptr : ℕ
type_ptr = 3

basic : TypeKind → ℕ → ℕ → TypeInfo
basic kind size alignment = record {
  kind = kind;
  name_id = 0;
  size = size;
  alignment = alignment;
  fields = [];
  base_type_id = 0;
}

-- the constructor
unfoldable pub initial : TypeRegistry
unfolding basic
initial =
    basic TypeKind.void 0 1
    ∷ basic TypeKind.primitive 1 1
    ∷ basic TypeKind.primitive 4 4
    ∷ basic TypeKind.pointer 8 8
    ∷ []

-- `types[id]`; `none` is a read behind the end of the vector
pub get_type : TypeRegistry → ℕ → Option TypeInfo
get_type types id = get_elem? types id

abbrev pub empty_struct : ℕ → TypeInfo
empty_struct name_id = record {
  kind = TypeKind.struct;
  name_id = name_id;
  size = 0;
  alignment = 1;
  fields = [];
  base_type_id = 0;
}

-- the new card and its id; `types.size()` is cut to 32 bits
unfoldable pub begin_struct : TypeRegistry → ℕ → TypeRegistry × ℕ
begin_struct types name_id = (types ++ empty_struct name_id ∷ [], length types % u32_mod)

-- what `add_struct_field` does to the card of the structure
unfoldable pub add_field : TypeInfo → ℕ → ℕ → TypeInfo → TypeInfo
add_field struct_info field_name_id field_type_id field_type =
    let offset = align_up struct_info.size field_type.alignment in
    record struct_info {
      alignment =
          if ltb struct_info.alignment field_type.alignment
          then field_type.alignment
          else struct_info.alignment;
      fields =
          struct_info.fields
          ++ (record { name_id = field_name_id; type_id = field_type_id; offset = offset }) ∷ [];
      size = (offset + field_type.size) % u32_mod;
    }

add_field_at : TypeRegistry → ℕ → ℕ → ℕ → Option TypeInfo → Option TypeInfo → Option TypeRegistry
add_field_at types struct_id name_id type_id (some struct_info) (some field_type) =
    some (set types struct_id (add_field struct_info name_id type_id field_type))
add_field_at types struct_id name_id type_id (some struct_info) none = none
add_field_at types struct_id name_id type_id none field_type = none

-- `none` is an id out of range. `struct_info` and `field_type` are references into one vector; where
-- both name one card, its alignment is not raised and its size is read before it is written.
unfoldable pub add_struct_field : TypeRegistry → ℕ → ℕ → ℕ → Option TypeRegistry
unfolding add_field_at
add_struct_field types struct_id field_name_id field_type_id =
    add_field_at types struct_id field_name_id field_type_id (get_elem? types struct_id)
      (get_elem? types field_type_id)

unfoldable pub finalize : TypeInfo → TypeInfo
finalize struct_info = record struct_info { size = align_up struct_info.size struct_info.alignment }

finalize_at : TypeRegistry → ℕ → Option TypeInfo → Option TypeRegistry
finalize_at types struct_id (some struct_info) = some (set types struct_id (finalize struct_info))
finalize_at types struct_id none = none

unfoldable pub finalize_struct : TypeRegistry → ℕ → Option TypeRegistry
unfolding finalize_at
finalize_struct types struct_id = finalize_at types struct_id (get_elem? types struct_id)
