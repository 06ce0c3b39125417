-- ===== src/TypeRegistry/Layout.antt =====
-- The layout that `begin_struct`, `add_struct_field` and `finalize_struct` compute: aligned
-- fields in order, none over another, and a size that is a multiple of the alignment.
pub mod Align
pub mod Fields
pub mod Operations
