-- ===== src/Keywords/Raw.antt =====
-- The entries of the keyword table.
use partio.Prelude.{List, [], ◌∷◌}
use partio.Prelude.Text.{Bytes, bytes}
use partio.Token.{TokenKind}

pub record KeywordEntry : Type 0 where
  pub name : Bytes
  pub kind : TokenKind

unfoldable pub raw_keywords : List KeywordEntry
raw_keywords =
    (record { name = bytes "alignas"; kind = TokenKind.token_kw_alignas })
    ∷ (record { name = bytes "alignof"; kind = TokenKind.token_kw_alignof })
    ∷ (record { name = bytes "asm"; kind = TokenKind.token_kw_asm })
    ∷ (record { name = bytes "atomic_cancel"; kind = TokenKind.token_kw_atomic_cancel })
    ∷ (record { name = bytes "atomic_commit"; kind = TokenKind.token_kw_atomic_commit })
    ∷ (record { name = bytes "atomic_noexcept"; kind = TokenKind.token_kw_atomic_noexcept })
    ∷ (record { name = bytes "auto"; kind = TokenKind.token_kw_auto })
    ∷ (record { name = bytes "bool"; kind = TokenKind.token_kw_bool })
    ∷ (record { name = bytes "break"; kind = TokenKind.token_kw_break })
    ∷ (record { name = bytes "case"; kind = TokenKind.token_kw_case })
    ∷ (record { name = bytes "catch"; kind = TokenKind.token_kw_catch })
    ∷ (record { name = bytes "char"; kind = TokenKind.token_kw_char })
    ∷ (record { name = bytes "class"; kind = TokenKind.token_kw_class })
    ∷ (record { name = bytes "concept"; kind = TokenKind.token_kw_concept })
    ∷ (record { name = bytes "const"; kind = TokenKind.token_kw_const })
    ∷ (record { name = bytes "consteval"; kind = TokenKind.token_kw_consteval })
    ∷ (record { name = bytes "constexpr"; kind = TokenKind.token_kw_constexpr })
    ∷ (record { name = bytes "constinit"; kind = TokenKind.token_kw_constinit })
    ∷ (record { name = bytes "const_cast"; kind = TokenKind.token_kw_const_cast })
    ∷ (record { name = bytes "continue"; kind = TokenKind.token_kw_continue })
    ∷ (record { name = bytes "contract_assert"; kind = TokenKind.token_kw_contract_assert })
    ∷ (record { name = bytes "co_await"; kind = TokenKind.token_kw_co_await })
    ∷ (record { name = bytes "co_return"; kind = TokenKind.token_kw_co_return })
    ∷ (record { name = bytes "co_yield"; kind = TokenKind.token_kw_co_yield })
    ∷ (record { name = bytes "decltype"; kind = TokenKind.token_kw_decltype })
    ∷ (record { name = bytes "default"; kind = TokenKind.token_kw_default })
    ∷ (record { name = bytes "define"; kind = TokenKind.token_kw_define })
    ∷ (record { name = bytes "defined"; kind = TokenKind.token_kw_defined })
    ∷ (record { name = bytes "delete"; kind = TokenKind.token_kw_delete })
    ∷ (record { name = bytes "do"; kind = TokenKind.token_kw_do })
    ∷ (record { name = bytes "double"; kind = TokenKind.token_kw_double })
    ∷ (record { name = bytes "dynamic_cast"; kind = TokenKind.token_kw_dynamic_cast })
    ∷ (record { name = bytes "elif"; kind = TokenKind.token_kw_elif })
    ∷ (record { name = bytes "elifdef"; kind = TokenKind.token_kw_elifdef })
    ∷ (record { name = bytes "elifndef"; kind = TokenKind.token_kw_elifndef })
    ∷ (record { name = bytes "else"; kind = TokenKind.token_kw_else })
    ∷ (record { name = bytes "endif"; kind = TokenKind.token_kw_endif })
    ∷ (record { name = bytes "embed"; kind = TokenKind.token_kw_embed })
    ∷ (record { name = bytes "enum"; kind = TokenKind.token_kw_enum })
    ∷ (record { name = bytes "error"; kind = TokenKind.token_kw_error })
    ∷ (record { name = bytes "explicit"; kind = TokenKind.token_kw_explicit })
    ∷ (record { name = bytes "export"; kind = TokenKind.token_kw_export })
    ∷ (record { name = bytes "extern"; kind = TokenKind.token_kw_extern })
    ∷ (record { name = bytes "false"; kind = TokenKind.token_kw_false })
    ∷ (record { name = bytes "final"; kind = TokenKind.token_kw_final })
    ∷ (record { name = bytes "float"; kind = TokenKind.token_kw_float })
    ∷ (record { name = bytes "for"; kind = TokenKind.token_kw_for })
    ∷ (record { name = bytes "friend"; kind = TokenKind.token_kw_friend })
    ∷ (record { name = bytes "goto"; kind = TokenKind.token_kw_goto })
    ∷ (record { name = bytes "if"; kind = TokenKind.token_kw_if })
    ∷ (record { name = bytes "ifdef"; kind = TokenKind.token_kw_ifdef })
    ∷ (record { name = bytes "ifndef"; kind = TokenKind.token_kw_ifndef })
    ∷ (record { name = bytes "import"; kind = TokenKind.token_kw_import })
    ∷ (record { name = bytes "include"; kind = TokenKind.token_kw_include })
    ∷ (record { name = bytes "inline"; kind = TokenKind.token_kw_inline })
    ∷ (record { name = bytes "int"; kind = TokenKind.token_kw_int })
    ∷ (record { name = bytes "long"; kind = TokenKind.token_kw_long })
    ∷ (record { name = bytes "line"; kind = TokenKind.token_kw_line })
    ∷ (record { name = bytes "module"; kind = TokenKind.token_kw_module })
    ∷ (record { name = bytes "mutable"; kind = TokenKind.token_kw_mutable })
    ∷ (record { name = bytes "namespace"; kind = TokenKind.token_kw_namespace })
    ∷ (record { name = bytes "new"; kind = TokenKind.token_kw_new })
    ∷ (record { name = bytes "noexcept"; kind = TokenKind.token_kw_noexcept })
    ∷ (record { name = bytes "nullptr"; kind = TokenKind.token_kw_null })
    ∷ (record { name = bytes "operator"; kind = TokenKind.token_kw_operator })
    ∷ (record { name = bytes "override"; kind = TokenKind.token_kw_override })
    ∷ (record { name = bytes "pragma"; kind = TokenKind.token_kw_pragma })
    ∷ (record { name = bytes "pre"; kind = TokenKind.token_kw_pre })
    ∷ (record { name = bytes "private"; kind = TokenKind.token_kw_private })
    ∷ (record { name = bytes "protected"; kind = TokenKind.token_kw_protected })
    ∷ (record { name = bytes "post"; kind = TokenKind.token_kw_post })
    ∷ (record { name = bytes "public"; kind = TokenKind.token_kw_public })
    ∷ (record { name = bytes "reflexpr"; kind = TokenKind.token_kw_reflexpr })
    ∷ (record { name = bytes "reinterpret_cast"; kind = TokenKind.token_kw_reinterpret })
    ∷ (record { name = bytes "requires"; kind = TokenKind.token_kw_requires })
    ∷ (record { name = bytes "return"; kind = TokenKind.token_kw_return })
    ∷ (record { name = bytes "short"; kind = TokenKind.token_kw_short })
    ∷ (record { name = bytes "signed"; kind = TokenKind.token_kw_signed })
    ∷ (record { name = bytes "sizeof"; kind = TokenKind.token_kw_sizeof })
    ∷ (record { name = bytes "static"; kind = TokenKind.token_kw_static })
    ∷ (record { name = bytes "static_assert"; kind = TokenKind.token_kw_static_assert })
    ∷ (record { name = bytes "static_cast"; kind = TokenKind.token_kw_static_cast })
    ∷ (record { name = bytes "struct"; kind = TokenKind.token_kw_struct })
    ∷ (record { name = bytes "switch"; kind = TokenKind.token_kw_switch })
    ∷ (record { name = bytes "synchronized"; kind = TokenKind.token_kw_synchronized })
    ∷ (record { name = bytes "template"; kind = TokenKind.token_kw_template })
    ∷ (record { name = bytes "this"; kind = TokenKind.token_kw_this })
    ∷ (record { name = bytes "thread_local"; kind = TokenKind.token_kw_tread_local })
    ∷ (record { name = bytes "throw"; kind = TokenKind.token_kw_throw })
    ∷ (record { name = bytes "true"; kind = TokenKind.token_kw_true })
    ∷ (record { name = bytes "try"; kind = TokenKind.token_kw_try })
    ∷ (record { name = bytes "typedef"; kind = TokenKind.token_kw_typedef })
    ∷ (record { name = bytes "typeid"; kind = TokenKind.token_kw_typeid })
    ∷ (record { name = bytes "typename"; kind = TokenKind.token_kw_typename })
    ∷ (record { name = bytes "undef"; kind = TokenKind.token_kw_undef })
    ∷ (record { name = bytes "union"; kind = TokenKind.token_kw_union })
    ∷ (record { name = bytes "unsigned"; kind = TokenKind.token_kw_unsigned })
    ∷ (record { name = bytes "using"; kind = TokenKind.token_kw_using })
    ∷ (record { name = bytes "virtual"; kind = TokenKind.token_kw_virtual })
    ∷ (record { name = bytes "void"; kind = TokenKind.token_kw_void })
    ∷ (record { name = bytes "volatile"; kind = TokenKind.token_kw_volatile })
    ∷ (record { name = bytes "warning"; kind = TokenKind.token_kw_warning })
    ∷ (record { name = bytes "while"; kind = TokenKind.token_kw_while })
    ∷ []
