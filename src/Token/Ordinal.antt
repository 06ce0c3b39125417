-- ===== src/Token/Ordinal.antt =====
-- The values of the enumerators of src/Token.hpp.
use partio.Prelude.{◌≡◌, refl, ap, sym, ◌∙◌, ◌↔◌, true, List, [], ◌∷◌, some, get_elem?, ==_iff}
use mathlib.Core.Option.{some-injective}
use partio.Token.{TokenKind, ordinal, is_kind}

kinds : List TokenKind
kinds =
    TokenKind.token_eof ∷ TokenKind.token_hash ∷ TokenKind.token_unknown
    ∷ TokenKind.token_identifier ∷ TokenKind.token_number ∷ TokenKind.token_string
    ∷ TokenKind.token_char ∷ TokenKind.token_kw_alignas ∷ TokenKind.token_kw_alignof
    ∷ TokenKind.token_kw_asm ∷ TokenKind.token_kw_atomic_cancel ∷ TokenKind.token_kw_atomic_commit
    ∷ TokenKind.token_kw_atomic_noexcept ∷ TokenKind.token_kw_auto ∷ TokenKind.token_kw_bool
    ∷ TokenKind.token_kw_break ∷ TokenKind.token_kw_case ∷ TokenKind.token_kw_catch
    ∷ TokenKind.token_kw_char ∷ TokenKind.token_kw_class ∷ TokenKind.token_kw_concept
    ∷ TokenKind.token_kw_const ∷ TokenKind.token_kw_consteval ∷ TokenKind.token_kw_constexpr
    ∷ TokenKind.token_kw_constinit ∷ TokenKind.token_kw_const_cast ∷ TokenKind.token_kw_continue
    ∷ TokenKind.token_kw_contract_assert ∷ TokenKind.token_kw_co_await
    ∷ TokenKind.token_kw_co_return ∷ TokenKind.token_kw_co_yield ∷ TokenKind.token_kw_decltype
    ∷ TokenKind.token_kw_default ∷ TokenKind.token_kw_define ∷ TokenKind.token_kw_defined
    ∷ TokenKind.token_kw_delete ∷ TokenKind.token_kw_do ∷ TokenKind.token_kw_double
    ∷ TokenKind.token_kw_dynamic_cast ∷ TokenKind.token_kw_elif ∷ TokenKind.token_kw_elifdef
    ∷ TokenKind.token_kw_elifndef ∷ TokenKind.token_kw_else ∷ TokenKind.token_kw_endif
    ∷ TokenKind.token_kw_embed ∷ TokenKind.token_kw_enum ∷ TokenKind.token_kw_error
    ∷ TokenKind.token_kw_explicit ∷ TokenKind.token_kw_export ∷ TokenKind.token_kw_extern
    ∷ TokenKind.token_kw_false ∷ TokenKind.token_kw_final ∷ TokenKind.token_kw_float
    ∷ TokenKind.token_kw_for ∷ TokenKind.token_kw_friend ∷ TokenKind.token_kw_goto
    ∷ TokenKind.token_kw_if ∷ TokenKind.token_kw_ifdef ∷ TokenKind.token_kw_ifndef
    ∷ TokenKind.token_kw_import ∷ TokenKind.token_kw_include ∷ TokenKind.token_kw_inline
    ∷ TokenKind.token_kw_int ∷ TokenKind.token_kw_long ∷ TokenKind.token_kw_line
    ∷ TokenKind.token_kw_module ∷ TokenKind.token_kw_mutable ∷ TokenKind.token_kw_namespace
    ∷ TokenKind.token_kw_new ∷ TokenKind.token_kw_noexcept ∷ TokenKind.token_kw_null
    ∷ TokenKind.token_kw_operator ∷ TokenKind.token_kw_override ∷ TokenKind.token_kw_pragma
    ∷ TokenKind.token_kw_pre ∷ TokenKind.token_kw_private ∷ TokenKind.token_kw_protected
    ∷ TokenKind.token_kw_post ∷ TokenKind.token_kw_public ∷ TokenKind.token_kw_reflexpr
    ∷ TokenKind.token_kw_reinterpret ∷ TokenKind.token_kw_requires ∷ TokenKind.token_kw_return
    ∷ TokenKind.token_kw_short ∷ TokenKind.token_kw_signed ∷ TokenKind.token_kw_sizeof
    ∷ TokenKind.token_kw_static ∷ TokenKind.token_kw_static_assert ∷ TokenKind.token_kw_static_cast
    ∷ TokenKind.token_kw_struct ∷ TokenKind.token_kw_switch ∷ TokenKind.token_kw_synchronized
    ∷ TokenKind.token_kw_template ∷ TokenKind.token_kw_this ∷ TokenKind.token_kw_tread_local
    ∷ TokenKind.token_kw_throw ∷ TokenKind.token_kw_true ∷ TokenKind.token_kw_try
    ∷ TokenKind.token_kw_typedef ∷ TokenKind.token_kw_typeid ∷ TokenKind.token_kw_typename
    ∷ TokenKind.token_kw_undef ∷ TokenKind.token_kw_union ∷ TokenKind.token_kw_unsigned
    ∷ TokenKind.token_kw_using ∷ TokenKind.token_kw_virtual ∷ TokenKind.token_kw_void
    ∷ TokenKind.token_kw_volatile ∷ TokenKind.token_kw_warning ∷ TokenKind.token_kw_while
    ∷ TokenKind.token_plus ∷ TokenKind.token_plus_plus ∷ TokenKind.token_plus_equal
    ∷ TokenKind.token_minus ∷ TokenKind.token_minus_minus ∷ TokenKind.token_minus_equal
    ∷ TokenKind.token_star ∷ TokenKind.token_star_equal ∷ TokenKind.token_slash
    ∷ TokenKind.token_slash_equal ∷ TokenKind.token_percent ∷ TokenKind.token_percent_equal
    ∷ TokenKind.token_assign ∷ TokenKind.token_equal ∷ TokenKind.token_not
    ∷ TokenKind.token_not_equal ∷ TokenKind.token_less ∷ TokenKind.token_less_equal
    ∷ TokenKind.token_lshift ∷ TokenKind.token_greater ∷ TokenKind.token_greater_equal
    ∷ TokenKind.token_rshift ∷ TokenKind.token_lparen ∷ TokenKind.token_rparen
    ∷ TokenKind.token_lbrace ∷ TokenKind.token_rbrace ∷ TokenKind.token_lbracket
    ∷ TokenKind.token_rbracket ∷ TokenKind.token_semicolon ∷ TokenKind.token_comma
    ∷ TokenKind.token_dot ∷ TokenKind.token_newline ∷ TokenKind.token_system_include ∷ []

kinds-ordinal : (k : TokenKind) → get_elem? kinds (ordinal k) ≡ some k
unfolding kinds ordinal
kinds-ordinal TokenKind.token_eof = refl
kinds-ordinal _ = refl

pub ordinal_injective : (a b : TokenKind) → ordinal a ≡ ordinal b → a ≡ b
ordinal_injective a b h =
    some-injective a b (sym (kinds-ordinal a) ∙ ap (get_elem? kinds) h ∙ kinds-ordinal b)

pub is_kind_iff : (a b : TokenKind) → (is_kind a b ≡ true) ↔ (a ≡ b)
unfolding is_kind
is_kind_iff a b =
    (λ h. ordinal_injective a b ((==_iff _ _).0 h), λ e. (==_iff _ _).1 (ap ordinal e))
