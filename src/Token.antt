-- ===== src/Token.antt =====
-- src/Token.hpp: the kinds of tokens and the token that the lexer hands out.
pub mod Ordinal
use partio.Prelude.{ℕ, ◌+◌, Bool, List, [], ◌∷◌, ◌==◌}

-- the enumeration, in the order of the source
pub data TokenKind : Type 0 where
  token_eof token_hash token_unknown token_identifier token_number token_string : TokenKind
  token_char token_kw_alignas token_kw_alignof token_kw_asm token_kw_atomic_cancel : TokenKind
  token_kw_atomic_commit token_kw_atomic_noexcept token_kw_auto token_kw_bool : TokenKind
  token_kw_break token_kw_case token_kw_catch token_kw_char token_kw_class : TokenKind
  token_kw_concept token_kw_const token_kw_consteval token_kw_constexpr : TokenKind
  token_kw_constinit token_kw_const_cast token_kw_continue token_kw_contract_assert : TokenKind
  token_kw_co_await token_kw_co_return token_kw_co_yield token_kw_decltype : TokenKind
  token_kw_default token_kw_define token_kw_defined token_kw_delete token_kw_do : TokenKind
  token_kw_double token_kw_dynamic_cast token_kw_elif token_kw_elifdef token_kw_elifndef : TokenKind
  token_kw_else token_kw_endif token_kw_embed token_kw_enum token_kw_error : TokenKind
  token_kw_explicit token_kw_export token_kw_extern token_kw_false token_kw_final : TokenKind
  token_kw_float token_kw_for token_kw_friend token_kw_goto token_kw_if token_kw_ifdef : TokenKind
  token_kw_ifndef token_kw_import token_kw_include token_kw_inline token_kw_int : TokenKind
  token_kw_long token_kw_line token_kw_module token_kw_mutable token_kw_namespace : TokenKind
  token_kw_new token_kw_noexcept token_kw_null token_kw_operator token_kw_override : TokenKind
  token_kw_pragma token_kw_pre token_kw_private token_kw_protected token_kw_post : TokenKind
  token_kw_public token_kw_reflexpr token_kw_reinterpret token_kw_requires : TokenKind
  token_kw_return token_kw_short token_kw_signed token_kw_sizeof token_kw_static : TokenKind
  token_kw_static_assert token_kw_static_cast token_kw_struct token_kw_switch : TokenKind
  token_kw_synchronized token_kw_template token_kw_this token_kw_tread_local : TokenKind
  token_kw_throw token_kw_true token_kw_try token_kw_typedef token_kw_typeid : TokenKind
  token_kw_typename token_kw_undef token_kw_union token_kw_unsigned token_kw_using : TokenKind
  token_kw_virtual token_kw_void token_kw_volatile token_kw_warning token_kw_while : TokenKind
  token_plus token_plus_plus token_plus_equal token_minus token_minus_minus : TokenKind
  token_minus_equal token_star token_star_equal token_slash token_slash_equal : TokenKind
  token_percent token_percent_equal token_assign token_equal token_not token_not_equal : TokenKind
  token_less token_less_equal token_lshift token_greater token_greater_equal token_rshift :
      TokenKind
  token_lparen token_rparen token_lbrace token_rbrace token_lbracket token_rbracket : TokenKind
  token_semicolon token_comma token_dot token_newline token_system_include : TokenKind

-- the value of an enumerator
unfoldable pub ordinal : TokenKind → ℕ
ordinal token_eof = 0
ordinal token_hash = 1
ordinal token_unknown = 2
ordinal token_identifier = 3
ordinal token_number = 4
ordinal token_string = 5
ordinal token_char = 6
ordinal token_kw_alignas = 7
ordinal token_kw_alignof = 8
ordinal token_kw_asm = 9
ordinal token_kw_atomic_cancel = 10
ordinal token_kw_atomic_commit = 11
ordinal token_kw_atomic_noexcept = 12
ordinal token_kw_auto = 13
ordinal token_kw_bool = 14
ordinal token_kw_break = 15
ordinal token_kw_case = 16
ordinal token_kw_catch = 17
ordinal token_kw_char = 18
ordinal token_kw_class = 19
ordinal token_kw_concept = 20
ordinal token_kw_const = 21
ordinal token_kw_consteval = 22
ordinal token_kw_constexpr = 23
ordinal token_kw_constinit = 24
ordinal token_kw_const_cast = 25
ordinal token_kw_continue = 26
ordinal token_kw_contract_assert = 27
ordinal token_kw_co_await = 28
ordinal token_kw_co_return = 29
ordinal token_kw_co_yield = 30
ordinal token_kw_decltype = 31
ordinal token_kw_default = 32
ordinal token_kw_define = 33
ordinal token_kw_defined = 34
ordinal token_kw_delete = 35
ordinal token_kw_do = 36
ordinal token_kw_double = 37
ordinal token_kw_dynamic_cast = 38
ordinal token_kw_elif = 39
ordinal token_kw_elifdef = 40
ordinal token_kw_elifndef = 41
ordinal token_kw_else = 42
ordinal token_kw_endif = 43
ordinal token_kw_embed = 44
ordinal token_kw_enum = 45
ordinal token_kw_error = 46
ordinal token_kw_explicit = 47
ordinal token_kw_export = 48
ordinal token_kw_extern = 49
ordinal token_kw_false = 50
ordinal token_kw_final = 51
ordinal token_kw_float = 52
ordinal token_kw_for = 53
ordinal token_kw_friend = 54
ordinal token_kw_goto = 55
ordinal token_kw_if = 56
ordinal token_kw_ifdef = 57
ordinal token_kw_ifndef = 58
ordinal token_kw_import = 59
ordinal token_kw_include = 60
ordinal token_kw_inline = 61
ordinal token_kw_int = 62
ordinal token_kw_long = 63
ordinal token_kw_line = 64
ordinal token_kw_module = 65
ordinal token_kw_mutable = 66
ordinal token_kw_namespace = 67
ordinal token_kw_new = 68
ordinal token_kw_noexcept = 69
ordinal token_kw_null = 70
ordinal token_kw_operator = 71
ordinal token_kw_override = 72
ordinal token_kw_pragma = 73
ordinal token_kw_pre = 74
ordinal token_kw_private = 75
ordinal token_kw_protected = 76
ordinal token_kw_post = 77
ordinal token_kw_public = 78
ordinal token_kw_reflexpr = 79
ordinal token_kw_reinterpret = 80
ordinal token_kw_requires = 81
ordinal token_kw_return = 82
ordinal token_kw_short = 83
ordinal token_kw_signed = 84
ordinal token_kw_sizeof = 85
ordinal token_kw_static = 86
ordinal token_kw_static_assert = 87
ordinal token_kw_static_cast = 88
ordinal token_kw_struct = 89
ordinal token_kw_switch = 90
ordinal token_kw_synchronized = 91
ordinal token_kw_template = 92
ordinal token_kw_this = 93
ordinal token_kw_tread_local = 94
ordinal token_kw_throw = 95
ordinal token_kw_true = 96
ordinal token_kw_try = 97
ordinal token_kw_typedef = 98
ordinal token_kw_typeid = 99
ordinal token_kw_typename = 100
ordinal token_kw_undef = 101
ordinal token_kw_union = 102
ordinal token_kw_unsigned = 103
ordinal token_kw_using = 104
ordinal token_kw_virtual = 105
ordinal token_kw_void = 106
ordinal token_kw_volatile = 107
ordinal token_kw_warning = 108
ordinal token_kw_while = 109
ordinal token_plus = 110
ordinal token_plus_plus = 111
ordinal token_plus_equal = 112
ordinal token_minus = 113
ordinal token_minus_minus = 114
ordinal token_minus_equal = 115
ordinal token_star = 116
ordinal token_star_equal = 117
ordinal token_slash = 118
ordinal token_slash_equal = 119
ordinal token_percent = 120
ordinal token_percent_equal = 121
ordinal token_assign = 122
ordinal token_equal = 123
ordinal token_not = 124
ordinal token_not_equal = 125
ordinal token_less = 126
ordinal token_less_equal = 127
ordinal token_lshift = 128
ordinal token_greater = 129
ordinal token_greater_equal = 130
ordinal token_rshift = 131
ordinal token_lparen = 132
ordinal token_rparen = 133
ordinal token_lbrace = 134
ordinal token_rbrace = 135
ordinal token_lbracket = 136
ordinal token_rbracket = 137
ordinal token_semicolon = 138
ordinal token_comma = 139
ordinal token_dot = 140
ordinal token_newline = 141
ordinal token_system_include = 142

-- `==` of two kinds compares their values.
unfoldable pub is_kind : TokenKind → TokenKind → Bool
unfolding ordinal
is_kind a b = ordinal a == ordinal b

pub record Token : Type 0 where
  pub kind : TokenKind
  pub string_id : ℕ
  pub line : ℕ
  pub column : ℕ
  pub flags : ℕ
