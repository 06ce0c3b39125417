-- ===== src/Parser/Kinds.antt =====
-- Which tests of kinds exclude each other.
use partio.Prelude.{true, ◌≡◌, refl, true, false}
use partio.Token.{TokenKind, is_kind}
use partio.Parser.{is_type_token}

-- kinds that the parser tells apart
pub semicolon-number : is_kind TokenKind.token_number TokenKind.token_semicolon ≡ false
unfolding is_kind
semicolon-number = refl

pub rbrace-return : is_kind TokenKind.token_kw_return TokenKind.token_rbrace ≡ false
unfolding is_kind
rbrace-return = refl

pub eof-return : is_kind TokenKind.token_kw_return TokenKind.token_eof ≡ false
unfolding is_kind
eof-return = refl

pub lparen-semicolon : is_kind TokenKind.token_semicolon TokenKind.token_lparen ≡ false
unfolding is_kind
lparen-semicolon = refl

pub lbrace-semicolon : is_kind TokenKind.token_semicolon TokenKind.token_lbrace ≡ false
unfolding is_kind
lbrace-semicolon = refl

pub eof-hash : is_kind TokenKind.token_hash TokenKind.token_eof ≡ false
unfolding is_kind
eof-hash = refl

pub eof-newline : is_kind TokenKind.token_newline TokenKind.token_eof ≡ false
unfolding is_kind
eof-newline = refl

pub hash-newline : is_kind TokenKind.token_newline TokenKind.token_hash ≡ false
unfolding is_kind
hash-newline = refl

pub include-newline : is_kind TokenKind.token_newline TokenKind.token_system_include ≡ false
unfolding is_kind
include-newline = refl

pub string-newline : is_kind TokenKind.token_newline TokenKind.token_string ≡ false
unfolding is_kind
string-newline = refl

pub kw_include-newline : is_kind TokenKind.token_newline TokenKind.token_kw_include ≡ false
unfolding is_kind
kw_include-newline = refl

-- A type is no end of a file or a line and starts no directive.
pub type_token-other :
    (k : TokenKind)
    → is_type_token k ≡ true
    → (is_kind k TokenKind.token_eof ≡ false)
      × (is_kind k TokenKind.token_hash ≡ false)
      × (is_kind k TokenKind.token_newline ≡ false)
unfolding is_type_token is_kind
type_token-other TokenKind.token_eof h = cc
type_token-other TokenKind.token_hash h = cc
type_token-other TokenKind.token_newline h = cc
type_token-other _ h = (refl, refl, refl)

pub newline-eof : is_kind TokenKind.token_eof TokenKind.token_newline ≡ false
unfolding is_kind
newline-eof = refl

pub include-eof : is_kind TokenKind.token_eof TokenKind.token_system_include ≡ false
unfolding is_kind
include-eof = refl

pub string-eof : is_kind TokenKind.token_eof TokenKind.token_string ≡ false
unfolding is_kind
string-eof = refl

pub kw_include-eof : is_kind TokenKind.token_eof TokenKind.token_kw_include ≡ false
unfolding is_kind
kw_include-eof = refl

pub rbrace-eof : is_kind TokenKind.token_eof TokenKind.token_rbrace ≡ false
unfolding is_kind
rbrace-eof = refl

pub hash-eof : is_kind TokenKind.token_eof TokenKind.token_hash ≡ false
unfolding is_kind
hash-eof = refl

pub rparen-eof : is_kind TokenKind.token_eof TokenKind.token_rparen ≡ false
unfolding is_kind
rparen-eof = refl

pub lbrace-eof : is_kind TokenKind.token_eof TokenKind.token_lbrace ≡ false
unfolding is_kind
lbrace-eof = refl

pub semicolon-eof : is_kind TokenKind.token_eof TokenKind.token_semicolon ≡ false
unfolding is_kind
semicolon-eof = refl

pub number-eof : is_kind TokenKind.token_eof TokenKind.token_number ≡ false
unfolding is_kind
number-eof = refl

pub identifier-eof : is_kind TokenKind.token_eof TokenKind.token_identifier ≡ false
unfolding is_kind
identifier-eof = refl

pub newline-include : is_kind TokenKind.token_system_include TokenKind.token_newline ≡ false
unfolding is_kind
newline-include = refl

pub eof-include : is_kind TokenKind.token_system_include TokenKind.token_eof ≡ false
unfolding is_kind
eof-include = refl

pub newline-string : is_kind TokenKind.token_string TokenKind.token_newline ≡ false
unfolding is_kind
newline-string = refl

pub eof-string : is_kind TokenKind.token_string TokenKind.token_eof ≡ false
unfolding is_kind
eof-string = refl

pub newline-kw_include : is_kind TokenKind.token_kw_include TokenKind.token_newline ≡ false
unfolding is_kind
newline-kw_include = refl

pub eof-kw_include : is_kind TokenKind.token_kw_include TokenKind.token_eof ≡ false
unfolding is_kind
eof-kw_include = refl

pub eof-eof : is_kind TokenKind.token_eof TokenKind.token_eof ≡ true
unfolding is_kind
eof-eof = refl

pub lparen-eof : is_kind TokenKind.token_eof TokenKind.token_lparen ≡ false
unfolding is_kind
lparen-eof = refl
