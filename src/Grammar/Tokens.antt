-- ===== src/Grammar/Tokens.antt =====
-- Grammar.hpp, the terminals: a definition for each struct.
use rdf_parser.Base.{ℕ, [], ◌∷◌, codes}
use rdf_parser.Grammar.Rule.{
  Rule, any, one, none_of, between, code_point, ref, ◌then◌, ◌or◌, minus, opt, star, plus, lower,
  upper, digit, alpha, alnum,
}
use rdf_parser.Grammar.Names.{
  Name, pn_local_esc, hex, percent, plx, pn_chars_base, pn_chars_u, pn_chars, pn_local, pn_prefix,
  anon_ws, uchar, echar, exponent, pname_ns,
}

abbrev pub Body : Type 0
Body = Rule Name

abbrev sign : Body
sign = opt (one (codes "+") or one (codes "-"))

unfoldable pub pn_local_esc_body : Body
pn_local_esc_body =
    one (b'\\' ∷ [])
    then (one (codes "_")
        or one (codes "~")
        or one (codes ".")
        or one (codes "-")
        or one (codes "!")
        or one (codes "$")
        or one (codes "&")
        or one (codes "'")
        or one (codes "(")
        or one (codes ")")
        or one (codes "*")
        or one (codes "+")
        or one (codes ",")
        or one (codes ";")
        or one (codes "=")
        or one (codes "/")
        or one (codes "?")
        or one (codes "#")
        or one (codes "@")
        or one (codes "%"))

unfoldable pub hex_body : Body
hex_body = between ((b'a', b'f') ∷ (b'A', b'F') ∷ (b'0', b'9') ∷ [])

unfoldable pub percent_body : Body
percent_body = one (codes "%") then ref hex then ref hex

unfoldable pub plx_body : Body
plx_body = ref percent or ref pn_local_esc

unfoldable pub pn_chars_base_body : Body
pn_chars_base_body =
    lower
    or upper
    or code_point (
        (192, 214)
        ∷ (216, 246)
        ∷ (248, 767)
        ∷ (880, 893)
        ∷ (895, 8191)
        ∷ (8204, 8205)
        ∷ (8304, 8591)
        ∷ (11264, 12271)
        ∷ (12289, 55295)
        ∷ (63744, 64975)
        ∷ (65008, 65533)
        ∷ (65536, 983039)
        ∷ [])

unfoldable pub pn_chars_u_body : Body
pn_chars_u_body = ref pn_chars_base or one (codes "_")

unfoldable pub pn_chars_body : Body
pn_chars_body =
    ref pn_chars_u
    or one (codes "-")
    or digit
    or code_point ((183, 183) ∷ [])
    or code_point ((768, 879) ∷ [])
    or code_point ((8255, 8256) ∷ [])

unfoldable pub pn_local_body : Body
pn_local_body =
    (ref pn_chars_u or one (codes ":") or digit or ref plx)
    then star (star (one (codes ".")) then plus (ref pn_chars or one (codes ":") or ref plx))

unfoldable pub pn_prefix_body : Body
pn_prefix_body = ref pn_chars_base then star (star (one (codes ".")) then ref pn_chars)

unfoldable pub anon_ws_body : Body
anon_ws_body = one (32 ∷ 9 ∷ 13 ∷ 10 ∷ [])

unfoldable pub anon_body : Body
anon_body = one (codes "[") then star (ref anon_ws) then one (codes "]")

unfoldable pub uchar_body : Body
uchar_body =
    (one (b'\\' ∷ []) then one (codes "u") then ref hex then ref hex then ref hex then ref hex)
    or (one (b'\\' ∷ [])
        then one (codes "U")
        then ref hex
        then ref hex
        then ref hex
        then ref hex
        then ref hex
        then ref hex
        then ref hex
        then ref hex)

unfoldable pub echar_body : Body
echar_body =
    one (b'\\' ∷ [])
    then (one (codes "t")
        or one (codes "b")
        or one (codes "n")
        or one (codes "r")
        or one (codes "f")
        or one (b'"' ∷ [])
        or one (codes "'")
        or one (b'\\' ∷ []))

-- The two long strings and the two short ones, by their quotation mark.
abbrev long_string : ℕ → Body
long_string mark =
    one (mark ∷ [])
    then one (mark ∷ [])
    then one (mark ∷ [])
    then star (
        opt ((one (mark ∷ []) then one (mark ∷ [])) or one (mark ∷ []))
        then (none_of (mark ∷ b'\\' ∷ []) or ref echar or ref uchar))
    then one (mark ∷ [])
    then one (mark ∷ [])
    then one (mark ∷ [])

abbrev short_string : ℕ → Body
short_string mark =
    one (mark ∷ [])
    then star (none_of (mark ∷ b'\\' ∷ 13 ∷ 10 ∷ []) or ref echar or ref uchar)
    then one (mark ∷ [])

unfoldable pub string_literal_long_quote_body : Body
string_literal_long_quote_body = long_string b'"'

unfoldable pub string_literal_quote_body : Body
string_literal_quote_body = short_string b'"'

unfoldable pub string_literal_single_quote_body : Body
string_literal_single_quote_body = short_string b'\''

unfoldable pub string_literal_long_single_quote_body : Body
string_literal_long_single_quote_body = long_string b'\''

unfoldable pub integer_body : Body
integer_body = sign then plus digit

unfoldable pub decimal_body : Body
decimal_body = sign then star digit then one (codes ".") then plus digit

unfoldable pub exponent_body : Body
exponent_body = (one (codes "e") or one (codes "E")) then sign then plus digit

unfoldable pub double_body : Body
double_body =
    sign
    then ((plus digit then one (codes ".") then star digit then ref exponent)
        or (one (codes ".") then plus digit then ref exponent)
        or (plus digit then ref exponent))

unfoldable pub langtag_body : Body
langtag_body = one (codes "@") then plus alpha then star (one (codes "-") then plus alnum)

unfoldable pub blank_node_label_body : Body
blank_node_label_body =
    one (codes "_")
    then one (codes ":")
    then (ref pn_chars_u or digit)
    then star (star (one (codes ".")) then ref pn_chars)

unfoldable pub pname_ns_body : Body
pname_ns_body = opt (ref pn_prefix) then one (codes ":")

unfoldable pub pname_ln_body : Body
pname_ln_body = ref pname_ns then ref pn_local

unfoldable pub iriref_body : Body
iriref_body =
    one (codes "<")
    then star (
        minus (minus any (one (b'<' ∷ b'>' ∷ b'"' ∷ b'{' ∷ b'}' ∷ b'|' ∷ b'^' ∷ b'`' ∷ b'\\' ∷ [])))
          (between ((0, 32) ∷ []))
        or ref uchar)
    then one (codes ">")

unfoldable pub comment_body : Body
comment_body = one (codes "#") then star (none_of (10 ∷ 13 ∷ 12 ∷ [])) then one (10 ∷ 13 ∷ [])
