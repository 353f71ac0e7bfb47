-- ===== src/Printed/Bytes.antt =====
-- Grammar.hpp: the bytes that the rules of one character take, and the texts that are made of them.
use rdf_parser.Base.{
  ℕ, ◌≡◌, refl, Bool, true, false, not, ◌&&◌, [], ◌∷◌, some, Text, codes, if◌then◌else◌,
}
use rdf_parser.Grammar.Rule.{
  Rule, any, one, none_of, between, ref, ◌then◌, ◌or◌, minus, star, digit,
}
use rdf_parser.Grammar.Names.{Name, uchar, echar, pn_chars_u, pn_chars}
use rdf_parser.Grammar.Body.{body}
use rdf_parser.Grammar.Bytes.{member, within}
use rdf_parser.Grammar.Look.{Look, takes, look}
use rdf_parser.Printed.Steps.{silent_name, fuel}

-- What is seen of a rule at a byte.
abbrev pub at_byte : Rule Name → ℕ → Look
at_byte r c = look body silent_name fuel r (some c)

abbrev pub no_iri_bytes : Text
no_iri_bytes = b'<' ∷ b'>' ∷ b'"' ∷ b'{' ∷ b'}' ∷ b'|' ∷ b'^' ∷ b'`' ∷ b'\\' ∷ []

abbrev pub no_string_bytes : Text
no_string_bytes = b'"' ∷ b'\\' ∷ 13 ∷ 10 ∷ []

-- The rules in the loops of IRIREF, of a string, and of a blank node's label.
abbrev pub iri_char : Rule Name
iri_char = minus (minus any (one no_iri_bytes)) (between ((0, 32) ∷ [])) or ref uchar

abbrev pub string_char : Rule Name
string_char = none_of no_string_bytes or ref echar or ref uchar

abbrev pub label_start : Rule Name
label_start = ref pn_chars_u or digit

abbrev pub label_char : Rule Name
label_char = star (one (codes ".")) then ref pn_chars

-- The bytes that need no escape.
abbrev pub iri_byte : ℕ → Bool
iri_byte c = not (member c no_iri_bytes) && not (within c ((0, 32) ∷ []))

abbrev pub string_byte : ℕ → Bool
string_byte c = not (member c no_string_bytes)

both_false : (a b : Bool) → not a && not b ≡ true → (a ≡ false) × (b ≡ false)
both_false true b h = cc
both_false false true h = cc
both_false false false h = (refl, refl)

is_false : (a : Bool) → not a ≡ true → a ≡ false
is_false true h = cc
is_false false h = refl

pub iri_byte-takes : (c : ℕ) → iri_byte c ≡ true → at_byte iri_char c ≡ takes
unfolding look
iri_byte-takes c h =
    let e = both_false (member c no_iri_bytes) (within c ((0, 32) ∷ [])) h in rw (e.0, e.1) refl

pub string_byte-takes : (c : ℕ) → string_byte c ≡ true → at_byte string_char c ≡ takes
unfolding look
string_byte-takes c h = let e = is_false (member c no_string_bytes) h in rw e refl
