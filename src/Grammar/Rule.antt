-- ===== src/Grammar/Rule.antt =====
-- Grammar.hpp: the rules of PEGTL that the grammar is made of, over a type of names.
use rdf_parser.Base.{ℕ, List, [], ◌∷◌, Text}

-- `eps` is the empty sequence. `none_of` is not_one; `between` is range and ranges, `code_point`
-- their utf8 form; `minus r s` matches what r does, but not where s matches all of it.
pub data Rule (N : Type 0) : Type 0 where
  eps any eof : Rule N
  one none_of : Text → Rule N
  between code_point : List (ℕ × ℕ) → Rule N
  str : Text → Rule N
  ref : N → Rule N
  ◌then◌ ◌or◌ minus : Rule N → Rule N → Rule N
  opt star plus must : Rule N → Rule N

infixr 5 ◌then◌
infixr 4 ◌or◌
-- The character classes of PEGTL.
module _ {N : Type 0} where
  abbrev pub lower : Rule N
  lower = between ((b'a', b'z') ∷ [])

  abbrev pub upper : Rule N
  upper = between ((b'A', b'Z') ∷ [])

  abbrev pub digit : Rule N
  digit = between ((b'0', b'9') ∷ [])

  abbrev pub alpha : Rule N
  alpha = between ((b'a', b'z') ∷ (b'A', b'Z') ∷ [])

  abbrev pub alnum : Rule N
  alnum = between ((b'a', b'z') ∷ (b'A', b'Z') ∷ (b'0', b'9') ∷ [])

  abbrev pub space : Rule N
  space = one (32 ∷ 10 ∷ 13 ∷ 9 ∷ 11 ∷ 12 ∷ [])
