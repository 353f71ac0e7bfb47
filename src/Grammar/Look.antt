-- ===== src/Grammar/Look.antt =====
-- Grammar.hpp: what a rule does on a text, as far as the first byte decides it, for alternatives that
-- fail and for rules of one character. The names may be looked into as often as the fuel says.
use rdf_parser.Base.{ℕ, zero, suc, Bool, true, false, [], ◌∷◌, Option, none, some, Text}
use rdf_parser.Grammar.Rule.{Rule, eps, eof, ref, ◌then◌, ◌or◌, minus, opt, star, plus, must}
use rdf_parser.Grammar.Bytes.{takes_byte, needs_byte}

-- `takes` is a match of one byte, `skips` one of nothing.
pub data Look : Type 0 where
  fails skips takes unknown : Look

-- The first byte of a text, and what is behind it.
abbrev pub head : Text → Option ℕ
head [] = none
head (c ∷ s) = some c

abbrev pub tail : Text → Text
tail [] = []
tail (c ∷ s) = s

abbrev pub of_byte : Option Bool → Look
of_byte none = unknown
of_byte (some true) = takes
of_byte (some false) = fails

abbrev pub of_need : Bool → Look
of_need true = fails
of_need false = unknown

unfoldable pub look_leaf : {N : Type 0} → Rule N → Option ℕ → Look
unfolding takes_byte needs_byte
look_leaf eof none = skips
look_leaf r none = of_need (needs_byte r)
look_leaf r (some c) = of_byte (takes_byte r c)

-- What is seen of a name whose body has been looked at.
abbrev pub of_name : Bool → Look → Look
of_name quiet_name fails = fails
of_name true l = l
of_name false l = unknown

abbrev pub of_then : Look → Look → Look
of_then fails l = fails
of_then skips l = l
of_then _ l = unknown

abbrev pub of_or : Look → Look → Look
of_or fails l = l
of_or l l' = l

abbrev pub of_minus : Look → Look → Look
of_minus fails l = fails
of_minus takes fails = takes
of_minus takes takes = fails
of_minus _ l = unknown

abbrev pub of_opt : Look → Look
of_opt fails = skips
of_opt l = l

abbrev pub of_star : Look → Look
of_star fails = skips
of_star l = unknown

abbrev pub of_plus : Look → Look
of_plus fails = fails
of_plus l = unknown

abbrev pub of_must : Look → Look
of_must fails = unknown
of_must l = l

module _ {N : Type 0} (body : N → Rule N) (quiet : N → Bool) where
  unfoldable pub look : ℕ → Rule N → Option ℕ → Look
  unfolding look_leaf
  look fuel eps c = skips
  look zero (ref n) c = unknown
  look (suc fuel) (ref n) c = of_name (quiet n) (look fuel (body n) c)
  look fuel (r then r') c = of_then (look fuel r c) (look fuel r' c)
  look fuel (r or r') c = of_or (look fuel r c) (look fuel r' c)
  look fuel (minus r r') c = of_minus (look fuel r c) (look fuel r' c)
  look fuel (opt r) c = of_opt (look fuel r c)
  look fuel (star r) c = of_star (look fuel r c)
  look fuel (plus r) c = of_plus (look fuel r c)
  look fuel (must r) c = of_must (look fuel r c)
  look fuel r c = look_leaf r c
