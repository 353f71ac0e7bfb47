-- ===== src/Sparql/Variable.antt =====
-- include/Dice/SPARQL/Variable.hpp.
use rdf_parser.Base.{
  Bool, false, not, [], ◌∷◌, if◌then◌else◌, Text, codes, text_eq, text_lt, Result,
}
use rdf_parser.Rdf.Format.{Fmt}

pub record Variable : Type 0 where
  pub name : Text
  pub is_anonym : Bool

abbrev pub default_variable : Variable
default_variable = record { name = []; is_anonym = false }

-- `Variable(var_name, anonym)`; the second argument is false where the program leaves it off.
abbrev pub variable : Text → Bool → Variable
variable var_name anonym = record { name = var_name; is_anonym = anonym }

unfoldable pub variable_eq : Variable → Variable → Bool
variable_eq v w = text_eq v.name w.name

unfoldable pub variable_ne : Variable → Variable → Bool
variable_ne v w = not (text_eq v.name w.name)

unfoldable pub variable_lt : Variable → Variable → Bool
variable_lt v w = text_lt v.name w.name

unfoldable pub variable_gt : Variable → Variable → Bool
variable_gt v w = text_lt w.name v.name

unfoldable pub set_name : Text → Variable → Variable
set_name name v = record v { name = name }

unfoldable pub set_is_anonym : Bool → Variable → Variable
set_is_anonym is_anonym v = record v { is_anonym = is_anonym }

-- The formatter: "_:{}" for an anonymous variable, "?{}" for another.
unfoldable pub format_variable : Fmt → Variable → Result Text
format_variable fmt v =
    if v.is_anonym
    then fmt.format_to (codes "_:{}") (v.name ∷ [])
    else fmt.format_to (codes "?{}") (v.name ∷ [])
