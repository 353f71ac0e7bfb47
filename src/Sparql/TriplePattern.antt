-- ===== src/Sparql/TriplePattern.antt =====
-- include/Dice/SPARQL/TriplePattern.hpp: std::variant<Variable, Term>, and triples of them.
use rdf_parser.Base.{Bool, false, [], ◌∷◌, Text, codes, Result, ◌>>=◌}
use rdf_parser.Rdf.Format.{Fmt, format_term, format_entries}
use rdf_parser.Rdf.Term.{Term, term_eq}
use rdf_parser.Rdf.Triple.{AbstractTriple}
use rdf_parser.Sparql.Variable.{Variable, default_variable, variable_eq, format_variable}

pub data VarOrTerm : Type 0 where
  var : Variable → VarOrTerm
  term : Term → VarOrTerm

-- A variant begins as its first alternative.
abbrev pub default_var_or_term : VarOrTerm
default_var_or_term = var default_variable

-- operator== of a variant: the same alternative, and equal values.
unfoldable pub var_or_term_eq : VarOrTerm → VarOrTerm → Bool
var_or_term_eq (var v) (var w) = variable_eq v w
var_or_term_eq (term s) (term t) = term_eq s t
var_or_term_eq _ _ = false

abbrev pub TriplePattern : Type 0
TriplePattern = AbstractTriple VarOrTerm

-- The formatters; "{}" prints its one argument by the argument's own formatter.
unfoldable pub format_var_or_term : Fmt → VarOrTerm → Result Text
unfolding format_variable format_term
format_var_or_term fmt (var v) =
    format_variable fmt v >>= (λ t. fmt.format_to (codes "{}") (t ∷ []))
format_var_or_term fmt (term p) = format_term fmt p >>= (λ t. fmt.format_to (codes "{}") (t ∷ []))

unfoldable pub format_triple_pattern : Fmt → TriplePattern → Result Text
unfolding format_entries format_var_or_term
format_triple_pattern fmt p = format_entries fmt (format_var_or_term fmt) p
