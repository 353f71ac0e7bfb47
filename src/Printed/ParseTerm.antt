-- ===== src/Printed/ParseTerm.antt =====
-- include/Dice/RDF/ParseTerm.hpp: parse_term on identifiers, by the grammar and its actions.
use rdf_parser.Base.{◌≡◌, sym, ◌∙◌, false, [], Option, append-nil, Text, Result, ok}
use rdf_parser.Rdf.Term.Equality.{RdfTerm, shown, represent, IsNormal, represent-shown}
use rdf_parser.Rdf.ParseTerm.{TermParse, parse_term, AppliesTerm, parse_term-represent}
use rdf_parser.Grammar.Rule.{Rule}
use rdf_parser.Grammar.Names.{Name, term}
use rdf_parser.Grammar.Bytes.{IsByteWise}
use rdf_parser.Grammar.Match.{Leaves}
use rdf_parser.Actions.Table.{basic_action}
use rdf_parser.Parsers.Parsable.{parse_rule, parse_rule-Match}
use rdf_parser.Printed.Steps.{along}
use rdf_parser.Printed.States.{basic_terms}
use rdf_parser.Printed.Terms.{IsWritten, term_read}

module _ (leaf : Rule Name → Text → Option Text) (b : Leaves leaf) where
  -- `parse<Grammar::term, Actions::action>(input, state)`.
  unfoldable pub parse_term_rule : TermParse
  unfolding parse_rule basic_action
  parse_term_rule = parse_rule leaf b (basic_action false) term

  module _ (w : IsByteWise leaf) where
    term_rule-AppliesTerm : (a : RdfTerm) → IsWritten a → IsNormal a → AppliesTerm parse_term_rule a
    unfolding parse_term_rule basic_terms
    term_rule-AppliesTerm a h n s u e =
        let m = term_read leaf w (basic_action false) basic_terms a [] s s u h tt e in
        parse_rule-Match leaf b (basic_action false) term (represent a).identifier s (
          along leaf w (basic_action false) basic_terms
            (represent-shown a n ∙ sym (append-nil (shown a))) m)

    -- For every RDF term in normal form that is an IRI without an escape; a blank node whose label has
    -- only single-byte label characters and no dot; or a literal without an escape, plain, with a data
    -- type, or with a language of ASCII letters alone: parse_term, with the grammar and its actions,
    -- reads the term's identifier back to that term.
    pub parse_term_rule-represent :
        (message : Result Text) (a : RdfTerm)
        → IsWritten a
        → IsNormal a
        → parse_term parse_term_rule message (represent a).identifier ≡ ok (represent a)
    parse_term_rule-represent message a h n =
        parse_term-represent parse_term_rule message a (term_rule-AppliesTerm a h n)
