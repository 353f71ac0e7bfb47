-- ===== src/Tests/Grammars.antt =====
-- The grammar on texts, with characters of one byte.
use rdf_parser.Base.{refl, false, [], codes}
use rdf_parser.Grammar.Rule.{ref}
use rdf_parser.Grammar.Names.{grammar}
use rdf_parser.Grammar.Body.{body}
use rdf_parser.Grammar.Match.{Outcome, Match}
use rdf_parser.Grammar.Whole.{WholeText, grammar_ends, grammar_whole}
use rdf_parser.Grammar.Erased.{nothing}
use rdf_parser.Tests.Bytes.{bytes, bytes-Leaves}

grammar_ends_example :
    (o : Outcome Unit) × Match body bytes nothing (ref (grammar false)) (codes "<a> <b> <c> .") tt o
grammar_ends_example =
    grammar_ends bytes nothing bytes-Leaves (grammar false) (codes "<a> <b> <c> .") tt

abbrev empty_outcome : Outcome Unit
empty_outcome = (grammar_ends bytes nothing bytes-Leaves (grammar false) [] tt).0

grammar_whole_example : WholeText [] empty_outcome
grammar_whole_example =
    grammar_whole bytes nothing bytes-Leaves false [] tt empty_outcome refl
      (grammar_ends bytes nothing bytes-Leaves (grammar false) [] tt).1
