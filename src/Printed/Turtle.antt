-- ===== src/Printed/Turtle.antt =====
-- Grammar.hpp with Actions.hpp: the constructors on printed documents, and what Turtle says of their
-- triples.
use rdf_parser.Rdf.Term.{Term}
use rdf_parser.Grammar.Rule.{Rule}
