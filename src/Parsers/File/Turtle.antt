-- ===== src/Parsers/File/Turtle.antt =====
-- TurtleFileParser.hpp: a document in a file parser, and what Turtle says of its triples.
use rdf_parser.Rdf.Term.{Term}
