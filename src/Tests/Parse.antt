-- ===== src/Tests/Parse.antt =====
-- ParseTerm.hpp: a parse that never matches.
use rdf_parser.Base.{◌≢◌, refl, false, codes, ok, throw, format_error}
use rdf_parser.Rdf.ParseTerm.{TermParse, term_parsable, term_parsable-never_false}

abbrev parse_nothing : TermParse
parse_nothing text s = ok (false, s)

term_parsable-never_false_example :
    term_parsable parse_nothing (throw format_error) (codes "?") ≢ ok false
term_parsable-never_false_example =
    term_parsable-never_false parse_nothing (throw format_error) (codes "?") refl
