-- ===== src/Tests/Machines.antt =====
-- States and iterators: documents read by the machine of State.hpp.
use rdf_parser.Base.{◌≡◌, false, List, [], ◌∷◌, some, arith, codes, ok, ◌>>=◌}
use rdf_parser.Rdf.Term.{Term, uri_ref, default_term}
use rdf_parser.Rdf.Triple.{triple}
use rdf_parser.States.Machine.{State, initial_state}
use rdf_parser.States.Machine.Events.{run}
use rdf_parser.States.Machine.Syntax.{
  term, anon, collection, property_list, end, more_objects, last, more, Triples, subject_first,
  list_first, events_triples, triples_meaning,
}
use rdf_parser.States.Machine.Effects.{insert_all}
use rdf_parser.States.Machine.{first, rest, nil}
use rdf_parser.States.Element.{of_term}
use rdf_parser.States.Machine.Syntax.{fresh, events_object}
use rdf_parser.Base.{◌≢◌}
use rdf_parser.States.Turtle.{turtle_word}
use rdf_parser.States.Turtle.Runs.{empty_collection}
use rdf_parser.States.Machine.Mixing.{two_lists, two_lists_read, two_lists_meant, two_lists_mixed}
use rdf_parser.States.Sequential.{Queue, sequential}
use rdf_parser.Parsers.Iterator.{make_iterator, consume}
use rdf_parser.Parsers.Strings.{BaseStringParser, string_parser, read_of, iterate_reads}

abbrev pub named : Term
named = uri_ref (codes "n")

abbrev pub knows : Term
knows = uri_ref (codes "k")

-- n k [ k n ] , ( n [] )
abbrev nested : Triples false
nested = subject_first (term named) (
    last knows (
      more_objects (property_list (last knows (more_objects (term named) end)))
        (more_objects (collection (more_objects (term named) (more_objects anon end))) end)))

-- [ k n ] k n ; k n
abbrev list_subject : Triples false
list_subject =
    list_first (last knows (more_objects (term named) end))
      (more knows (more_objects (term named) end) (last knows (more_objects (term named) end)))

abbrev document : List (Triples false)
document = nested ∷ list_subject ∷ []

empty_collection_example :
    (u : State false (Queue false)) × (run
        (sequential false)
        (events_object (collection end))
        (initial_state [])
      ≡ some u)
    × (u.basic.element
        ≡ fresh false (initial_state {q = false} {D = Queue false} []).basic.latest_bn_label)
    × (u.basic.element ≢ turtle_word (codes "nil"))
    × (u.derived
        ≡ insert_all
            (sequential false)
            (triple u.basic.element (uri_ref (codes "rdf:first")) (uri_ref (codes "rdf:nil")) ∷ [])
            (initial_state {q = false} {D = Queue false} []).derived)
    × (first ≢ turtle_word (codes "first"))
    × (rest ≢ turtle_word (codes "rest"))
    × (nil ≢ turtle_word (codes "nil"))
unfolding of_term
empty_collection_example = empty_collection (sequential false) (initial_state [])

two_lists_mixed_example :
    (u : State false (Queue false)) × (run
        (sequential false)
        (events_triples (two_lists false named knows named knows knows named knows named))
        (initial_state [])
      ≡ some u)
    × (u.derived
        ≡ insert_all
            (sequential false)
            (two_lists_read false named knows named knows knows named knows named)
            [])
    × ((triples_meaning (two_lists false named knows named knows knows named knows named) 1).0
        ≡ two_lists_meant false named knows named knows knows named knows named)
two_lists_mixed_example =
    two_lists_mixed false named knows named knows knows named knows named (sequential false) []

abbrev two_triples : BaseStringParser false
two_triples = record {
  parsed_terms = triple named knows named ∷ triple named named knows ∷ [];
  current_triple = triple default_term default_term default_term;
}

iterate_reads_example :
    (make_iterator (string_parser false) two_triples >>= consume (string_parser false) 4)
    ≡ ok (some (read_of two_triples.parsed_terms two_triples.current_triple))
iterate_reads_example = iterate_reads two_triples 2 (omega arith)
