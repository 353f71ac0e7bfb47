-- ===== src/Tests/Documents.antt =====
-- BaseStringParser.hpp, TurtleStringParser.hpp and ParseTerm.hpp on texts, with the grammar and its
-- actions, and characters of one byte.
use rdf_parser.Base.{All}
use rdf_parser.Base.{
  ◌≤◌, ◌≡◌, ◌↔◌, ◌⊎◌, inl, refl, true, false, [], ◌∷◌, ◌++◌, some, length, Text, codes, ok, throw,
  ◌>>=◌, format_error, arith,
}
use rdf_parser.Rdf.Term.{Term, uri_ref, bnode, literal}
use rdf_parser.Rdf.Term.Equality.{RdfTerm, iri, blank, lit, language, represent, IsNormal}
use rdf_parser.Rdf.ParseTerm.{parse_term}
use rdf_parser.States.Machine.Syntax.{
  term, anon, collection, Objects, end, more_objects, last, more, Triples, subject_first,
  list_alone, triples_meaning,
}
use rdf_parser.States.Machine.{with_verb}
use rdf_parser.States.Machine.Nesting.{OneListEachTriples}
use rdf_parser.Grammar.Body.{body}
use rdf_parser.Printed.Steps.{silent_name}
use rdf_parser.States.Documents.{statements_meaning, all_of, OneListEachStatements}
use rdf_parser.Parsers.Iterator.{make_iterator, consume}
use rdf_parser.Parsers.Strings.{BaseStringParser, string_parser, read_of}
use rdf_parser.Parsers.Construct.{construct, construct_with, default_triple, is_parsable}
use rdf_parser.Parsers.Parsable.{
  parse_grammar, recognise_grammar, IsDocument, is_parsable_lem, construct-is_parsable,
}
use rdf_parser.Parsers.Total.{IsAnswer, construct-IsAnswer}
use rdf_parser.Printed.Syntax.{show_document, IsIri, IsPrintableDocument}
use rdf_parser.Printed.Tokens.{IriText}
use rdf_parser.Printed.Terms.{IsWritten}
use rdf_parser.Grammar.Look.{look}
use rdf_parser.Printed.Labels.{printed_labels}
use rdf_parser.States.Machine.{State, initial_state}
use rdf_parser.States.Sequential.{Queue, sequential}
use rdf_parser.Printed.Nodes.{IsRdfTriple}
use rdf_parser.Printed.Kinds.{printed_kinds}
use rdf_parser.Printed.Documents.{printed_document, initial-Like}
use rdf_parser.Printed.Clash.{written_label-clash}
use rdf_parser.Grammar.Names
use rdf_parser.Grammar.Rule.{ref}
use rdf_parser.Grammar.Match.{Match, matched}
use rdf_parser.Actions.Table.{action}
use rdf_parser.Printed.ParseTerm.{parse_term_rule, parse_term_rule-represent}
use rdf_parser.Tests.Bytes.{bytes, bytes-Leaves, bytes-IsByteWise}

-- `<s> <p> "x"@en , [] ; <q> ( _:l ) .` and `[ <p> <o> ] .`
abbrev named : Text → Term
named u = represent (iri u)

abbrev objects : Objects false
objects =
    more_objects (term (represent (lit (codes "x") (language (codes "en")))))
      (more_objects anon end)

abbrev listed : Objects false
listed = more_objects (collection (more_objects (term (represent (blank (codes "l")))) end)) end

abbrev first_triple : Triples false
first_triple =
    subject_first (term (named (codes "s")))
      (more (named (codes "p")) objects (last (named (codes "q")) listed))

abbrev second_triple : Triples false
second_triple = list_alone (last (named (codes "p")) (more_objects (term (named (codes "o"))) end))

first_triple_text :
    show_document (first_triple ∷ []) ≡ codes "<s> <p> \"x\"@en , [] ; <q> ( _:l ) ." ++ 10 ∷ []
unfolding show_document represent uri_ref literal bnode
first_triple_text = refl

abbrev hello : RdfTerm
hello = lit (codes "x") (language (codes "en"))

hello-IsWritten : IsWritten hello
unfolding look
hello-IsWritten = ((refl, tt), (refl, (refl, tt)))

hello-IsNormal : IsNormal hello
hello-IsNormal = (omega arith, (omega arith, tt))

label-IsWritten : IsWritten (blank (codes "l"))
unfolding look body silent_name
label-IsWritten = (refl, tt)

named-IsIri : (u : Text) → IriText u → IsIri (named u)
unfolding represent
named-IsIri u h = (u, refl, h)

document-IsPrintable : IsPrintableDocument (first_triple ∷ second_triple ∷ [])
unfolding IsPrintableDocument
document-IsPrintable = (
  (
    inl (named-IsIri (codes "s") (refl, tt)),
    (
      named-IsIri (codes "p") (refl, tt),
      (((hello, refl, hello-IsWritten, hello-IsNormal), (tt, tt)), tt),
      (
        named-IsIri (codes "q") (refl, tt),
        (((blank (codes "l"), refl, label-IsWritten, tt), tt), tt),
        tt,
      ),
    ),
  ),
  ((named-IsIri (codes "p") (refl, tt), ((iri (codes "o"), refl, (refl, tt), tt), tt), tt), tt),
)

document-OneListEach : OneListEachStatements (first_triple ∷ second_triple ∷ [])
unfolding OneListEachStatements OneListEachTriples
document-OneListEach = (
  (tt, (omega arith, (tt, (tt, tt)), (omega arith, ((tt, tt), tt)))),
  ((omega arith, (tt, tt)), tt),
)

few_triples : length (all_of (statements_meaning (first_triple ∷ second_triple ∷ []) 1)) ≤ 9
unfolding statements_meaning triples_meaning with_verb
few_triples = omega arith

both_parse :
    (p : BaseStringParser false) × (construct
        (parse_grammar bytes bytes-Leaves false)
        (show_document (first_triple ∷ second_triple ∷ []))
      ≡ ok p)
    × (construct_with
          (parse_grammar bytes bytes-Leaves false)
          (show_document (first_triple ∷ second_triple ∷ []))
          ((codes "p", codes "http://a") ∷ [])
        ≡ ok p)
    × (is_parsable
          (recognise_grammar bytes bytes-Leaves)
          (show_document (first_triple ∷ second_triple ∷ []))
        ≡ ok true)
    × ((make_iterator (string_parser false) p >>= consume (string_parser false) 11)
        ≡ ok (
            some (
              read_of
                (all_of (statements_meaning (first_triple ∷ second_triple ∷ []) 1))
                (default_triple false))))
both_parse =
    printed_document bytes bytes-Leaves bytes-IsByteWise first_triple (second_triple ∷ [])
      ((codes "p", codes "http://a") ∷ []) 9 document-IsPrintable document-OneListEach few_triples

printed_kinds_example :
    (p : BaseStringParser false) × (construct
        (parse_grammar bytes bytes-Leaves false)
        (show_document (first_triple ∷ second_triple ∷ []))
      ≡ ok p)
    × All IsRdfTriple p.parsed_terms
printed_kinds_example =
    printed_kinds bytes bytes-Leaves bytes-IsByteWise first_triple (second_triple ∷ [])
      document-IsPrintable document-OneListEach

printed_labels_example :
    (s : State false (Queue false)) × (parse_grammar bytes bytes-Leaves false
        (show_document (first_triple ∷ second_triple ∷ []))
        (initial_state [])
      ≡ ok (true, s))
    × (s.basic.latest_bn_label ≤ length (show_document (first_triple ∷ second_triple ∷ [])))
printed_labels_example =
    printed_labels bytes bytes-Leaves bytes-IsByteWise first_triple (second_triple ∷ [])
      document-IsPrintable document-OneListEach

-- The label "b1" in front of the first blank node without one.
written_label-clash_example :
    (l : Text) × (t : State false (Queue false)) × (u : State false (Queue false)) × Match body
      bytes
      (action (sequential false))
      (ref Names.blank_node)
      (codes "_:" ++ l)
      (initial_state [])
      (matched [] t)
    × Match body bytes
        (action (sequential false))
        (ref Names.blank_node)
        (codes "[]")
        t
        (matched [] u)
    × (t.basic.element ≡ u.basic.element)
unfolding initial_state
written_label-clash_example =
    written_label-clash (sequential false) bytes bytes-IsByteWise (initial_state []) initial-Like

parse_term_rule-represent_example :
    parse_term
      (parse_term_rule bytes bytes-Leaves)
      (throw format_error)
      (represent hello).identifier
    ≡ ok (represent hello)
parse_term_rule-represent_example =
    parse_term_rule-represent bytes bytes-Leaves bytes-IsByteWise (throw format_error) hello
      hello-IsWritten hello-IsNormal

is_parsable_lem_example :
    ((is_parsable (recognise_grammar bytes bytes-Leaves) (codes "<a> <b>") ≡ ok true)
      ↔ IsDocument bytes bytes-Leaves (codes "<a> <b>"))
    × ((is_parsable (recognise_grammar bytes bytes-Leaves) (codes "<a> <b>") ≡ ok true)
        ⊎ (is_parsable (recognise_grammar bytes bytes-Leaves) (codes "<a> <b>") ≡ ok false))
is_parsable_lem_example = is_parsable_lem bytes bytes-Leaves (codes "<a> <b>")

construct-is_parsable_example :
    is_parsable
      (recognise_grammar bytes bytes-Leaves)
      (show_document (first_triple ∷ second_triple ∷ []))
    ≡ ok true
construct-is_parsable_example =
    construct-is_parsable bytes bytes-Leaves (show_document (first_triple ∷ second_triple ∷ [])) []
      both_parse.0 (inl both_parse.1)

construct-IsAnswer_example :
    IsAnswer (construct (parse_grammar bytes bytes-Leaves false) (codes "<a> ( [ <b>"))
    × IsAnswer (construct_with (parse_grammar bytes bytes-Leaves false) (codes "<a> ( [ <b>") [])
construct-IsAnswer_example = construct-IsAnswer bytes bytes-Leaves (codes "<a> ( [ <b>") []
