-- ===== src/Printed/Kinds.antt =====
-- Rdf/Term.hpp and State.hpp: the kinds of the terms in the triples of a document.
use rdf_parser.Base.{
  ℕ, ◌≡◌, refl, true, false, List, [], ◌∷◌, Option, All, All-append, Text, ok, inl, inr,
}
use rdf_parser.Rdf.Term.{bnode}
use rdf_parser.Rdf.Term.Equality.{represent}
use rdf_parser.States.Machine.{with_verb, initial_state}
use rdf_parser.States.Machine.Syntax.{
  Object, term, anon, collection, property_list, Objects, end, more_objects, PredicateObjects, last,
  more, Triples, subject_first, list_alone, list_first, object_meaning, objects_meaning,
  predicates_meaning, triples_meaning,
}
use rdf_parser.States.Documents.{statements_meaning, all_of, OneListEachStatements, initial-IsIdle}
use rdf_parser.Grammar.Rule.{Rule}
use rdf_parser.Grammar.Names.{Name}
use rdf_parser.Grammar.Bytes.{IsByteWise}
use rdf_parser.Grammar.Match.{Leaves}
use rdf_parser.Parsers.Strings.{BaseStringParser}
use rdf_parser.Parsers.Construct.{construct, default_triple, parsed_document}
use rdf_parser.Parsers.Parsable.{parse_grammar}
use rdf_parser.Printed.Documents.{document-Applies, initial-Like}
use rdf_parser.Printed.Syntax.{
  IsPrintable, IsPrintableAll, IsPrintableList, IsSubject, IsPrintableTriples, IsPrintableDocument,
  show_document,
}
use rdf_parser.Printed.Nodes.{
  is_resource, IsRdfTriple, IsNode, IsPair, resource-IsNode, represent-IsNode, iri-is_uri_ref,
  with_verb-IsPair, with_subject-IsRdfTriple, cells-IsRdfTriple, fresh-is_resource,
  anon-is_resource, anon-IsNode,
}

mutual
  unfolding object_meaning objects_meaning predicates_meaning IsPrintable IsPrintableAll
      IsPrintableList

  object_meaning-IsRdfTriple :
      (o : Object false) (n : ℕ)
      → IsPrintable o
      → IsNode (object_meaning o n).0 × All IsRdfTriple (object_meaning o n).1
  object_meaning-IsRdfTriple (term e) n (a, h, g, i) = (rw (← h) (represent-IsNode a), tt)
  object_meaning-IsRdfTriple anon n h = (anon-IsNode n, tt)
  object_meaning-IsRdfTriple (collection os) n h =
      let (es, ts) = objects_meaning-IsRdfTriple os n h in
      let (r, us) = cells-IsRdfTriple (objects_meaning os n).0 (objects_meaning os n).2 es in
      (resource-IsNode _ r, All-append IsRdfTriple (objects_meaning os n).1 _ ts us)
  object_meaning-IsRdfTriple (property_list ps) n h =
      let (pairs, ts) = predicates_meaning-IsRdfTriple ps n h in
      let r = fresh-is_resource (predicates_meaning ps n).2 in
      (
        resource-IsNode _ r,
        All-append IsRdfTriple (predicates_meaning ps n).1 _ ts
            (with_subject-IsRdfTriple _ (predicates_meaning ps n).0 r pairs),
      )

  objects_meaning-IsRdfTriple :
      (os : Objects false) (n : ℕ)
      → IsPrintableAll os
      → All IsNode (objects_meaning os n).0 × All IsRdfTriple (objects_meaning os n).1
  objects_meaning-IsRdfTriple end n h = (tt, tt)
  objects_meaning-IsRdfTriple (more_objects o os) n h =
      let (e, ts) = object_meaning-IsRdfTriple o n h.0 in
      let (es, us) = objects_meaning-IsRdfTriple os (object_meaning o n).2 h.1 in
      ((e, es), All-append IsRdfTriple (object_meaning o n).1 _ ts us)

  predicates_meaning-IsRdfTriple :
      (ps : PredicateObjects false) (n : ℕ)
      → IsPrintableList ps
      → All IsPair (predicates_meaning ps n).0 × All IsRdfTriple (predicates_meaning ps n).1
  predicates_meaning-IsRdfTriple (last v os) n h =
      let (es, ts) = objects_meaning-IsRdfTriple os n h.1 in
      (with_verb-IsPair v _ (iri-is_uri_ref v h.0) es, ts)
  predicates_meaning-IsRdfTriple (more v os ps) n h =
      let (es, ts) = objects_meaning-IsRdfTriple os n h.1.0 in
      let (qs, us) = predicates_meaning-IsRdfTriple ps (objects_meaning os n).2 h.2 in
      (
        All-append IsPair (with_verb v (objects_meaning os n).0) _
            (with_verb-IsPair v _ (iri-is_uri_ref v h.0) es) qs,
        All-append IsRdfTriple (objects_meaning os n).1 _ ts us,
      )

subject-is_resource :
    (o : Object false) (n : ℕ)
    → IsSubject o
    → (is_resource (object_meaning o n).0 ≡ true) × All IsRdfTriple (object_meaning o n).1
unfolding IsSubject is_resource object_meaning represent bnode
subject-is_resource (term e) n (inl h) = (rw (iri-is_uri_ref e h) refl, tt)
subject-is_resource (term e) n (inr (l, h, g)) = (rw (← h) refl, tt)
subject-is_resource anon n h = (anon-is_resource n, tt)
subject-is_resource (collection os) n h =
    let (es, ts) = objects_meaning-IsRdfTriple os n h in
    let (r, us) = cells-IsRdfTriple (objects_meaning os n).0 (objects_meaning os n).2 es in
    (r, All-append IsRdfTriple (objects_meaning os n).1 _ ts us)
subject-is_resource (property_list ps) n h = absurd h

list-is_resource :
    (ps : PredicateObjects false) (n : ℕ)
    → IsPrintableList ps
    → (is_resource (object_meaning (property_list ps) n).0 ≡ true)
      × All IsRdfTriple (object_meaning (property_list ps) n).1
unfolding object_meaning
list-is_resource ps n h =
    let (pairs, ts) = predicates_meaning-IsRdfTriple ps n h in
    let r = fresh-is_resource (predicates_meaning ps n).2 in
    (
      r,
      All-append IsRdfTriple (predicates_meaning ps n).1 _ ts
          (with_subject-IsRdfTriple _ (predicates_meaning ps n).0 r pairs),
    )

triples_meaning-IsRdfTriple :
    (x : Triples false) (n : ℕ) → IsPrintableTriples x → All IsRdfTriple (triples_meaning x n).0
unfolding triples_meaning IsPrintableTriples
triples_meaning-IsRdfTriple (subject_first o ps) n (h, g) =
    let (r, ts) = subject-is_resource o n h in
    let (pairs, us) = predicates_meaning-IsRdfTriple ps (object_meaning o n).2 g in
    All-append IsRdfTriple (object_meaning o n).1 _ ts (
      All-append IsRdfTriple (predicates_meaning ps (object_meaning o n).2).1 _ us
        (with_subject-IsRdfTriple _ (predicates_meaning ps (object_meaning o n).2).0 r pairs))
triples_meaning-IsRdfTriple (list_alone bs) n h = (list-is_resource bs n h).1
triples_meaning-IsRdfTriple (list_first bs ps) n (h, g) =
    let (r, ts) = list-is_resource bs n h in
    let m = (object_meaning (property_list bs) n).2 in
    let (pairs, us) = predicates_meaning-IsRdfTriple ps m g in
    All-append IsRdfTriple (object_meaning (property_list bs) n).1 _ ts (
      All-append IsRdfTriple (predicates_meaning ps m).1 _ us
        (with_subject-IsRdfTriple _ (predicates_meaning ps m).0 r pairs))

statements_meaning-IsRdfTriple :
    (xs : List (Triples false)) (n : ℕ)
    → IsPrintableDocument xs
    → All IsRdfTriple (all_of (statements_meaning xs n))
unfolding statements_meaning IsPrintableDocument
statements_meaning-IsRdfTriple [] n h = tt
statements_meaning-IsRdfTriple (x ∷ xs) n (h, g) =
    All-append IsRdfTriple (triples_meaning x n).0 _ (triples_meaning-IsRdfTriple x n h)
      (statements_meaning-IsRdfTriple xs (triples_meaning x n).1 g)

module _ (leaf : Rule Name → Text → Option Text) (b : Leaves leaf) (w : IsByteWise leaf) where
  -- For every printable document of triples that is not empty, in which every verb has at most one
  -- property list among its objects. Printable is: its terms are IRIs without an escape; blank nodes
  -- whose label has only single-byte label characters and no dot; and literals in double quotes
  -- without an escape, plain, with a data type, or with a language of ASCII letters alone. Its verbs
  -- are IRIs with an object, and its subjects are IRIs, blank nodes, collections or property lists.
  -- The constructor succeeds on the text that the document is printed as, and every triple that is
  -- then in its queue has an IRI or a blank node as its subject, an IRI as its predicate, and an IRI, a
  -- blank node or a literal as its object.
  pub printed_kinds :
      (x : Triples false) (xs : List (Triples false))
      → IsPrintableDocument (x ∷ xs)
      → OneListEachStatements (x ∷ xs)
      → (p : BaseStringParser false) × (construct
            (parse_grammar leaf b false)
            (show_document (x ∷ xs))
          ≡ ok p)
        × All IsRdfTriple p.parsed_terms
  unfolding construct initial_state
  printed_kinds x xs h o = (
    record {
      parsed_terms = all_of (statements_meaning (x ∷ xs) 1);
      current_triple = default_triple false;
    },
    parsed_document (parse_grammar leaf b false) (show_document (x ∷ xs)) (x ∷ xs)
        (initial_state []) (document-Applies leaf b w x xs (initial_state []) h initial-Like) o refl
        (initial-IsIdle []) refl,
    statements_meaning-IsRdfTriple (x ∷ xs) 1 h,
  )
