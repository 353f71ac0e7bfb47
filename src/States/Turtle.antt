-- ===== src/States/Turtle.antt =====
-- What Turtle says of a document's triples, with its collections, beside what State.hpp makes of them.
pub mod Agree
pub mod Runs
use rdf_parser.Base.{
  ℕ, ◌≡◌, ◌≢◌, refl, sym, ap, ◌∙◌, Bool, List, [], ◌∷◌, ◌++◌, some, Text, codes, length, arith,
  true, false,
}
use rdf_parser.Rdf.Term.{Term, uri_ref, bnode, is_bnode}
use rdf_parser.Rdf.Triple.{triple}
use rdf_parser.Sparql.TriplePattern.{VarOrTerm}
use rdf_parser.States.Element.{Element, TripleOf, of_term, blank_element}
use rdf_parser.States.Basic.{next_int}
use rdf_parser.States.Machine.{
  Derived, State, first, rest, nil, with_subject, with_verb, initial_state,
}
use rdf_parser.States.Machine.Effects.{insert_all}
use rdf_parser.States.Machine.Syntax.{
  Object, term, anon, collection, property_list, Objects, end, more_objects, PredicateObjects, last,
  more, Triples, subject_first, list_alone, list_first, fresh, fresh_label, listed_as, chain, cells,
  object_meaning, objects_meaning, predicates_meaning, triples_meaning, events_object,
  events_triples,
}
use rdf_parser.States.Machine.Events.{run}
use rdf_parser.States.Machine.Nesting.{OneListEachTriples}
use rdf_parser.States.Machine.Correct.{IsIdle, triples_run}
use rdf_parser.States.Sequential.{Queue, sequential, document_run}
use rdf_parser.States.Documents.{events_document, statements_meaning, all_of, OneListEachStatements}

-- A document that has a collection has none that is empty, and P holds.
unfoldable mutual
  pub Lists : {q : Bool} → Type 0 → Object q → Type 0
  Lists P (term e) = Unit
  Lists P anon = Unit
  Lists P (collection end) = ⊥
  Lists P (collection (more_objects o os)) = P × Lists P o × ListsAll P os
  Lists P (property_list ps) = ListsVerbs P ps

  pub ListsAll : {q : Bool} → Type 0 → Objects q → Type 0
  ListsAll P end = Unit
  ListsAll P (more_objects o os) = Lists P o × ListsAll P os

  pub ListsVerbs : {q : Bool} → Type 0 → PredicateObjects q → Type 0
  ListsVerbs P (last v os) = ListsAll P os
  ListsVerbs P (more v os ps) = ListsAll P os × ListsVerbs P ps

unfoldable pub ListsTriples : {q : Bool} → Type 0 → Triples q → Type 0
unfolding Lists ListsVerbs
ListsTriples P (subject_first o ps) = Lists P o × ListsVerbs P ps
ListsTriples P (list_alone bs) = ListsVerbs P bs
ListsTriples P (list_first bs ps) = ListsVerbs P bs × ListsVerbs P ps

unfoldable pub ListsDocument : {q : Bool} → Type 0 → List (Triples q) → Type 0
unfolding ListsTriples
ListsDocument P [] = Unit
ListsDocument P (x ∷ xs) = ListsTriples P x × ListsDocument P xs

-- The IRIs of lists in Turtle.
abbrev pub turtle_word : Text → Term
turtle_word w = uri_ref (codes "http://www.w3.org/1999/02/22-rdf-syntax-ns#" ++ w)

module _ (word : Text → Term) where
  -- Section 2.8 of Turtle: the empty collection is nil, another is a node with its first and its rest.
  unfoldable pub turtle_list : (q : Bool) → List (Element q) → ℕ → Element q × List (TripleOf q) × ℕ
  turtle_list q [] n = (of_term q (word (codes "nil")), [], n)
  turtle_list q (e ∷ es) n =
      let (tail, ts, m) = turtle_list q es n in
      (
        fresh q m,
        ts
            ++ triple (fresh q m) (of_term q (word (codes "rest"))) tail
              ∷ triple (fresh q m) (of_term q (word (codes "first"))) e
              ∷ [],
        next_int m,
      )

  unfoldable mutual
    unfolding turtle_list

    pub turtle_object : {q : Bool} → Object q → ℕ → Element q × List (TripleOf q) × ℕ
    turtle_object (term e) n = (e, [], n)
    turtle_object {q} anon n = (blank_element q (fresh_label n), [], next_int n)
    turtle_object {q} (collection os) n =
        let (es, ts, m) = turtle_objects os n in
        let (node, us, l) = turtle_list q es m in (node, ts ++ us, l)
    turtle_object {q} (property_list ps) n =
        let (pairs, ts, m) = turtle_predicates ps n in
        (fresh q m, ts ++ with_subject (fresh q m) pairs, next_int m)

    pub turtle_objects : {q : Bool} → Objects q → ℕ → List (Element q) × List (TripleOf q) × ℕ
    turtle_objects end n = ([], [], n)
    turtle_objects (more_objects o os) n =
        let (e, ts, m) = turtle_object o n in
        let (es, us, l) = turtle_objects os m in (e ∷ es, ts ++ us, l)

    pub turtle_predicates :
        {q : Bool} → PredicateObjects q → ℕ → List (Element q × Element q) × List (TripleOf q) × ℕ
    turtle_predicates (last v os) n =
        let (es, ts, m) = turtle_objects os n in (with_verb v es, ts, m)
    turtle_predicates (more v os ps) n =
        let (es, ts, m) = turtle_objects os n in
        let (pairs, us, l) = turtle_predicates ps m in (with_verb v es ++ pairs, ts ++ us, l)

  unfoldable pub turtle_triples : {q : Bool} → Triples q → ℕ → List (TripleOf q) × ℕ
  unfolding turtle_object turtle_predicates
  turtle_triples (subject_first o ps) n =
      let (e, ts, m) = turtle_object o n in
      let (pairs, us, l) = turtle_predicates ps m in (ts ++ (us ++ with_subject e pairs), l)
  turtle_triples (list_alone bs) n = let (e, ts, m) = turtle_object (property_list bs) n in (ts, m)
  turtle_triples (list_first bs ps) n =
      let (e, ts, m) = turtle_object (property_list bs) n in
      let (pairs, us, l) = turtle_predicates ps m in (ts ++ (us ++ with_subject e pairs), l)

  unfoldable pub turtle_statements : {q : Bool} → List (Triples q) → ℕ → List (List (TripleOf q))
  unfolding turtle_triples
  turtle_statements [] n = []
  turtle_statements (x ∷ xs) n = let (ts, m) = turtle_triples x n in ts ∷ turtle_statements xs m
