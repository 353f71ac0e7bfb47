-- ===== src/States/Machine/Syntax.antt =====
-- Grammar.hpp, from `triple` down: what a document says between two dots, as a syntax tree, the
-- events that its parse causes, and, with no machine in it, the triples that this program
-- means by it; States.Turtle has what Turtle says.
use rdf_parser.Base.{ℕ, Bool, List, [], ◌∷◌, ◌++◌, Text, codes}
use rdf_parser.Rdf.Term.{Term, bnode, uri_ref}
use rdf_parser.Rdf.Triple.{triple}
use rdf_parser.States.Element.{Element, TripleOf, of_term, blank_element}
use rdf_parser.States.Basic.{print_int, next_int}
use rdf_parser.States.Machine.{with_subject, with_verb}
use rdf_parser.States.Machine.Events.{Event}

-- What the grammar builds out of terms: `object`, `objectList` and the objects of a collection,
-- `predicateObjectList`, and the two forms of `triple`.
mutual
  pub data Object (q : Bool) : Type 0 where
    term : Element q → Object q
    anon : Object q
    collection : Objects q → Object q
    property_list : PredicateObjects q → Object q

  pub data Objects (q : Bool) : Type 0 where
    end : Objects q
    more_objects : Object q → Objects q → Objects q

  pub data PredicateObjects (q : Bool) : Type 0 where
    last : Element q → Objects q → PredicateObjects q
    more : Element q → Objects q → PredicateObjects q → PredicateObjects q

-- The subject of the first form, and the two forms.
pub data Triples (q : Bool) : Type 0 where
  subject_first : Object q → PredicateObjects q → Triples q
  list_alone : PredicateObjects q → Triples q
  list_first : PredicateObjects q → PredicateObjects q → Triples q

-- The events.
unfoldable mutual
  pub events_object : {q : Bool} → Object q → List (Event q)
  events_object (term e) = Event.leaf e ∷ []
  events_object anon = Event.anon ∷ []
  events_object (collection os) =
      Event.collection_begin ∷ (events_objects os ++ Event.collection ∷ [])
  events_object (property_list ps) =
      Event.property_list_begin ∷ (events_predicates ps ++ Event.property_list ∷ [])

  pub events_objects : {q : Bool} → Objects q → List (Event q)
  events_objects end = []
  events_objects (more_objects o os) = events_object o ++ (Event.object ∷ events_objects os)

  pub events_predicates : {q : Bool} → PredicateObjects q → List (Event q)
  events_predicates (last v os) =
      Event.leaf v ∷ Event.verb ∷ (events_objects os ++ Event.inner ∷ [])
  events_predicates (more v os ps) =
      (Event.leaf v ∷ Event.verb ∷ (events_objects os ++ Event.inner ∷ [])) ++ events_predicates ps

unfoldable pub events_triples : {q : Bool} → Triples q → List (Event q)
unfolding events_object events_objects events_predicates
events_triples (subject_first o ps) =
    (events_object o ++ Event.subject ∷ [])
    ++ (events_predicates ps ++ Event.triple_seq1 ∷ Event.triple ∷ [])
events_triples (list_alone bs) =
    events_object (property_list bs) ++ Event.triple_seq2 ∷ Event.triple ∷ []
events_triples (list_first bs ps) =
    events_object (property_list bs)
    ++ (events_predicates ps ++ Event.triple_seq2 ∷ Event.triple ∷ [])

-- The n-th fresh node.
abbrev pub fresh_label : ℕ → Text
fresh_label n = b'b' ∷ print_int n

abbrev pub fresh : (q : Bool) → ℕ → Element q
fresh q n = of_term q (bnode (fresh_label n))

-- The words of lists as this program writes them: the IRIs rdf:first, rdf:rest and rdf:nil, which are
-- not those of Turtle.
abbrev pub listed_as : Text → Term
listed_as word = uri_ref (codes "rdf:" ++ word)

-- The cells of a collection that is not empty: the node that stands for the list, its triples, and
-- the first label that is still free. Each object has a cell whose rest is the list behind it.
unfoldable pub chain : (q : Bool) → List (Element q) → ℕ → Element q × List (TripleOf q) × ℕ
chain q [] n = (of_term q (listed_as (codes "nil")), [], n)
chain q (e ∷ es) n =
    let (tail, ts, m) = chain q es n in
    (
      fresh q m,
      ts
          ++ triple (fresh q m) (of_term q (listed_as (codes "rest"))) tail
            ∷ triple (fresh q m) (of_term q (listed_as (codes "first"))) e
            ∷ [],
      next_int m,
    )

-- A collection; an empty one is a cell whose first is nil, and not nil as in Turtle.
unfoldable pub cells : (q : Bool) → List (Element q) → ℕ → Element q × List (TripleOf q) × ℕ
unfolding chain
cells q [] n = (
  fresh q n,
  triple (fresh q n) (of_term q (listed_as (codes "first"))) (of_term q (listed_as (codes "nil")))
      ∷ [],
  next_int n,
)
cells q (e ∷ es) n = chain q (e ∷ es) n

-- The meaning, from the first free label: what an object is, and the triples and labels it takes.
unfoldable mutual
  unfolding cells

  pub object_meaning : {q : Bool} → Object q → ℕ → Element q × List (TripleOf q) × ℕ
  object_meaning (term e) n = (e, [], n)
  object_meaning {q} anon n = (blank_element q (fresh_label n), [], next_int n)
  object_meaning {q} (collection os) n =
      let (es, ts, m) = objects_meaning os n in
      let (node, us, l) = cells q es m in (node, ts ++ us, l)
  object_meaning {q} (property_list ps) n =
      let (pairs, ts, m) = predicates_meaning ps n in
      (fresh q m, ts ++ with_subject (fresh q m) pairs, next_int m)

  pub objects_meaning : {q : Bool} → Objects q → ℕ → List (Element q) × List (TripleOf q) × ℕ
  objects_meaning end n = ([], [], n)
  objects_meaning (more_objects o os) n =
      let (e, ts, m) = object_meaning o n in
      let (es, us, l) = objects_meaning os m in (e ∷ es, ts ++ us, l)

  pub predicates_meaning :
      {q : Bool} → PredicateObjects q → ℕ → List (Element q × Element q) × List (TripleOf q) × ℕ
  predicates_meaning (last v os) n =
      let (es, ts, m) = objects_meaning os n in (with_verb v es, ts, m)
  predicates_meaning (more v os ps) n =
      let (es, ts, m) = objects_meaning os n in
      let (pairs, us, l) = predicates_meaning ps m in (with_verb v es ++ pairs, ts ++ us, l)

-- What a document's triples come to.
unfoldable pub triples_meaning : {q : Bool} → Triples q → ℕ → List (TripleOf q) × ℕ
unfolding object_meaning predicates_meaning with_subject
triples_meaning (subject_first o ps) n =
    let (e, ts, m) = object_meaning o n in
    let (pairs, us, l) = predicates_meaning ps m in (ts ++ (us ++ with_subject e pairs), l)
triples_meaning (list_alone bs) n = let (e, ts, m) = object_meaning (property_list bs) n in (ts, m)
triples_meaning (list_first bs ps) n =
    let (e, ts, m) = object_meaning (property_list bs) n in
    let (pairs, us, l) = predicates_meaning ps m in (ts ++ (us ++ with_subject e pairs), l)
