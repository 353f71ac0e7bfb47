-- ===== src/Printed/Nodes.antt =====
-- Rdf/Term.hpp and State.hpp: what RDF asks of the terms of a triple, and the kinds of the terms in
-- the triples that State.hpp makes of lists.
use rdf_parser.Base.{ℕ, ◌≡◌, refl, Bool, true, false, ◌||◌, List, [], ◌∷◌, All, All-append, arith}
use rdf_parser.Rdf.Term.{Term, is_uri_ref, is_bnode, is_literal, uri_ref, bnode, literal}
use rdf_parser.Rdf.Triple.{Triple, triple, subject, predicate, object}
use rdf_parser.Rdf.Term.Equality.{plain, language, typed, RdfTerm, iri, blank, lit, represent}
use rdf_parser.States.Element.{of_term, blank_element}
use rdf_parser.States.Machine.{with_subject, with_verb}
use rdf_parser.States.Machine.Syntax.{anon, fresh, chain, cells, object_meaning}
use rdf_parser.Printed.Syntax.{IsIri}

-- What RDF asks of a triple: the subject is an IRI or a blank node, the predicate an IRI, and the
-- object one of these or a literal.
unfoldable pub is_resource : Term → Bool
unfolding is_uri_ref is_bnode
is_resource e = is_uri_ref e || is_bnode e

unfoldable pub is_node : Term → Bool
unfolding is_resource is_literal
is_node e = is_resource e || is_literal e

abbrev pub IsRdfTriple : Triple → Type 0
IsRdfTriple t =
    (is_resource (subject t) ≡ true)
    × (is_uri_ref (predicate t) ≡ true)
    × (is_node (object t) ≡ true)

abbrev pub IsNode : Term → Type 0
IsNode e = is_node e ≡ true

abbrev pub IsPair : Term × Term → Type 0
IsPair (v, e) = (is_uri_ref v ≡ true) × (is_node e ≡ true)

pub resource-IsNode : (e : Term) → is_resource e ≡ true → IsNode e
unfolding is_node
resource-IsNode e h = rw h refl

pub represent-IsNode : (a : RdfTerm) → IsNode (represent a)
unfolding is_node represent uri_ref bnode literal
represent-IsNode (iri u) = refl
represent-IsNode (blank b) = refl
represent-IsNode (lit v plain) = refl
represent-IsNode (lit v (language l)) = refl
represent-IsNode (lit v (typed t)) = ground arith

pub iri-is_uri_ref : (e : Term) → IsIri e → is_uri_ref e ≡ true
unfolding uri_ref is_uri_ref
iri-is_uri_ref e (u, h, g) = rw (← h) refl

pub with_verb-IsPair :
    (v : Term) (es : List Term) → is_uri_ref v ≡ true → All IsNode es → All IsPair (with_verb v es)
unfolding with_verb
with_verb-IsPair v [] h g = tt
with_verb-IsPair v (e ∷ es) h g = ((h, g.0), with_verb-IsPair v es h g.1)

pub with_subject-IsRdfTriple :
    (e : Term) (ps : List (Term × Term))
    → is_resource e ≡ true
    → All IsPair ps
    → All IsRdfTriple (with_subject e ps)
unfolding with_subject triple subject predicate object
with_subject-IsRdfTriple e [] h g = tt
with_subject-IsRdfTriple e ((v, x) ∷ ps) h g =
    ((h, g.0.0, g.0.1), with_subject-IsRdfTriple e ps h g.1)

chain-IsRdfTriple :
    (es : List Term) (n : ℕ)
    → All IsNode es
    → (is_resource (chain false es n).0 ≡ true) × All IsRdfTriple (chain false es n).1
unfolding chain of_term triple subject predicate object is_resource is_node uri_ref bnode
chain-IsRdfTriple [] n h = (refl, tt)
chain-IsRdfTriple (e ∷ es) n h =
    let (r, ts) = chain-IsRdfTriple es n h.1 in
    (
      refl,
      All-append IsRdfTriple (chain false es n).1 _ ts
          ((refl, refl, resource-IsNode (chain false es n).0 r), ((refl, refl, h.0), tt)),
    )

pub cells-IsRdfTriple :
    (es : List Term) (n : ℕ)
    → All IsNode es
    → (is_resource (cells false es n).0 ≡ true) × All IsRdfTriple (cells false es n).1
unfolding cells of_term triple subject predicate object is_resource is_node uri_ref bnode
cells-IsRdfTriple [] n h = (refl, ((refl, refl, refl), tt))
cells-IsRdfTriple (e ∷ es) n h = chain-IsRdfTriple (e ∷ es) n h

pub fresh-is_resource : (n : ℕ) → is_resource (fresh false n) ≡ true
unfolding of_term is_resource bnode
fresh-is_resource n = refl

pub anon-is_resource : (n : ℕ) → is_resource (object_meaning {q = false} anon n).0 ≡ true
unfolding object_meaning blank_element of_term is_resource bnode
anon-is_resource n = refl

pub anon-IsNode : (n : ℕ) → IsNode (object_meaning {q = false} anon n).0
anon-IsNode n = resource-IsNode (object_meaning {q = false} anon n).0 (anon-is_resource n)
