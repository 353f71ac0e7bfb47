-- ===== src/States/Turtle/Runs.antt =====
-- State.hpp with SequentialState.hpp: the events of documents, and what Turtle says of their triples.
use rdf_parser.Base.{
  ◌≡◌, ◌≢◌, refl, ap, Bool, [], ◌∷◌, some, Text, codes, length, arith, true, false,
}
use rdf_parser.Rdf.Term.{Term, uri_ref, bnode, is_bnode}
use rdf_parser.Rdf.Triple.{triple}
use rdf_parser.Sparql.TriplePattern.{VarOrTerm}
use rdf_parser.States.Element.{Element, of_term}
use rdf_parser.States.Machine.{Derived, State, first, rest, nil}
use rdf_parser.States.Machine.Effects.{insert_all}
use rdf_parser.States.Machine.Syntax.{collection, end, fresh, events_object}
use rdf_parser.States.Machine.Events.{run}
use rdf_parser.States.Turtle.{turtle_word}

unfoldable is_bnode_element : (q : Bool) → Element q → Bool
is_bnode_element false e = is_bnode e
is_bnode_element true (VarOrTerm.var v) = false
is_bnode_element true (VarOrTerm.term e) = is_bnode e

bnode-ne-uri_ref : (q : Bool) (l u : Text) → of_term q (bnode l) ≢ of_term q (uri_ref u)
unfolding of_term bnode uri_ref is_bnode is_bnode_element
bnode-ne-uri_ref false l u h = let p : true ≡ false = ap (is_bnode_element false) h in cc
bnode-ne-uri_ref true l u h = let p : true ≡ false = ap (is_bnode_element true) h in cc

-- IRIs of other lengths are others.
uri_ref-ne : (u v : Text) → length u ≢ length v → uri_ref u ≢ uri_ref v
unfolding uri_ref
uri_ref-ne u v d h = d (ap (λ e. e.value_view.count) h)

-- In every state, an empty collection leaves a fresh blank node as the element, which is not Turtle's
-- rdf:nil, and inserts one triple, with the node, rdf:first and rdf:nil; and the IRIs of this program
-- for first, rest and nil are none of Turtle's.
pub empty_collection :
    {q : Bool} {D : Type 0} (k : Derived q D) (s : State q D)
    → (u : State q D) × (run k (events_object (collection end)) s ≡ some u)
      × (u.basic.element ≡ fresh q s.basic.latest_bn_label)
      × (u.basic.element ≢ of_term q (turtle_word (codes "nil")))
      × (u.derived
          ≡ insert_all k
              (triple u.basic.element
                  (of_term q (uri_ref (codes "rdf:first")))
                  (of_term q (uri_ref (codes "rdf:nil")))
                ∷ [])
              s.derived)
      × (first ≢ turtle_word (codes "first"))
      × (rest ≢ turtle_word (codes "rest"))
      × (nil ≢ turtle_word (codes "nil"))
unfolding run events_object
empty_collection {q} k s = (
  _,
  refl,
  refl,
  bnode-ne-uri_ref q _ _,
  refl,
  uri_ref-ne _ _ (λ h. omega (arith, h)),
  uri_ref-ne _ _ (λ h. omega (arith, h)),
  uri_ref-ne _ _ (λ h. omega (arith, h)),
)
