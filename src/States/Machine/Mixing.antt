-- ===== src/States/Machine/Mixing.antt =====
-- State.hpp, processVerb: a document with a second property list among the objects of one verb.
use rdf_parser.Base.{◌≡◌, refl, Bool, List, [], ◌∷◌, some}
use rdf_parser.Rdf.Triple.{triple}
use rdf_parser.States.Element.{Element, TripleOf}
use rdf_parser.States.Basic.{next_int}
use rdf_parser.States.Machine.{Derived, State, initial_state, process_verb}
use rdf_parser.States.Machine.Events.{run}
use rdf_parser.States.Machine.Syntax.{
  term, property_list, end, more_objects, last, more, Triples, subject_first, events_triples, fresh,
  triples_meaning,
}
use rdf_parser.States.Machine.Effects.{insert_all}

-- a p b ; r [ c d ] , [ e f ]
module _ (q : Bool) (a p b r c d e f : Element q) where
  abbrev pub two_lists : Triples q
  two_lists = subject_first (term a) (
      more p (more_objects (term b) end) (
        last r (
          more_objects (property_list (last c (more_objects (term d) end)))
            (more_objects (property_list (last e (more_objects (term f) end))) end))))

  -- What the code makes of it: the pair of the first verb goes to the second node.
  abbrev pub two_lists_read : List (TripleOf q)
  two_lists_read =
      triple (fresh q 1) c d
      ∷ triple (fresh q 2) p b
      ∷ triple (fresh q 2) e f
      ∷ triple a r (fresh q 1)
      ∷ triple a r (fresh q 2)
      ∷ []

  -- What it stands for.
  abbrev pub two_lists_meant : List (TripleOf q)
  two_lists_meant =
      triple (fresh q 1) c d
      ∷ triple (fresh q 2) e f
      ∷ triple a p b
      ∷ triple a r (fresh q 1)
      ∷ triple a r (fresh q 2)
      ∷ []

  -- For all terms, the document `a p b ; r [ c d ] , [ e f ]` means, with the fresh nodes x and y, the
  -- triples x c d, y e f, a p b, a r x and a r y. Read from the initial state, it inserts x c d,
  -- y p b, y e f, a r x and a r y: the verb p and the object b have the subject y in place of a, and
  -- the other four triples are right.
  pub two_lists_mixed :
      {D : Type 0} (k : Derived q D) (start : D)
      → (u : State q D) × (run k (events_triples two_lists) (initial_state start) ≡ some u)
        × (u.derived ≡ insert_all k two_lists_read start)
        × ((triples_meaning two_lists 1).0 ≡ two_lists_meant)
  unfolding run events_triples initial_state process_verb triples_meaning next_int
  two_lists_mixed k start = (_, refl, refl, refl)
