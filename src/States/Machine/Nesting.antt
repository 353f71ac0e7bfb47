-- ===== src/States/Machine/Nesting.antt =====
-- How many property lists a verb has among its objects, for the bookkeeping of processVerb in
-- State.hpp.
use rdf_parser.Base.{ℕ, ◌+◌, ◌≤◌, Bool}
use rdf_parser.States.Machine.Syntax.{
  Object, term, anon, collection, property_list, Objects, end, more_objects, PredicateObjects, last,
  more, Triples, subject_first, list_alone, list_first,
}

-- The property lists that stand directly under the verb of an object, inside collections too.
unfoldable mutual
  pub lists_of_object : {q : Bool} → Object q → ℕ
  lists_of_object (term e) = 0
  lists_of_object anon = 0
  lists_of_object (collection os) = lists_of_objects os
  lists_of_object (property_list ps) = 1

  pub lists_of_objects : {q : Bool} → Objects q → ℕ
  lists_of_objects end = 0
  lists_of_objects (more_objects o os) = lists_of_object o + lists_of_objects os

-- Every verb has at most one of them among its objects.
unfoldable mutual
  unfolding lists_of_objects

  pub OneListEachObject : {q : Bool} → Object q → Type 0
  OneListEachObject (term e) = Unit
  OneListEachObject anon = Unit
  OneListEachObject (collection os) = OneListEachObjects os
  OneListEachObject (property_list ps) = OneListEach ps

  pub OneListEachObjects : {q : Bool} → Objects q → Type 0
  OneListEachObjects end = Unit
  OneListEachObjects (more_objects o os) = OneListEachObject o × OneListEachObjects os

  pub OneListEach : {q : Bool} → PredicateObjects q → Type 0
  OneListEach (last v os) = (lists_of_objects os ≤ 1) × OneListEachObjects os
  OneListEach (more v os ps) = (lists_of_objects os ≤ 1) × OneListEachObjects os × OneListEach ps

unfoldable pub OneListEachTriples : {q : Bool} → Triples q → Type 0
unfolding OneListEachObject OneListEach
OneListEachTriples (subject_first o ps) = OneListEachObject o × OneListEach ps
OneListEachTriples (list_alone bs) = OneListEach bs
OneListEachTriples (list_first bs ps) = OneListEach bs × OneListEach ps
