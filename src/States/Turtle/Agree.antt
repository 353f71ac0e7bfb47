-- ===== src/States/Turtle/Agree.antt =====
-- State.hpp: for which documents the triples that this program makes are those of Turtle.
use rdf_parser.Base.{ℕ, ◌≡◌, refl, sym, ap, ◌∙◌, Bool, List, [], ◌∷◌, ◌++◌, Text}
use rdf_parser.Rdf.Term.{Term}
use rdf_parser.States.Element.{Element, TripleOf}
use rdf_parser.States.Machine.Syntax.{
  Object, term, anon, collection, property_list, Objects, end, more_objects, PredicateObjects, last,
  more, Triples, subject_first, list_alone, list_first, listed_as, chain, cells, object_meaning,
  objects_meaning, predicates_meaning, triples_meaning,
}
use rdf_parser.States.Documents.{statements_meaning}
use rdf_parser.States.Turtle.{
  Lists, ListsAll, ListsVerbs, ListsTriples, ListsDocument, turtle_list, turtle_object,
  turtle_objects, turtle_predicates, turtle_triples, turtle_statements,
}

chain_listed :
    (q : Bool) (es : List (Element q)) (n : ℕ) → chain q es n ≡ turtle_list listed_as q es n
unfolding chain turtle_list
chain_listed q [] n = refl
chain_listed q (e ∷ es) n = rw (chain_listed q es n) refl

module _ (word : Text → Term) (P : Type 0) (agree : P → word ≡ listed_as) where
  turtle_list_lem :
      P → (q : Bool) (es : List (Element q)) (n : ℕ) → chain q es n ≡ turtle_list word q es n
  turtle_list_lem p q es n = chain_listed q es n ∙ ap (λ w. turtle_list w q es n) (sym (agree p))

  -- A collection of these objects.
  abbrev turtle_node :
      (q : Bool) → List (Element q) × List (TripleOf q) × ℕ → Element q × List (TripleOf q) × ℕ
  turtle_node q (es, ts, m) = let (node, us, l) = turtle_list word q es m in (node, ts ++ us, l)

  mutual
    unfolding Lists ListsAll ListsVerbs object_meaning objects_meaning predicates_meaning cells
        turtle_object turtle_objects turtle_predicates

    turtle_object_lem :
        {q : Bool} (o : Object q) (n : ℕ) → Lists P o → object_meaning o n ≡ turtle_object word o n
    turtle_object_lem (term e) n h = refl
    turtle_object_lem anon n h = refl
    turtle_object_lem (collection end) n h = absurd h
    turtle_object_lem {q} (collection (more_objects o os)) n (p, h, h') =
        let r = objects_meaning (more_objects o os) n in
        ap (λ x. (x.0, r.1 ++ x.1, x.2)) (turtle_list_lem p q r.0 r.2)
        ∙ ap (turtle_node q) (turtle_objects_lem (more_objects o os) n (h, h'))
    turtle_object_lem (property_list ps) n h = rw (turtle_predicates_lem ps n h) refl

    turtle_objects_lem :
        {q : Bool} (os : Objects q) (n : ℕ)
        → ListsAll P os
        → objects_meaning os n ≡ turtle_objects word os n
    turtle_objects_lem end n h = refl
    turtle_objects_lem (more_objects o os) n h =
        rw (turtle_object_lem o n h.0, turtle_objects_lem os _ h.1) refl

    turtle_predicates_lem :
        {q : Bool} (ps : PredicateObjects q) (n : ℕ)
        → ListsVerbs P ps
        → predicates_meaning ps n ≡ turtle_predicates word ps n
    turtle_predicates_lem (last v os) n h = rw (turtle_objects_lem os n h) refl
    turtle_predicates_lem (more v os ps) n h =
        rw (turtle_objects_lem os n h.0, turtle_predicates_lem ps _ h.1) refl

  pub turtle_triples_lem :
      {q : Bool} (x : Triples q) (n : ℕ)
      → ListsTriples P x
      → triples_meaning x n ≡ turtle_triples word x n
  unfolding ListsTriples triples_meaning turtle_triples object_meaning turtle_object
  turtle_triples_lem (subject_first o ps) n h =
      rw (turtle_object_lem o n h.0, turtle_predicates_lem ps _ h.1) refl
  turtle_triples_lem (list_alone bs) n h = rw (turtle_predicates_lem bs n h) refl
  turtle_triples_lem (list_first bs ps) n h =
      rw (turtle_predicates_lem bs n h.0, turtle_predicates_lem ps _ h.1) refl

  pub turtle_statements_lem :
      {q : Bool} (xs : List (Triples q)) (n : ℕ)
      → ListsDocument P xs
      → statements_meaning xs n ≡ turtle_statements word xs n
  unfolding ListsDocument statements_meaning turtle_statements
  turtle_statements_lem [] n h = refl
  turtle_statements_lem (x ∷ xs) n h =
      rw (turtle_triples_lem x n h.0, turtle_statements_lem xs _ h.1) refl
