-- ===== src/States/Machine/Cells.antt =====
-- State.hpp, processCollection: its loop from the last object to the first builds the cells of the
-- list that Syntax describes from the first object on.
use mathlib.Core.List.{reverse-cons, concat-ne-nil}
use rdf_parser.Base.{
  ℕ, ◌≡◌, ◌≢◌, refl, Bool, true, false, List, [], ◌∷◌, ◌++◌, reverse, append_assoc,
}
use rdf_parser.Rdf.Triple.{triple, subject, set_subject, set_predicate, set_object}
use rdf_parser.States.Element.{Element, TripleOf}
use rdf_parser.States.Basic.{create_blank_node_label}
use rdf_parser.States.Machine.{
  Derived, State, new_unlabeled_node, last_subject, collection_loop, collection_triples,
}
use rdf_parser.States.Machine.Syntax.{chain, cells}

module _ {q : Bool} {D : Type 0} (k : Derived q D) where
  abbrev loop_from :
      List (Element q) → Bool → List (TripleOf q) × State q D → List (TripleOf q) × State q D
  loop_from es flag (local, s) = collection_loop k es flag local s

  loop-append_false :
      (xs ys : List (Element q)) (local : List (TripleOf q)) (s : State q D)
      → collection_loop k (xs ++ ys) false local s
        ≡ loop_from ys false (collection_loop k xs false local s)
  unfolding collection_loop
  loop-append_false [] ys local s = refl
  loop-append_false (x ∷ xs) ys local s = loop-append_false xs ys _ _

  -- Behind the first object the flag is false.
  loop-append :
      (xs ys : List (Element q)) (local : List (TripleOf q)) (s : State q D)
      → xs ≢ []
      → collection_loop k (xs ++ ys) true local s
        ≡ loop_from ys false (collection_loop k xs true local s)
  unfolding collection_loop
  loop-append [] ys local s h = absurd (h refl)
  loop-append (x ∷ xs) ys local s h = loop-append_false xs ys _ _

  last_subject-append :
      (ts : List (TripleOf q)) (t u : TripleOf q) → last_subject k (ts ++ t ∷ u ∷ []) ≡ subject u
  unfolding last_subject
  last_subject-append [] t u = refl
  last_subject-append (v ∷ []) t u = refl
  last_subject-append (v ∷ w ∷ ts) t u = last_subject-append (w ∷ ts) t u

  -- The label and the element that the cells leave.
  abbrev pub with_cells : Element q × List (TripleOf q) × ℕ → State q D → State q D
  with_cells (node, ts, n) s = record s {
    basic = record (s.basic) { element = node; latest_bn_label = n };
  }

  reverse-ne-nil : (e : Element q) (es : List (Element q)) → reverse (e ∷ es) ≢ []
  reverse-ne-nil e es = rw reverse-cons (concat-ne-nil e (reverse es))

  loop_lem :
      (e : Element q) (es : List (Element q)) (s : State q D)
      → collection_loop k (reverse (e ∷ es)) true [] s ≡ (
        (chain q (e ∷ es) s.basic.latest_bn_label).1,
        with_cells (chain q (e ∷ es) s.basic.latest_bn_label) s,
      )
  unfolding collection_loop chain new_unlabeled_node create_blank_node_label set_subject
      set_predicate set_object triple subject
  loop_lem e [] s = refl
  loop_lem e (f ∷ es) s =
      rw
        (
          reverse-cons e (f ∷ es),
          loop-append (reverse (f ∷ es)) (e ∷ []) [] s (reverse-ne-nil f es),
          loop_lem f es s,
        )
        (simp (last_subject-append, append_assoc))

  -- The triples of a collection, and the state that making them leaves.
  pub collection_triples_lem :
      (es : List (Element q)) (s : State q D)
      → collection_triples k es s ≡ (
        (cells q es s.basic.latest_bn_label).1,
        with_cells (cells q es s.basic.latest_bn_label) s,
      )
  unfolding collection_triples cells new_unlabeled_node create_blank_node_label triple
  collection_triples_lem [] s = refl
  collection_triples_lem (e ∷ es) s = loop_lem e es s
