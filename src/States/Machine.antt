-- ===== src/States/Machine.antt =====
-- States/State.hpp: the class State, which turns the events of a parse into triples. `top()` of an
-- empty stack is undefined behaviour; an operation that calls it returns `none` there. The class
-- is generic in the state that derives from it: `Derived` is that state's own data, with the three
-- operations that State calls in it.
pub mod Events
pub mod Syntax
pub mod Cells
pub mod Nesting
pub mod Effects
pub mod Closed
pub mod Steps
pub mod Induction
pub mod Correct
pub mod Mixing
use rdf_parser.Base.{
  ℕ, zero, suc, ◌+◌, ◌≡◌, refl, Bool, true, false, List, [], ◌∷◌, ◌++◌, Option, none, some, reverse,
  ◌==◌, if◌then◌else◌, length, codes,
}
use rdf_parser.Rdf.Term.{Term, uri_ref, bnode}
use rdf_parser.Rdf.Triple.{AbstractTriple, triple, subject, set_subject, set_predicate, set_object}
use rdf_parser.States.Element.{Element, TripleOf, default_element, of_term}
use rdf_parser.States.Basic.{BasicState, initial_basic, create_blank_node_label}

-- What `Derived` implements.
pub record Derived (q : Bool) (D : Type 0) : Type 0 where
  pub sync_with_main_thread_impl : D → D
  pub insert_triple_impl : TripleOf q → D → D
  pub set_parsing_is_done_impl : D → D

pub record State (q : Bool) (D : Type 0) : Type 0 where
  pub basic : BasicState q
  pub verb_stack : List (Element q)
  pub verb_stack_one_step_pre_size : ℕ
  pub verb_stack_two_step_pre_size : ℕ
  pub subject_ : Element q
  pub bnpl_collection_list : List (Element q)
  pub bnpl_collection_list_stack : List (List (Element q))
  pub verb_object_pair_list : List (Element q × Element q)
  pub verb_object_pair_list_stack : List (List (Element q × Element q))
  pub first_bnpl : Element q
  pub derived : D

unfoldable pub initial_state : {q : Bool} {D : Type 0} → D → State q D
unfolding initial_basic default_element
initial_state {q} d = record {
  basic = initial_basic q;
  verb_stack = [];
  verb_stack_one_step_pre_size = 0;
  verb_stack_two_step_pre_size = 0;
  subject_ = default_element q;
  bnpl_collection_list = [];
  bnpl_collection_list_stack = [];
  verb_object_pair_list = [];
  verb_object_pair_list_stack = [];
  first_bnpl = default_element q;
  derived = d;
}

-- The terms that processCollection builds its cells of.
abbrev pub first : Term
first = uri_ref (codes "rdf:first")

abbrev pub rest : Term
rest = uri_ref (codes "rdf:rest")

abbrev pub nil : Term
nil = uri_ref (codes "rdf:nil")

-- The triples that processBlankNodePropertyList and processTripleSeq insert: one for each pair of a
-- verb and an object, with the same subject.
unfoldable pub with_subject {ℓ} : {A : Type ℓ} → A → List (A × A) → List (AbstractTriple A)
unfolding triple
with_subject e [] = []
with_subject e ((verb, object) ∷ pairs) = triple e verb object ∷ with_subject e pairs

-- The pairs that processPredicateObjectListInner appends.
unfoldable pub with_verb {ℓ} : {A : Type ℓ} → A → List A → List (A × A)
with_verb verb [] = []
with_verb verb (object ∷ objects) = (verb, object) ∷ with_verb verb objects

module _ {q : Bool} {D : Type 0} (k : Derived q D) where
  open k use {sync_with_main_thread_impl, insert_triple_impl, set_parsing_is_done_impl}

  abbrev pub Machine : Type 0
  Machine = State q D

  unfoldable pub sync_with_main_thread : Machine → Machine
  sync_with_main_thread s = record s { derived = sync_with_main_thread_impl s.derived }

  unfoldable pub insert_triple : TripleOf q → Machine → Machine
  insert_triple t s = record s { derived = insert_triple_impl t s.derived }

  unfoldable pub set_parsing_is_done : Machine → Machine
  set_parsing_is_done s = record s { derived = set_parsing_is_done_impl s.derived }

  abbrev pub set_machine_element : Element q → Machine → Machine
  set_machine_element e s = record s { basic = record (s.basic) { element = e } }

  -- `BNode unlabeledNode(this->createBlankNodeLabel())`, as an element, and the state after it.
  unfoldable pub new_unlabeled_node : Machine → Element q × Machine
  new_unlabeled_node s =
      let (label, b) = create_blank_node_label s.basic in
      (of_term q (bnode label), record s { basic = b })

  -- `for (auto triple : …) insertTriple(triple)`.
  unfoldable pub insert_triples : List (TripleOf q) → Machine → Machine
  unfolding insert_triple
  insert_triples [] s = s
  insert_triples (t ∷ ts) s = insert_triples ts (insert_triple t s)

  unfoldable pub clear_triple_parameters : Machine → Machine
  clear_triple_parameters s = record s {
    verb_stack_two_step_pre_size = 0;
    verb_stack_one_step_pre_size = 0;
    bnpl_collection_list = [];
    verb_object_pair_list = [];
  }

  unfoldable pub set_machine_subject : Element q → Machine → Machine
  set_machine_subject e s = record s { subject_ = e }

  unfoldable pub process_verb : Machine → Machine
  process_verb s =
      let two = s.verb_stack_one_step_pre_size in
      let one = length s.verb_stack in
      let pushed = record s {
        verb_stack_two_step_pre_size = two;
        verb_stack_one_step_pre_size = one;
        verb_stack = s.basic.element ∷ s.verb_stack;
      } in
      if length pushed.verb_stack == two + 2
      then record pushed {
        verb_object_pair_list_stack = s.verb_object_pair_list ∷ s.verb_object_pair_list_stack;
        verb_object_pair_list = [];
      }
      else pushed

  -- The subject of the last triple in `LocalParsedTerms`; the source reads it when there is one.
  unfoldable pub last_subject : List (TripleOf q) → Element q
  unfolding subject default_element
  last_subject [] = default_element q
  last_subject (t ∷ []) = subject t
  last_subject (t ∷ u ∷ ts) = last_subject (u ∷ ts)

  -- The loop of processCollection over the objects from the last to the first, with the flag
  -- `lastElement` and the local vector.
  unfoldable pub collection_loop :
      List (Element q) → Bool → List (TripleOf q) → Machine → List (TripleOf q) × Machine
  unfolding new_unlabeled_node set_subject set_predicate set_object triple last_subject
      default_element
  collection_loop [] last_element local s = (local, s)
  collection_loop (object ∷ objects) last_element local s =
      let (node, s') = new_unlabeled_node s in
      let triple1 =
        set_predicate (of_term q rest)
          (set_subject node (triple (default_element q) (default_element q) (default_element q))) in
      let triple2 = triple node (of_term q first) object in
      let closed =
        if last_element
        then set_object (of_term q nil) triple1
        else set_object (last_subject local) triple1 in
      collection_loop objects false ((local ++ closed ∷ []) ++ triple2 ∷ [])
        (set_machine_element node s')

  -- `LocalParsedTerms` and the state when it is full: the two branches of processCollection.
  unfoldable pub collection_triples : List (Element q) → Machine → List (TripleOf q) × Machine
  unfolding collection_loop new_unlabeled_node triple
  collection_triples [] s =
      let (node, s') = new_unlabeled_node s in
      (triple node (of_term q first) (of_term q nil) ∷ [], set_machine_element node s')
  collection_triples (object ∷ objects) s = collection_loop (reverse (object ∷ objects)) true [] s

  -- `bnpl_collection_list = bnpl_collection_list_stack.top()`, and `pop()`.
  unfoldable pub restore_list : List (List (Element q)) → Machine → Option Machine
  restore_list [] s = none
  restore_list (l ∷ ls) s =
      some (record s { bnpl_collection_list = l; bnpl_collection_list_stack = ls })

  unfoldable pub process_collection : Machine → Option Machine
  unfolding collection_triples insert_triples restore_list
  process_collection s =
      let (local, s') = collection_triples s.bnpl_collection_list s in
      let inserted = insert_triples local s' in
      restore_list inserted.bnpl_collection_list_stack inserted

  -- The pair list of the enclosing verb, or none: then the node is the subject of a triple.
  unfoldable pub restore_pairs : Element q → List (List (Element q × Element q)) → Machine → Machine
  restore_pairs node [] s = record s { first_bnpl = node }
  restore_pairs node (l ∷ ls) s = record s {
    verb_object_pair_list = l;
    verb_object_pair_list_stack = ls;
  }

  unfoldable pub process_blank_node_property_list : Machine → Option Machine
  unfolding new_unlabeled_node insert_triples with_subject restore_pairs restore_list
  process_blank_node_property_list s =
      let (node, s') = new_unlabeled_node s in
      let inserted =
        insert_triples (with_subject node s.verb_object_pair_list) (set_machine_element node s') in
      let cleared = record inserted { verb_object_pair_list = [] } in
      let restored = restore_pairs node cleared.verb_object_pair_list_stack cleared in
      restore_list restored.bnpl_collection_list_stack restored

  unfoldable pub pop_verb : List (Element q) → Machine → Option Machine
  unfolding with_verb
  pop_verb [] s = none
  pop_verb (verb ∷ verbs) s = some (record s {
    verb_stack = verbs;
    verb_object_pair_list = s.verb_object_pair_list ++ with_verb verb s.bnpl_collection_list;
    bnpl_collection_list = [];
  })

  unfoldable pub process_predicate_object_list_inner : Machine → Option Machine
  unfolding pop_verb
  process_predicate_object_list_inner s = pop_verb s.verb_stack s

  unfoldable pub process_triple_seq : Machine → Machine
  unfolding insert_triples with_subject
  process_triple_seq s = insert_triples (with_subject s.subject_ s.verb_object_pair_list) s

  unfoldable pub move_bnpl_collection_list_into_stack : Machine → Machine
  move_bnpl_collection_list_into_stack s = record s {
    bnpl_collection_list_stack = s.bnpl_collection_list ∷ s.bnpl_collection_list_stack;
    bnpl_collection_list = [];
  }

  unfoldable pub push_current_term_into_bnpl_collection_list : Machine → Machine
  push_current_term_into_bnpl_collection_list s = record s {
    bnpl_collection_list = s.bnpl_collection_list ++ s.basic.element ∷ [];
  }
