-- ===== src/States/Machine/Effects.antt =====
-- State.hpp: what each of the operations does to the fields of a state, in one equation each.
use rdf_parser.Base.{
  ◌+◌, ◌≡◌, refl, Bool, List, [], ◌∷◌, ◌++◌, some, arith, length, ◌==◌, if◌then◌else◌,
}
use rdf_parser.States.Element.{Element, TripleOf}
use rdf_parser.States.Basic.{create_blank_node_label, next_int}
use rdf_parser.States.Machine.{
  Derived, State, insert_triple, insert_triples, with_subject, with_verb, process_verb,
  process_collection, process_blank_node_property_list, process_predicate_object_list_inner,
}
use rdf_parser.States.Machine.Syntax.{fresh, cells}
use rdf_parser.States.Machine.Cells.{with_cells, collection_triples_lem}

module _ {q : Bool} {D : Type 0} (k : Derived q D) where
  open k use {insert_triple_impl}

  -- The derived state after the insertion of triples, one after the other.
  abbrev pub insert_all : List (TripleOf q) → D → D
  insert_all [] d = d
  insert_all (t ∷ ts) d = insert_all ts (insert_triple_impl t d)

  pub insert_all-append :
      (ts us : List (TripleOf q)) (d : D)
      → insert_all (ts ++ us) d ≡ insert_all us (insert_all ts d)
  insert_all-append [] us d = refl
  insert_all-append (t ∷ ts) us d = insert_all-append ts us (insert_triple_impl t d)

  pub insert_triples_lem :
      (ts : List (TripleOf q)) (s : State q D)
      → insert_triples k ts s ≡ record s { derived = insert_all ts s.derived }
  unfolding insert_triples
  insert_triples_lem [] s = refl
  insert_triples_lem (t ∷ ts) s = insert_triples_lem ts (insert_triple k t s)

  -- A verb that follows an open verb at once belongs to a new list of pairs.
  abbrev pub opened : State q D → State q D
  opened s =
      if length s.verb_stack == s.verb_stack_one_step_pre_size + 1
      then record s {
        verb_object_pair_list_stack = s.verb_object_pair_list ∷ s.verb_object_pair_list_stack;
        verb_object_pair_list = [];
      }
      else s

  pub process_verb_lem :
      (s : State q D)
      → process_verb k s ≡ record (opened s) {
        verb_stack_two_step_pre_size = s.verb_stack_one_step_pre_size;
        verb_stack_one_step_pre_size = length s.verb_stack;
        verb_stack = s.basic.element ∷ s.verb_stack;
      }
  unfolding process_verb
  process_verb_lem s = ground arith

  pub process_collection_lem :
      (s : State q D) (l : List (Element q)) (ls : List (List (Element q)))
      → s.bnpl_collection_list_stack ≡ l ∷ ls
      → process_collection k s
        ≡ some (record (with_cells k (cells q s.bnpl_collection_list s.basic.latest_bn_label) s) {
          bnpl_collection_list = l;
          bnpl_collection_list_stack = ls;
          derived = insert_all (cells q s.bnpl_collection_list s.basic.latest_bn_label).1 s.derived;
        })
  unfolding process_collection
  process_collection_lem s l ls h = simp (collection_triples_lem, insert_triples_lem, h)

  -- The state in which a property list ends, but for the lists that it restores.
  abbrev pub listed : State q D → State q D
  listed s =
      let node = fresh q s.basic.latest_bn_label in
      record s {
        basic = record (s.basic) {
          element = node;
          latest_bn_label = next_int s.basic.latest_bn_label;
        };
        derived = insert_all (with_subject node s.verb_object_pair_list) s.derived;
        verb_object_pair_list = [];
      }

  -- With no open verb the node becomes the subject of the triples that follow.
  pub property_list_root :
      (s : State q D) (l : List (Element q)) (ls : List (List (Element q)))
      → s.bnpl_collection_list_stack ≡ l ∷ ls
      → s.verb_object_pair_list_stack ≡ []
      → process_blank_node_property_list k s
        ≡ some (record (listed s) {
          bnpl_collection_list = l;
          bnpl_collection_list_stack = ls;
          first_bnpl = fresh q s.basic.latest_bn_label;
        })
  unfolding process_blank_node_property_list create_blank_node_label
  property_list_root s l ls h g = simp (insert_triples_lem, h, g)

  -- Under an open verb its list of pairs comes back.
  pub property_list_open :
      (s : State q D) (l : List (Element q)) (ls : List (List (Element q)))
      (p : List (Element q × Element q)) (ps : List (List (Element q × Element q)))
      → s.bnpl_collection_list_stack ≡ l ∷ ls
      → s.verb_object_pair_list_stack ≡ p ∷ ps
      → process_blank_node_property_list k s
        ≡ some (record (listed s) {
          bnpl_collection_list = l;
          bnpl_collection_list_stack = ls;
          verb_object_pair_list = p;
          verb_object_pair_list_stack = ps;
        })
  unfolding process_blank_node_property_list create_blank_node_label
  property_list_open s l ls p ps h g = simp (insert_triples_lem, h, g)

  pub inner_lem :
      (s : State q D) (v : Element q) (vs : List (Element q))
      → s.verb_stack ≡ v ∷ vs
      → process_predicate_object_list_inner k s
        ≡ some (record s {
          verb_stack = vs;
          verb_object_pair_list = s.verb_object_pair_list ++ with_verb v s.bnpl_collection_list;
          bnpl_collection_list = [];
        })
  unfolding process_predicate_object_list_inner
  inner_lem s v vs h = simp h
