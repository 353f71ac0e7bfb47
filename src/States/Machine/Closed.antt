-- ===== src/States/Machine/Closed.antt =====
-- States/State.hpp: the states in which processCollection and processBlankNodePropertyList restore the
-- lists that they pop.
use rdf_parser.Base.{◌≡◌, false}
use rdf_parser.States.Basic.{create_blank_node_label}
use rdf_parser.States.Machine.{
  Derived, State, process_collection, process_blank_node_property_list, restore_list, restore_pairs,
}
use rdf_parser.States.Machine.Syntax.{fresh, cells}
use rdf_parser.States.Machine.Cells.{with_cells, collection_triples_lem}
use rdf_parser.States.Machine.Effects.{insert_all, insert_triples_lem, listed}

module _ {D : Type 0} (k : Derived false D) where
  abbrev pub collected : State false D → State false D
  collected s =
      record (with_cells k (cells false s.bnpl_collection_list s.basic.latest_bn_label) s) {
        derived =
            insert_all k (cells false s.bnpl_collection_list s.basic.latest_bn_label).1 s.derived;
      }

  pub collection_closed :
      (s : State false D)
      → process_collection k s ≡ restore_list k s.bnpl_collection_list_stack (collected s)
  unfolding process_collection
  collection_closed s = simp (collection_triples_lem, insert_triples_lem)

  abbrev pub paired : State false D → State false D
  paired s =
      restore_pairs k (fresh false s.basic.latest_bn_label) s.verb_object_pair_list_stack
        (listed k s)

  pub list_closed :
      (s : State false D)
      → process_blank_node_property_list k s
        ≡ restore_list k (paired s).bnpl_collection_list_stack (paired s)
  unfolding process_blank_node_property_list create_blank_node_label
  list_closed s = simp insert_triples_lem
