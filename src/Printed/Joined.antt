-- ===== src/Printed/Joined.antt =====
-- States/State.hpp: the events of the rules that join terms, from two states that differ in their
-- BasicState at most.
use rdf_parser.Base.{◌≡◌, refl, sym, ap, ◌∙◌, false, List, [], ◌∷◌, some}
use rdf_parser.States.Element.{Element}
use rdf_parser.States.Basic.{BasicState, next_int}
use rdf_parser.States.Machine.{
  Derived, State, sync_with_main_thread, set_parsing_is_done, set_machine_subject, process_verb,
  process_collection, process_blank_node_property_list, process_predicate_object_list_inner,
  process_triple_seq, push_current_term_into_bnpl_collection_list, clear_triple_parameters,
  move_bnpl_collection_list_into_stack, restore_list, restore_pairs,
}
use rdf_parser.States.Machine.Syntax.{fresh, cells}
use rdf_parser.States.Machine.Effects.{listed}
use rdf_parser.States.Machine.Events.{
  Event, leaf, anon, statement, triple, triple_seq1, triple_seq2, subject, verb, object,
  collection_begin, collection, property_list_begin, property_list, inner, turtle_doc, perform,
}
use rdf_parser.Printed.Like.{
  Like, IsJoin, with_basic, Follows, same-Follows, pop_same, restore_same, verb_same, seq_same,
  simple_Follows,
}
use rdf_parser.States.Machine.Closed.{collected, collection_closed, paired, list_closed}

module _ {D : Type 0} (k : Derived false D) where
  collection-Follows :
      (s u : State false D) (b : BasicState false)
      → Like b s.basic
      → process_collection k s ≡ some u
      → (b' : BasicState false) × Like b' u.basic
        × (process_collection k (with_basic k b s) ≡ some (with_basic k b' u))
  collection-Follows s u b l h =
      let ls = s.bnpl_collection_list_stack in
      let node = (cells false s.bnpl_collection_list s.basic.latest_bn_label).0 in
      let n = (cells false s.bnpl_collection_list s.basic.latest_bn_label).2 in
      let b' : BasicState false = record b { element = node; latest_bn_label = n } in
      let (p, same) =
        restore_same k ls (collected k s) u b' refl (sym (collection_closed k s) ∙ h) in
      (
        b',
        record {
          element = ap (λ x. x.element) (sym same);
          label = ap (λ x. x.latest_bn_label) (sym same);
          no_tag = record { no_type = l.no_tag.no_type; no_lang = l.no_tag.no_lang };
          no_base = l.no_base;
        },
        collection_closed k (with_basic k b s) ∙ rw l.label refl ∙ p,
      )

  pairs_same :
      (e : Element false) (ps : List (List (Element false × Element false))) (s : State false D)
      (b : BasicState false)
      → (restore_pairs k e ps (with_basic k b s) ≡ with_basic k b (restore_pairs k e ps s))
        × ((restore_pairs k e ps s).basic ≡ s.basic)
  unfolding restore_pairs
  pairs_same e [] s b = (refl, refl)
  pairs_same e (p ∷ ps) s b = (refl, refl)

  property_list-Follows :
      (s u : State false D) (b : BasicState false)
      → Like b s.basic
      → process_blank_node_property_list k s ≡ some u
      → (b' : BasicState false) × Like b' u.basic
        × (process_blank_node_property_list k (with_basic k b s) ≡ some (with_basic k b' u))
  property_list-Follows s u b l h =
      let node = fresh false s.basic.latest_bn_label in
      let b' : BasicState false = record b {
        element = node;
        latest_bn_label = next_int s.basic.latest_bn_label;
      } in
      let (moved, pb) = pairs_same node s.verb_object_pair_list_stack (listed k s) b' in
      let eq : paired k (with_basic k b s) ≡ with_basic k b' (paired k s) = rw l.label moved in
      let (p, same) =
        restore_same k (paired k s).bnpl_collection_list_stack (paired k s) u b'
          (ap (λ x. x.element) (sym pb)) (sym (list_closed k s) ∙ h) in
      (
        b',
        record {
          element = ap (λ x. x.element) (sym (same ∙ pb));
          label = ap (λ x. x.latest_bn_label) (sym (same ∙ pb));
          no_tag = record { no_type = l.no_tag.no_type; no_lang = l.no_tag.no_lang };
          no_base = l.no_base;
        },
        list_closed k (with_basic k b s)
            ∙ ap (λ x. restore_list k x.bnpl_collection_list_stack x) eq
            ∙ p,
      )

  -- Every event but those of a term.
  pub perform-Follows :
      (e : Event false) (s u : State false D) (b : BasicState false)
      → IsJoin e
      → Like b s.basic
      → perform k e s ≡ some u
      → Follows k e s u b
  unfolding perform push_current_term_into_bnpl_collection_list move_bnpl_collection_list_into_stack
      clear_triple_parameters set_machine_subject sync_with_main_thread set_parsing_is_done
      process_predicate_object_list_inner
  perform-Follows statement s u b j l h =
      simple_Follows k Event.statement (sync_with_main_thread k) (λ t. refl) (λ t c e. (refl, refl))
        s u b l h
  perform-Follows turtle_doc s u b j l h =
      simple_Follows k Event.turtle_doc (set_parsing_is_done k) (λ t. refl) (λ t c e. (refl, refl))
        s u b l h
  perform-Follows triple s u b j l h =
      simple_Follows k Event.triple (clear_triple_parameters k) (λ t. refl) (λ t c e. (refl, refl))
        s u b l h
  perform-Follows triple_seq1 s u b j l h =
      simple_Follows k Event.triple_seq1 (process_triple_seq k) (λ t. refl)
        (λ t c e. seq_same k t c) s u b l h
  perform-Follows triple_seq2 s u b j l h =
      simple_Follows k Event.triple_seq2
        (λ t. process_triple_seq k (set_machine_subject k t.first_bnpl t)) (λ t. refl)
        (λ t c e. seq_same k (set_machine_subject k t.first_bnpl t) c) s u b l h
  perform-Follows subject s u b j l h =
      simple_Follows k Event.subject (λ t. set_machine_subject k t.basic.element t) (λ t. refl)
        (λ t c e. (rw e refl, refl)) s u b l h
  perform-Follows verb s u b j l h =
      simple_Follows k Event.verb (process_verb k) (λ t. refl) (verb_same k) s u b l h
  perform-Follows object s u b j l h =
      simple_Follows k Event.object (push_current_term_into_bnpl_collection_list k) (λ t. refl)
        (λ t c e. (rw e refl, refl)) s u b l h
  perform-Follows collection_begin s u b j l h =
      simple_Follows k Event.collection_begin (move_bnpl_collection_list_into_stack k) (λ t. refl)
        (λ t c e. (refl, refl)) s u b l h
  perform-Follows property_list_begin s u b j l h =
      simple_Follows k Event.property_list_begin (move_bnpl_collection_list_into_stack k)
        (λ t. refl) (λ t c e. (refl, refl)) s u b l h
  perform-Follows inner s u b j l h =
      same-Follows k Event.inner (λ t v c e g. pop_same k t.verb_stack t v c e g) s u b l h
  perform-Follows collection s u b j l h = collection-Follows s u b l h
  perform-Follows property_list s u b j l h = property_list-Follows s u b l h
  perform-Follows (leaf x) s u b j l h = absurd j
  perform-Follows anon s u b j l h = absurd j
