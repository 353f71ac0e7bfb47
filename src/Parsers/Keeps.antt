-- ===== src/Parsers/Keeps.antt =====
-- Actions.hpp on State.hpp: what each action makes of the heights of the two stacks.
use mathlib.Core.Path.{subst}
use rdf_parser.Base.{
  ◌≡◌, refl, ap, true, false, List, [], ◌∷◌, some, arith, length, Text, Result, ok,
}
use rdf_parser.Rdf.Term.{Term}
use rdf_parser.Grammar.Names
use rdf_parser.Grammar.Names.{Name}
use rdf_parser.Grammar.Body.{body}
use rdf_parser.Grammar.Match.{of_result}
use rdf_parser.States.Machine.{
  Derived, State, sync_with_main_thread, set_parsing_is_done, set_machine_subject,
  process_predicate_object_list_inner, process_triple_seq,
  push_current_term_into_bnpl_collection_list, clear_triple_parameters,
  move_bnpl_collection_list_into_stack, restore_list, restore_pairs, pop_verb, with_subject,
}
use rdf_parser.States.Machine.Effects.{insert_triples_lem, process_verb_lem, listed}
use rdf_parser.States.Machine.Events.{Event, perform}
use rdf_parser.Actions.Table.{joining_action, defined}
use rdf_parser.States.Machine.Closed.{collection_closed, collected, list_closed, paired}
use rdf_parser.Parsers.Gains.{Gain, gain_name, gain, Above, Grows}

module _ {D : Type 0} (k : Derived false D) where
  abbrev S : Type 0
  S = State false D

  -- An action of a rule whose body has the gain g, so that the rule has the gain h.
  abbrev pub Keeps : Gain → Gain → (S → Result S) → Type 0
  Keeps g h f = (u v : S) (t : Text) → Above k u g v → Grows k u h (of_result t (f v))

  restore-Keeps :
      (ls : List (List Term)) (u v : S) (t : Text)
      → v.bnpl_collection_list_stack ≡ ls
      → Above k u (0, 1) v
      → Grows k u (0, 0) (of_result t (defined (restore_list k ls v)))
  unfolding restore_list
  restore-Keeps [] u v t e a = absurd (omega (arith, a.1, ap length e))
  restore-Keeps (l ∷ ls) u v t e a = omega (arith, a.0, a.1, ap length e)

  verb-Keeps : Keeps (0, 0) (1, 0) (λ v. defined (perform k Event.verb v))
  unfolding perform
  verb-Keeps u v t a = rw (process_verb_lem k v) (ground arith)

  pop-Keeps :
      (vs : List Term) (u v : S) (t : Text)
      → v.verb_stack ≡ vs
      → Above k u (1, 0) v
      → Grows k u (0, 0) (of_result t (defined (pop_verb k vs v)))
  unfolding pop_verb
  pop-Keeps [] u v t e a = absurd (omega (arith, a.0, ap length e))
  pop-Keeps (x ∷ vs) u v t e a = omega (arith, a.0, a.1, ap length e)

  pairs-Above :
      (e : Term) (ps : List (List (Term × Term))) (u v : S) (g : Gain)
      → Above k u g v
      → Above k u g (restore_pairs k e ps v)
  unfolding restore_pairs
  pairs-Above e [] u v g a = a
  pairs-Above e (p ∷ ps) u v g a = a

  inner-Keeps : Keeps (1, 0) (0, 0) (λ v. defined (perform k Event.inner v))
  unfolding perform process_predicate_object_list_inner
  inner-Keeps u v t a = pop-Keeps v.verb_stack u v t refl a

  collection-Keeps : Keeps (0, 1) (0, 0) (λ v. defined (perform k Event.collection v))
  unfolding perform
  collection-Keeps u v t a =
      rw (collection_closed k v)
        (restore-Keeps v.bnpl_collection_list_stack u (collected k v) t refl a)

  list-Keeps : Keeps (0, 1) (0, 0) (λ v. defined (perform k Event.property_list v))
  unfolding perform
  list-Keeps u v t a = rw (list_closed k v) (
      restore-Keeps (paired k v).bnpl_collection_list_stack u (paired k v) t refl
        (pairs-Above _ v.verb_object_pair_list_stack u (listed k v) (0, 1) a))

  seq-Keeps : Keeps (0, 0) (0, 0) (λ v. ok (process_triple_seq k v))
  unfolding process_triple_seq
  seq-Keeps u v t a =
      rw (insert_triples_lem k (with_subject v.subject_ v.verb_object_pair_list) v) a

  at_event :
      (g h : Gain) {e e' : Event false}
      → some e ≡ some e'
      → Keeps g h (λ v. defined (perform k e v))
      → Keeps g h (λ v. defined (perform k e' v))
  at_event g h {e} {e'} p m =
      subst (λ x. Keeps g h (λ v. defined (perform k x v))) (event_injective e e' p) m
    where
      event_injective : (x y : Event false) → some x ≡ some y → x ≡ y
      event_injective x y r = cc

  pub joining-Keeps :
      (n : Name) (e : Event false)
      → joining_action false n ≡ some e
      → Keeps (gain (body n)) (gain_name n) (λ v. defined (perform k e v))
  unfolding joining_action gain body perform sync_with_main_thread clear_triple_parameters
      set_machine_subject push_current_term_into_bnpl_collection_list
      move_bnpl_collection_list_into_stack set_parsing_is_done
  joining-Keeps Names.statement e h = at_event _ _ h (λ u v t a. a)
  joining-Keeps (Names.triple p) e h = at_event _ _ h (λ u v t a. a)
  joining-Keeps (Names.triple_seq1 p) e h = at_event _ _ h seq-Keeps
  joining-Keeps (Names.triple_seq2 p) e h =
      at_event _ _ h (λ u v t a. seq-Keeps u (set_machine_subject k v.first_bnpl v) t a)
  joining-Keeps (Names.subject true) e h = at_event _ _ h (λ u v t a. a)
  joining-Keeps (Names.subject false) e h = at_event _ _ h (λ u v t a. a)
  joining-Keeps (Names.verb p) e h = at_event _ _ h verb-Keeps
  joining-Keeps (Names.object p) e h = at_event _ _ h (λ u v t a. a)
  joining-Keeps Names.collection_begin e h = at_event _ _ h (λ u v t a. omega (arith, a.0, a.1))
  joining-Keeps (Names.collection p) e h = at_event _ _ h collection-Keeps
  joining-Keeps Names.blank_node_property_list_begin e h =
      at_event _ _ h (λ u v t a. omega (arith, a.0, a.1))
  joining-Keeps (Names.blank_node_property_list p) e h = at_event _ _ h list-Keeps
  joining-Keeps (Names.predicate_object_list_inner p) e h = at_event _ _ h inner-Keeps
  joining-Keeps Names.turtle_doc e h = at_event _ _ h (λ u v t a. a)
  joining-Keeps _ e h = cc
