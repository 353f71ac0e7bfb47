-- ===== src/States/Machine/Induction.antt =====
-- State.hpp: the events of an object, of a list of objects and of a list of verbs, from any state,
-- by induction on the syntax.
use rdf_parser.Base.{ℕ, ◌≡◌, refl, ◌∙◌, Bool, [], ◌∷◌, ◌++◌, some}
use rdf_parser.States.Machine.{
  Derived, State, push_current_term_into_bnpl_collection_list, move_bnpl_collection_list_into_stack,
  set_machine_element, process_verb,
}
use rdf_parser.States.Machine.Events.{Event, perform, run, run_through, run_cons, run_behind}
use rdf_parser.States.Machine.Syntax.{
  Object, term, anon, collection, property_list, Objects, end, more_objects, PredicateObjects, last,
  more, events_object, events_objects, events_predicates, object_meaning, objects_meaning,
  predicates_meaning,
}
use rdf_parser.States.Machine.Nesting.{
  lists_of_object, lists_of_objects, OneListEachObject, OneListEachObjects, OneListEach,
}
use rdf_parser.States.Machine.Steps.{
  Ready, Effect, PairEffect, Ready-then, Ready-first, Ready-verb, pushed-Effect, then-Effect,
  then-PairEffect, collection_step, list_step, verb_step, inner_step, push_step, term_Effect,
  end_Effect, anon_run,
}

module _ {q : Bool} {D : Type 0} (k : Derived q D) where
  mutual
    unfolding push_current_term_into_bnpl_collection_list events_object events_objects
        events_predicates run perform object_meaning objects_meaning predicates_meaning
        lists_of_object lists_of_objects OneListEachObject OneListEachObjects OneListEach
        move_bnpl_collection_list_into_stack

    pub run-events_object :
        (o : Object q) (s : State q D) (n : ℕ)
        → s.basic.latest_bn_label ≡ n
        → OneListEachObject o
        → Ready k s (lists_of_object o)
        → (t : State q D) × (run k (events_object o) s ≡ some t)
          × (t.basic.element ≡ (object_meaning o n).0)
          × Effect k s t (lists_of_object o) [] (object_meaning o n).1 (object_meaning o n).2
    run-events_object (term e) s n l h r = (_, refl, refl, term_Effect k s e n l)
    run-events_object anon s n l h r = anon_run k s n l
    run-events_object (collection os) s n l h r =
        let (t, p, f) = run-events_objects os (move_bnpl_collection_list_into_stack k s) n l h r in
        let (u, g, e, f') = collection_step k s t _ _ _ _ f in
        (u, run_behind k (events_objects os) Event.collection _ t p g, e, f')
    run-events_object (property_list ps) s n l h r =
        let (t, p, f) =
          run-events_predicates ps (move_bnpl_collection_list_into_stack k s) n l h refl in
        let (u, g, e, f') = list_step k s t _ _ _ r f in
        (u, run_behind k (events_predicates ps) Event.property_list _ t p g, e, f')

    pub run-events_objects :
        (os : Objects q) (s : State q D) (n : ℕ)
        → s.basic.latest_bn_label ≡ n
        → OneListEachObjects os
        → Ready k s (lists_of_objects os)
        → (t : State q D) × (run k (events_objects os) s ≡ some t)
          × Effect k s t
              (lists_of_objects os)
              (objects_meaning os n).0
              (objects_meaning os n).1
              (objects_meaning os n).2
    run-events_objects end s n l h r = (s, refl, end_Effect k s n l)
    run-events_objects (more_objects o os) s n l h r =
        let (t, p, e, f) = run-events_object o s n l h.0 (Ready-first k s _ _ r) in
        let t' = push_current_term_into_bnpl_collection_list k t in
        let f' = pushed-Effect k s t _ _ _ _ e f in
        let (u, g, f'') = run-events_objects os t' _ f'.label h.1 (Ready-then k s t _ _ _ _ r f) in
        (
          u,
          run_through k (events_object o) (Event.object ∷ events_objects os) s t p
              (run_cons k Event.object (events_objects os) t t' (push_step k t) g),
          then-Effect k s t' u _ _ _ _ _ _ _ _ f' f'',
        )

    pub run-events_predicates :
        (ps : PredicateObjects q) (s : State q D) (n : ℕ)
        → s.basic.latest_bn_label ≡ n
        → OneListEach ps
        → s.bnpl_collection_list ≡ []
        → (t : State q D) × (run k (events_predicates ps) s ≡ some t)
          × PairEffect k s t
              (predicates_meaning ps n).0
              (predicates_meaning ps n).1
              (predicates_meaning ps n).2
    run-events_predicates (last v os) s n l h e =
        let read = verb_step k s v in
        let r = process_verb k (set_machine_element k v s) in
        let (t, p, f) =
          run-events_objects os r n (read.label ∙ l) h.1 (Ready-verb k s r v _ read h.0) in
        let (u, g, f') = inner_step k s r t v _ _ _ _ e read f in
        (u, run_behind k (events_objects os) Event.inner r t p g, f')
    run-events_predicates (more v os ps) s n l h e =
        let read = verb_step k s v in
        let r = process_verb k (set_machine_element k v s) in
        let (t, p, f) =
          run-events_objects os r n (read.label ∙ l) h.1 (Ready-verb k s r v _ read h.0) in
        let (u, g, f') = inner_step k s r t v _ _ _ _ e read f in
        let (w, m, f'') = run-events_predicates ps u _ f'.label h.2 f'.list in
        (
          w,
          run_through k (Event.leaf v ∷ Event.verb ∷ (events_objects os ++ Event.inner ∷ []))
              (events_predicates ps) s u (run_behind k (events_objects os) Event.inner r t p g) m,
          then-PairEffect k s u w _ _ _ _ _ _ f' f'',
        )
