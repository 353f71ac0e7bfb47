-- ===== src/States/Machine/Correct.antt =====
-- State.hpp with Actions.hpp: a whole `triple`, in its three forms, from a state between two
-- triples.
use rdf_parser.Base.{ℕ, ◌≡◌, refl, Bool, List, [], ◌∷◌, ◌++◌, some, arith, inl, append-nil}
use rdf_parser.States.Element.{Element, TripleOf}
use rdf_parser.States.Machine.{
  Derived, State, with_subject, process_triple_seq, set_machine_subject, clear_triple_parameters,
  move_bnpl_collection_list_into_stack,
}
use rdf_parser.States.Machine.Events.{Event, perform, run, run_through, run_behind}
use rdf_parser.States.Machine.Syntax.{
  Object, property_list, PredicateObjects, Triples, subject_first, list_alone, list_first,
  events_object, events_predicates, events_triples, object_meaning, triples_meaning,
}
use rdf_parser.States.Machine.Nesting.{OneListEachObject, OneListEach, OneListEachTriples}
use rdf_parser.States.Machine.Effects.{insert_all, insert_all-append, insert_triples_lem}
use rdf_parser.States.Machine.Steps.{Effect, PairEffect, root_list_step}
use rdf_parser.States.Machine.Induction.{run-events_object, run-events_predicates}

-- Between two triples: no verb is open, and no object and no pair is pending.
pub record IsIdle {q : Bool} {D : Type 0} (s : State q D) : Type 0 where
  pub verbs : s.verb_stack ≡ []
  pub list : s.bnpl_collection_list ≡ []
  pub list_stack : s.bnpl_collection_list_stack ≡ []
  pub pairs : s.verb_object_pair_list ≡ []
  pub pair_stack : s.verb_object_pair_list_stack ≡ []

module _ {q : Bool} {D : Type 0} (k : Derived q D) where
  -- What follows the pairs: their triples, and a state between two triples.
  pub record Finished (s u : State q D) (ts : List (TripleOf q)) (n : ℕ) : Type 0 where
    pub idle : IsIdle u
    pub label : u.basic.latest_bn_label ≡ n
    pub out : u.derived ≡ insert_all k ts s.derived

  seq1_step :
      (s t : State q D) (e : Element q) (ps : List (Element q × Element q)) (ts : List (TripleOf q))
      (n : ℕ)
      → IsIdle s
      → s.subject_ ≡ e
      → PairEffect k s t ps ts n
      → (u : State q D) × (run k (Event.triple_seq1 ∷ Event.triple ∷ []) t ≡ some u)
        × Finished s u (ts ++ with_subject e ps) n
  unfolding run process_triple_seq clear_triple_parameters
  seq1_step s t e ps ts n i h f = (
    clear_triple_parameters k (process_triple_seq k t),
    refl,
    rw (insert_triples_lem k (with_subject t.subject_ t.verb_object_pair_list) t)
        (ground (arith, insert_all-append k ts (with_subject e ps) s.derived)),
  )

  seq2_step :
      (s t : State q D) (e : Element q) (ps : List (Element q × Element q)) (ts : List (TripleOf q))
      (n : ℕ)
      → IsIdle s
      → s.first_bnpl ≡ e
      → PairEffect k s t ps ts n
      → (u : State q D) × (run k (Event.triple_seq2 ∷ Event.triple ∷ []) t ≡ some u)
        × Finished s u (ts ++ with_subject e ps) n
  unfolding run process_triple_seq clear_triple_parameters set_machine_subject
  seq2_step s t e ps ts n i h f = (
    clear_triple_parameters k (process_triple_seq k (set_machine_subject k t.first_bnpl t)),
    refl,
    rw
        (insert_triples_lem k (with_subject t.first_bnpl t.verb_object_pair_list)
          (set_machine_subject k t.first_bnpl t))
        (ground (arith, insert_all-append k ts (with_subject e ps) s.derived)),
  )

  -- A property list alone: no pair is left, and nothing is inserted.
  alone_step :
      (s t : State q D) (ts : List (TripleOf q)) (n : ℕ)
      → IsIdle s
      → Effect k s t 1 [] ts n
      → (u : State q D) × (run k (Event.triple_seq2 ∷ Event.triple ∷ []) t ≡ some u)
        × Finished s u ts n
  unfolding run process_triple_seq clear_triple_parameters set_machine_subject with_subject
  alone_step s t ts n i f = (
    clear_triple_parameters k (process_triple_seq k (set_machine_subject k t.first_bnpl t)),
    refl,
    rw
        (insert_triples_lem k (with_subject t.first_bnpl t.verb_object_pair_list)
          (set_machine_subject k t.first_bnpl t))
        (ground arith),
  )

  -- The subject of the first form.
  subject_step :
      (o : Object q) (s : State q D) (n : ℕ)
      → s.basic.latest_bn_label ≡ n
      → OneListEachObject o
      → IsIdle s
      → (t : State q D) × (run k (events_object o ++ Event.subject ∷ []) s ≡ some t)
        × (t.subject_ ≡ (object_meaning o n).0)
        × Finished s t (object_meaning o n).1 (object_meaning o n).2
  unfolding perform set_machine_subject
  subject_step o s n l h i =
      let (t, p, e, f) = run-events_object k o s n l h (inl (i.verbs, i.pairs, i.pair_stack)) in
      (
        set_machine_subject k t.basic.element t,
        run_behind k (events_object o) Event.subject s t p refl,
        e,
        ground (arith, append-nil s.bnpl_collection_list),
      )

  -- A property list in the place of the subject.
  list_subject_step :
      (bs : PredicateObjects q) (s : State q D) (n : ℕ)
      → s.basic.latest_bn_label ≡ n
      → OneListEach bs
      → IsIdle s
      → (t : State q D) × (run k (events_object (property_list bs)) s ≡ some t)
        × (t.first_bnpl ≡ (object_meaning (property_list bs) n).0)
        × Effect k s t 1 []
            (object_meaning (property_list bs) n).1
            (object_meaning (property_list bs) n).2
  unfolding events_object object_meaning run perform move_bnpl_collection_list_into_stack
  list_subject_step bs s n l h i =
      let (t, p, f) =
        run-events_predicates k bs (move_bnpl_collection_list_into_stack k s) n l h refl in
      let (u, g, e, f', b) = root_list_step k s t _ _ _ i.verbs i.pairs i.pair_stack f in
      (u, run_behind k (events_predicates bs) Event.property_list _ t p g, b, f')

  list_Finished :
      (s t : State q D) (ts : List (TripleOf q)) (n : ℕ)
      → IsIdle s
      → Effect k s t 1 [] ts n
      → Finished s t ts n
  list_Finished s t ts n i f = ground (arith, append-nil s.bnpl_collection_list)

  then-Finished :
      (s t u : State q D) (ts us : List (TripleOf q)) (i j : ℕ)
      → Finished s t ts i
      → Finished t u us j
      → Finished s u (ts ++ us) j
  then-Finished s t u ts us i j f g = ground (arith, insert_all-append k ts us s.derived)

  -- From any state between two triples, the events of a triple in which every verb has at most one
  -- property list among its objects are all defined; they insert, in order, exactly the triples that
  -- triples_meaning gives, take exactly its labels, and end in a state between two triples.
  pub triples_run :
      (x : Triples q) (s : State q D) (n : ℕ)
      → s.basic.latest_bn_label ≡ n
      → OneListEachTriples x
      → IsIdle s
      → (u : State q D) × (run k (events_triples x) s ≡ some u)
        × Finished s u (triples_meaning x n).0 (triples_meaning x n).1
  unfolding events_triples triples_meaning OneListEachTriples
  triples_run (subject_first o ps) s n l h i =
      let (t, p, e, f) = subject_step o s n l h.0 i in
      let (w, m, g) = run-events_predicates k ps t _ f.label h.1 f.idle.list in
      let (u, r, b) = seq1_step t w _ _ _ _ f.idle e g in
      (
        u,
        run_through k (events_object o ++ Event.subject ∷ []) _ s t p
            (run_through k (events_predicates ps) _ t w m r),
        then-Finished s t u _ _ _ _ f b,
      )
  triples_run (list_alone bs) s n l h i =
      let (t, p, e, f) = list_subject_step bs s n l h i in
      let (u, r, b) = alone_step s t _ _ i f in
      (u, run_through k (events_object (property_list bs)) _ s t p r, b)
  triples_run (list_first bs ps) s n l h i =
      let (t, p, e, f) = list_subject_step bs s n l h.0 i in
      let c = list_Finished s t _ _ i f in
      let (w, m, g) = run-events_predicates k ps t _ c.label h.1 c.idle.list in
      let (u, r, b) = seq2_step t w _ _ _ _ c.idle e g in
      (
        u,
        run_through k (events_object (property_list bs)) _ s t p
            (run_through k (events_predicates ps) _ t w m r),
        then-Finished s t u _ _ _ _ c b,
      )
