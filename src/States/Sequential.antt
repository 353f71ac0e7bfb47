-- ===== src/States/Sequential.antt =====
-- States/SequentialState.hpp: the derived state of the string parsers, a queue that is read when the
-- parse is over; and whole documents on it.
use rdf_parser.Base.{◌≡◌, refl, sym, ◌∙◌, Bool, List, [], ◌∷◌, ◌++◌, some, append-nil, append_assoc}
use rdf_parser.States.Element.{TripleOf}
use rdf_parser.States.Machine.{Derived, State, initial_state}
use rdf_parser.States.Machine.Events.{run}
use rdf_parser.States.Machine.Syntax.{Triples}
use rdf_parser.States.Machine.Effects.{insert_all}
use rdf_parser.States.Documents.{
  events_document, statements_meaning, all_of, OneListEachStatements, insert_statements,
  document_effect, initial-IsIdle,
}
use rdf_parser.States.Machine.Correct.{IsIdle}

-- std::queue, its front first.
abbrev pub Queue : Bool → Type 0
Queue q = List (TripleOf q)

unfoldable pub sequential : (q : Bool) → Derived q (Queue q)
sequential q = record {
  sync_with_main_thread_impl = λ queue. queue;
  insert_triple_impl = λ triple queue. queue ++ triple ∷ [];
  set_parsing_is_done_impl = λ queue. queue;
}

module _ (q : Bool) where
  insert_all-sequential :
      (ts : List (TripleOf q)) (queue : Queue q) → insert_all (sequential q) ts queue ≡ queue ++ ts
  unfolding sequential
  insert_all-sequential [] queue = sym (append-nil queue)
  insert_all-sequential (t ∷ ts) queue =
      insert_all-sequential ts (queue ++ t ∷ []) ∙ append_assoc queue (t ∷ []) ts

  insert_statements-sequential :
      (tss : List (List (TripleOf q))) (queue : Queue q)
      → insert_statements (sequential q) tss queue ≡ queue ++ all_of tss
  unfolding sequential
  insert_statements-sequential [] queue = sym (append-nil queue)
  insert_statements-sequential (ts ∷ tss) queue =
      insert_statements-sequential tss (insert_all (sequential q) ts queue)
      ∙ rw (insert_all-sequential ts queue) (append_assoc queue ts (all_of tss))

-- From any state that has read no triple.
pub document_from :
    {q : Bool} (xs : List (Triples q)) (s : State q (Queue q))
    → OneListEachStatements xs
    → s.basic.latest_bn_label ≡ 1
    → IsIdle s
    → (u : State q (Queue q)) × (run (sequential q) (events_document xs) s ≡ some u)
      × (u.derived ≡ s.derived ++ all_of (statements_meaning xs 1))
unfolding sequential
document_from {q} xs s h l i =
    let (u, p, o, free) = document_effect (sequential q) xs s h l i in
    (u, p, o ∙ insert_statements-sequential q (statements_meaning xs 1) s.derived)

-- A document in whose triples every verb has at most one property list among its objects, read by
-- a string parser from its initial state: all its events are defined, and the queue that they
-- leave holds exactly the triples of statements_meaning, in order.
pub document_run :
    {q : Bool} (xs : List (Triples q))
    → OneListEachStatements xs
    → (u : State q (Queue q)) × (run (sequential q) (events_document xs) (initial_state [])
        ≡ some u)
      × (u.derived ≡ all_of (statements_meaning xs 1))
unfolding initial_state
document_run {q} xs h = document_from xs (initial_state []) h refl (initial-IsIdle [])
