-- ===== src/States/Documents.antt =====
-- Actions/Actions.hpp: whole documents of triples on the machine of State.hpp, for any derived state.
use rdf_parser.Base.{ℕ, ◌≡◌, refl, Bool, List, [], ◌∷◌, ◌++◌, some}
use rdf_parser.States.Element.{TripleOf}
use rdf_parser.States.Machine.{
  Derived, State, initial_state, sync_with_main_thread, set_parsing_is_done,
}
use rdf_parser.States.Machine.Events.{Event, run, run_through, run_cons, run_behind}
use rdf_parser.States.Machine.Syntax.{Triples, events_triples, triples_meaning}
use rdf_parser.States.Machine.Nesting.{OneListEachTriples}
use rdf_parser.States.Machine.Effects.{insert_all}
use rdf_parser.States.Machine.Correct.{IsIdle, triples_run}

-- Each triple is a `statement`, and `turtleDoc` ends the document.
unfoldable pub events_statements : {q : Bool} → List (Triples q) → List (Event q)
events_statements [] = []
events_statements (x ∷ xs) = events_triples x ++ Event.statement ∷ events_statements xs

unfoldable pub events_document : {q : Bool} → List (Triples q) → List (Event q)
unfolding events_statements
events_document xs = events_statements xs ++ Event.turtle_doc ∷ []

-- The triples of each statement, from the first free label.
unfoldable pub statements_meaning : {q : Bool} → List (Triples q) → ℕ → List (List (TripleOf q))
statements_meaning [] n = []
statements_meaning (x ∷ xs) n = let (ts, m) = triples_meaning x n in ts ∷ statements_meaning xs m

-- The first free label behind them.
unfoldable pub labels_after : {q : Bool} → List (Triples q) → ℕ → ℕ
labels_after [] n = n
labels_after (x ∷ xs) n = labels_after xs (triples_meaning x n).1

abbrev pub all_of {ℓ} : {A : Type ℓ} → List (List A) → List A
all_of [] = []
all_of (ts ∷ tss) = ts ++ all_of tss

unfoldable pub OneListEachStatements : {q : Bool} → List (Triples q) → Type 0
OneListEachStatements [] = Unit
OneListEachStatements (x ∷ xs) = OneListEachTriples x × OneListEachStatements xs

pub initial-IsIdle : {q : Bool} {D : Type 0} (d : D) → IsIdle (initial_state {q = q} d)
unfolding initial_state
initial-IsIdle d = record {
  verbs = refl;
  list = refl;
  list_stack = refl;
  pairs = refl;
  pair_stack = refl;
}

module _ {q : Bool} {D : Type 0} (k : Derived q D) where
  open k use {sync_with_main_thread_impl, set_parsing_is_done_impl}

  -- What a derived state sees of statements with these triples.
  abbrev pub insert_statements : List (List (TripleOf q)) → D → D
  insert_statements [] d = d
  insert_statements (ts ∷ tss) d =
      insert_statements tss (sync_with_main_thread_impl (insert_all k ts d))

  synced : (s : State q D) → IsIdle s → IsIdle (sync_with_main_thread k s)
  unfolding sync_with_main_thread
  synced s i = record {
    verbs = i.verbs;
    list = i.list;
    list_stack = i.list_stack;
    pairs = i.pairs;
    pair_stack = i.pair_stack;
  }

  statements_run :
      (xs : List (Triples q)) (s : State q D) (n : ℕ)
      → s.basic.latest_bn_label ≡ n
      → OneListEachStatements xs
      → IsIdle s
      → (u : State q D) × (run k (events_statements xs) s ≡ some u)
        × (u.derived ≡ insert_statements (statements_meaning xs n) s.derived)
        × (u.basic.latest_bn_label ≡ labels_after xs n)
  unfolding events_statements statements_meaning OneListEachStatements run sync_with_main_thread
      labels_after
  statements_run [] s n l h i = (s, refl, refl, l)
  statements_run (x ∷ xs) s n l h i =
      let (t, p, f) = triples_run k x s n l h.0 i in
      let t' = sync_with_main_thread k t in
      let (u, g, o, free) = statements_run xs t' _ f.label h.1 (synced t f.idle) in
      (
        u,
        run_through k (events_triples x) (Event.statement ∷ events_statements xs) s t p
            (run_cons k Event.statement (events_statements xs) t t' refl g),
        rw f.out at o,
        free,
      )

  -- The document's events from a state that has read no triple.
  pub document_effect :
      (xs : List (Triples q)) (s : State q D)
      → OneListEachStatements xs
      → s.basic.latest_bn_label ≡ 1
      → IsIdle s
      → (u : State q D) × (run k (events_document xs) s ≡ some u)
        × (u.derived
            ≡ set_parsing_is_done_impl (insert_statements (statements_meaning xs 1) s.derived))
        × (u.basic.latest_bn_label ≡ labels_after xs 1)
  unfolding events_document run set_parsing_is_done
  document_effect xs s h l i =
      let (u, p, o, free) = statements_run xs s 1 l h i in
      (
        set_parsing_is_done k u,
        run_behind k (events_statements xs) Event.turtle_doc s u p refl,
        rw o refl,
        free,
      )
