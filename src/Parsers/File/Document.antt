-- ===== src/Parsers/File/Document.antt =====
-- TurtleFileParser.hpp: the calls of a whole document, and what a client gets of it.
use rdf_parser.Base.{
  ℕ, ◌+◌, ◌≤◌, ◌≡◌, refl, ap, ◌∙◌, Bool, List, [], ◌∷◌, ◌++◌, some, arith, length, append_assoc,
  All,
}
use rdf_parser.States.Element.{TripleOf}
use rdf_parser.States.Machine.{State, initial_state}
use rdf_parser.States.Machine.Events.{run}
use rdf_parser.States.Machine.Syntax.{Triples}
use rdf_parser.States.Machine.Effects.{insert_all}
use rdf_parser.States.Documents.{
  events_document, statements_meaning, all_of, OneListEachStatements, insert_statements,
  document_effect, initial-IsIdle,
}
use rdf_parser.States.Concurrent.{
  Call, insert, sync, finish, concurrent, inserted, inserting, document_calls,
}
use rdf_parser.Parsers.File.{SpscQueue, Thresholds, ended, FileParser, Reaches, start_parsing}
use rdf_parser.Parsers.File.Bounded.{IsBounded}
use rdf_parser.Parsers.File.Room.{BatchesAtMost, ahead}
use rdf_parser.Parsers.File.Order.{FinishesLast, to_come}
use rdf_parser.Parsers.File.Delivery.{nothing_lost}

-- The calls that the machine makes.
module _ (q : Bool) where
  insert_all-concurrent :
      (ts : List (TripleOf q)) (d p : List (Call (TripleOf q)))
      → insert_all (concurrent q) ts d ++ p ≡ d ++ inserting ts p
  unfolding concurrent inserting
  insert_all-concurrent [] d p = refl
  insert_all-concurrent (t ∷ ts) d p =
      insert_all-concurrent ts (d ++ insert t ∷ []) p
      ∙ append_assoc d (insert t ∷ []) (inserting ts p)

  insert_statements-concurrent :
      (tss : List (List (TripleOf q))) (d : List (Call (TripleOf q)))
      → insert_statements (concurrent q) tss d ++ finish ∷ [] ≡ d ++ document_calls tss
  unfolding concurrent document_calls
  insert_statements-concurrent [] d = refl
  insert_statements-concurrent (ts ∷ tss) d =
      insert_statements-concurrent tss (insert_all (concurrent q) ts d ++ sync ∷ [])
      ∙ append_assoc (insert_all (concurrent q) ts d) (sync ∷ []) (document_calls tss)
      ∙ insert_all-concurrent ts d (sync ∷ document_calls tss)

-- What these calls insert, in which batches.
module _ {A : Type 0} where
  inserted-inserting :
      (ts : List A) (p : List (Call A)) → inserted (inserting ts p) ≡ ts ++ inserted p
  unfolding inserted inserting
  inserted-inserting [] p = refl
  inserted-inserting (t ∷ ts) p = ap (λ us. t ∷ us) (inserted-inserting ts p)

  inserted-document_calls : (tss : List (List A)) → inserted (document_calls tss) ≡ all_of tss
  unfolding inserted document_calls
  inserted-document_calls [] = refl
  inserted-document_calls (ts ∷ tss) =
      inserted-inserting ts (sync ∷ document_calls tss)
      ∙ ap (λ us. ts ++ us) (inserted-document_calls tss)

  inserting-FinishesLast :
      (ts : List A) (p : List (Call A)) → FinishesLast p → FinishesLast (inserting ts p)
  unfolding FinishesLast inserting
  inserting-FinishesLast [] p h = h
  inserting-FinishesLast (t ∷ ts) p h = inserting-FinishesLast ts p h

  document_calls-FinishesLast : (tss : List (List A)) → FinishesLast (document_calls tss)
  unfolding FinishesLast document_calls inserted
  document_calls-FinishesLast [] = (refl, tt)
  document_calls-FinishesLast (ts ∷ tss) =
      inserting-FinishesLast ts (sync ∷ document_calls tss) (document_calls-FinishesLast tss)

  ahead-inserting : (ts : List A) (p : List (Call A)) → ahead (inserting ts p) ≡ length ts + ahead p
  unfolding ahead inserting
  ahead-inserting [] p = omega arith
  ahead-inserting (t ∷ ts) p = omega (arith, ahead-inserting ts p)

  inserting-BatchesAtMost :
      (n : ℕ) (ts : List A) (p : List (Call A))
      → BatchesAtMost n p
      → BatchesAtMost n (inserting ts p)
  unfolding BatchesAtMost inserting
  inserting-BatchesAtMost n [] p h = h
  inserting-BatchesAtMost n (t ∷ ts) p h = inserting-BatchesAtMost n ts p h

  abbrev pub EachAtMost : ℕ → List (List A) → Type 0
  EachAtMost n = All (λ ts. length ts ≤ n)

  document_calls-BatchesAtMost :
      (n : ℕ) (tss : List (List A))
      → EachAtMost n tss
      → (ahead (document_calls tss) ≤ n) × BatchesAtMost n (document_calls tss)
  unfolding BatchesAtMost document_calls ahead
  document_calls-BatchesAtMost n [] h = (omega arith, tt)
  document_calls-BatchesAtMost n (ts ∷ tss) h = (
    omega (arith, ahead-inserting ts (sync ∷ document_calls tss), h.0),
    inserting-BatchesAtMost n ts (sync ∷ document_calls tss)
        (document_calls-BatchesAtMost n tss h.1),
  )

-- A document in whose triples every verb has at most one property list among its objects, each of
-- its statements coming to at most n triples, in a file parser whose queue has room for 2 n
-- triples above the upper threshold, which is not below the lower one. The machine is defined on
-- its events and makes the calls that the threads are started on; and in every state that the two
-- threads reach from there, what the client has been given, the queue and what is still to be
-- pushed make together exactly the triples of statements_meaning, in order. When the
-- client's loop has ended, nothing is still to be pushed.
pub file_document :
    {q : Bool} {Q : Type 0} (o : SpscQueue (TripleOf q) Q) (l : Thresholds) (capacity n : ℕ)
    (contents : Q → List (TripleOf q)) (xs : List (Triples q)) (t : TripleOf q)
    (s : FileParser (TripleOf q) Q)
    → IsBounded o capacity contents
    → l.lower_threshold ≤ l.upper_threshold
    → l.upper_threshold + (n + n) ≤ capacity
    → OneListEachStatements xs
    → EachAtMost n (statements_meaning xs 1)
    → Reaches o l (start_parsing o l t (document_calls (statements_meaning xs 1))) s
    → (u : State q (List (Call (TripleOf q)))) × (run
          (concurrent q)
          (events_document xs)
          (initial_state [])
        ≡ some u)
      × (u.derived ≡ document_calls (statements_meaning xs 1))
      × (s.taken ++ (contents s.parsed_terms ++ to_come s.parser)
          ≡ all_of (statements_meaning xs 1))
      × (s.client ≡ ended → s.taken ++ contents s.parsed_terms ≡ all_of (statements_meaning xs 1))
unfolding concurrent initial_state
file_document {q} o l capacity n contents xs t s b low enough h each r =
    let tss = statements_meaning xs 1 in
    let (u, p, d, free) =
      document_effect (concurrent q) xs (initial_state []) h refl (initial-IsIdle []) in
    let (first, batches) = document_calls-BatchesAtMost n tss each in
    let (order, room, end) =
      nothing_lost o l capacity n contents b low enough (document_calls tss) first batches
        (document_calls-FinishesLast tss) t s r in
    (
      u,
      p,
      d ∙ insert_statements-concurrent q tss [],
      order ∙ inserted-document_calls tss,
      λ c. end c ∙ inserted-document_calls tss,
    )
