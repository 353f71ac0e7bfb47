-- ===== src/Tests/Threads.antt =====
-- The file parser: runs of its two threads.
use rdf_parser.Base.{ℕ, ◌≤◌, ◌≡◌, refl, true, false, List, [], ◌∷◌, arith}
use rdf_parser.Rdf.Term.{default_term}
use rdf_parser.Rdf.Triple.{Triple, triple}
use rdf_parser.States.Machine.Syntax.{term, end, more_objects, last, Triples, subject_first}
use rdf_parser.States.Concurrent.{Call, insert, sync, finish, inserted}
use rdf_parser.Parsers.File.{
  Thresholds, FileParser, parsing, calling, next, count_left, ended, Reaches, here, start_parsing,
  run_threads,
}
use rdf_parser.Parsers.File.Bounded.{list_queue, list_queue-IsBounded}
use rdf_parser.Parsers.File.Room.{BatchesAtMost, ahead}
use rdf_parser.Parsers.File.Order.{FinishesLast}
use rdf_parser.Parsers.File.Delivery.{nothing_lost}
use rdf_parser.Parsers.File.Races.{run_threads-Reaches}
use rdf_parser.Parsers.File.Overflow.{unread_overflows}
use rdf_parser.Tests.Machines.{named, knows}

abbrev thresholds : Thresholds
thresholds = record { upper_threshold = 1; lower_threshold = 1 }

abbrev contents : {A : Type 0} → List A → List A
contents xs = xs

-- The first triple is taken, and two are still to be pushed.
abbrev calls : List (Call ℕ)
calls = insert 7 ∷ sync ∷ insert 8 ∷ sync ∷ insert 9 ∷ finish ∷ []

abbrev one_taken : FileParser ℕ (List ℕ)
one_taken = record {
  parsed_terms = [];
  term_count_within_thresholds = false;
  terms_count_is_not_empty = true;
  parsing_is_done = false;
  parser = next (insert 8 ∷ sync ∷ insert 9 ∷ finish ∷ []);
  client = count_left;
  current_triple = 7;
  taken = 7 ∷ [];
}

one_taken-Reaches :
    Reaches (list_queue 3) thresholds (start_parsing (list_queue 3) thresholds 0 calls) one_taken
unfolding run_threads start_parsing
one_taken-Reaches =
    run_threads-Reaches (list_queue 3) thresholds
      (parsing ∷ parsing ∷ parsing ∷ parsing ∷ calling ∷ calling ∷ []) here refl

nothing_lost_example :
    (7 ∷ 8 ∷ 9 ∷ [] ≡ inserted calls)
    × (0 ≤ 3)
    × (one_taken.client ≡ ended → 7 ∷ [] ≡ inserted calls)
unfolding ahead BatchesAtMost FinishesLast inserted
nothing_lost_example =
    nothing_lost (list_queue 3) thresholds 3 1 contents (list_queue-IsBounded 3) (omega arith)
      (omega arith) calls (omega arith) (omega arith, (omega arith, tt)) (refl, tt) 0 one_taken
      one_taken-Reaches

unread_overflows_example :
    (s : FileParser ℕ (List ℕ)) × Reaches
      (list_queue 1)
      thresholds
      (start_parsing (list_queue 1) thresholds 0 calls)
      s
    × (s.parser ≡ next [])
    × (s.taken ≡ [])
    × (s.parsed_terms ≡ 7 ∷ [])
unfolding inserted
unread_overflows_example =
    unread_overflows (list_queue 1) thresholds 1 contents (list_queue-IsBounded 1) calls 0
      (omega arith)

-- n k n
abbrev pub one_triple : List (Triples false)
one_triple = subject_first (term named) (last knows (more_objects (term named) end)) ∷ []

abbrev no_triple : Triple
no_triple = triple default_term default_term default_term

abbrev read_triple : Triple
read_triple = triple named knows named

abbrev document_read : FileParser Triple (List Triple)
document_read = record {
  parsed_terms = [];
  term_count_within_thresholds = false;
  terms_count_is_not_empty = true;
  parsing_is_done = true;
  parser = next [];
  client = count_left;
  current_triple = read_triple;
  taken = read_triple ∷ [];
}
