-- ===== src/Parsers/File.antt =====
-- TurtleFileParser.hpp and States/ConcurrentState.hpp: the parsing thread and the client's thread
-- over one bounded queue and three atomic flags. A step is one access to what the threads share. A
-- section under a mutex that makes one access is one step; where the client keeps the mutex m2
-- behind its wait, the parsing thread's steps under m2 are blocked. A wait ends when its predicate
-- holds: a thread that is notified looks at the predicate again, and may also do so by itself.
pub mod Bounded
pub mod Room
pub mod Order
pub mod Overflow
pub mod Races
pub mod Delivery
pub mod Document
pub mod Turtle
use rdf_parser.Base.{
  ◌≡◌, ℕ, ◌==◌, Bool, true, false, not, List, [], ◌∷◌, ◌++◌, Option, none, some, ltb, if◌then◌else◌,
  ◌/◌, Result, ok, throw, logic_error,
}
use rdf_parser.States.Machine.Events.{and_then}
use rdf_parser.States.Concurrent.{Call, insert, sync, finish}

-- What the code uses of boost::lockfree::spsc_queue. `pop` is given the variable that it overwrites
-- if there is an element.
pub record SpscQueue (A Q : Type 0) : Type 0 where
  pub empty : Q
  pub push : A → Q → Q
  pub pop : A → Q → A × Q
  pub read_available : Q → ℕ

-- The thresholds of the constructor.
pub record Thresholds : Type 0 where
  pub upper_threshold : ℕ
  pub lower_threshold : ℕ

-- Configurations.hpp: the capacity that parsedTerms is made with, whatever the constructor is given.
abbrev pub queue_capacity_default : ℕ
queue_capacity_default = 100000

-- The constructor's thresholds, and its test. It makes the test when the thread has been started.
unfoldable pub thresholds_of : ℕ → ℕ → Result Thresholds
thresholds_of queue_capacity lower =
    if ltb queue_capacity lower
    then throw logic_error
    else ok (record { upper_threshold = queue_capacity; lower_threshold = lower })

abbrev pub default_thresholds : Result Thresholds
default_thresholds = thresholds_of queue_capacity_default (queue_capacity_default / 10)

-- Where the parsing thread is: before its next call; before it raises termsCountIsNotEmpty for an
-- insertion, or pushes; before it takes m to sleep, or asleep; before it raises
-- termsCountIsNotEmpty at the end, or sets parsingIsDone.
pub data ParserAt (A : Type 0) : Type 0 where
  next : List (Call A) → ParserAt A
  raise : A → List (Call A) → ParserAt A
  pushing : A → List (Call A) → ParserAt A
  sleep asleep : List (Call A) → ParserAt A
  raise_last finishing : List (Call A) → ParserAt A

-- Where the client is, in a loop over the iterator: in hasNextTriple, from its first read of the
-- queue on; in nextTriple, from the pop on; behind the loop; or at a thrown InternalError.
pub data ClientAt : Type 0 where
  ask ask_done lower waiting woken woken_empty : ClientAt
  popping count_left release : ClientAt
  ended failed : ClientAt

pub record FileParser (A Q : Type 0) : Type 0 where
  pub parsed_terms : Q
  pub term_count_within_thresholds : Bool
  pub terms_count_is_not_empty : Bool
  pub parsing_is_done : Bool
  pub parser : ParserAt A
  pub client : ClientAt
  pub current_triple : A
  -- What the client has been given.
  pub taken : List A

unfoldable pub holds_m2 : ClientAt → Bool
holds_m2 woken = true
holds_m2 woken_empty = true
holds_m2 _ = false

pub data Thread : Type 0 where
  parsing calling : Thread

module _ {A Q : Type 0} (o : SpscQueue A Q) (l : Thresholds) where
  open o use {push, pop, read_available}
  open l use {upper_threshold, lower_threshold}

  abbrev pub Threads : Type 0
  Threads = FileParser A Q

  -- The constructor, and the parsing thread before its first call.
  unfoldable pub start_parsing : A → List (Call A) → Threads
  start_parsing t p = record {
    parsed_terms = o.empty;
    term_count_within_thresholds = false;
    terms_count_is_not_empty = false;
    parsing_is_done = false;
    parser = next p;
    client = ask;
    current_triple = t;
    taken = [];
  }

  -- insertTriple_impl, syncWithMainThread_impl and setParsingIsDone_impl. `none`: the thread is
  -- blocked, or has made all its calls.
  unfoldable pub parser_at : ParserAt A → Threads → Option Threads
  unfolding holds_m2
  parser_at (next []) s = none
  parser_at (next (insert t ∷ p)) s =
      some (record s { parser = if s.terms_count_is_not_empty then pushing t p else raise t p })
  parser_at (next (sync ∷ p)) s = some (record s {
    parser = if ltb upper_threshold (read_available s.parsed_terms) then sleep p else next p;
  })
  parser_at (next (finish ∷ p)) s =
      some (record s { parser = if s.terms_count_is_not_empty then finishing p else raise_last p })
  parser_at (raise t p) s =
      if holds_m2 s.client
      then none
      else some (record s { terms_count_is_not_empty = true; parser = pushing t p })
  parser_at (pushing t p) s =
      some (record s { parsed_terms = push t s.parsed_terms; parser = next p })
  parser_at (sleep p) s =
      some (record s { term_count_within_thresholds = false; parser = asleep p })
  parser_at (asleep p) s =
      if s.term_count_within_thresholds then some (record s { parser = next p }) else none
  parser_at (raise_last p) s =
      if holds_m2 s.client
      then none
      else some (record s { terms_count_is_not_empty = true; parser = finishing p })
  parser_at (finishing p) s = some (record s { parsing_is_done = true; parser = next p })

  -- hasNextTriple_impl and nextTriple_impl, as the iterator calls them.
  unfoldable pub client_at : ClientAt → Threads → Option Threads
  client_at ask s =
      some (record s { client = if read_available s.parsed_terms == 0 then ask_done else popping })
  client_at ask_done s = some (record s { client = if s.parsing_is_done then ended else lower })
  client_at lower s = some (record s { terms_count_is_not_empty = false; client = waiting })
  client_at waiting s =
      if s.terms_count_is_not_empty then some (record s { client = woken }) else none
  client_at woken s =
      some
        (record s { client = if read_available s.parsed_terms == 0 then woken_empty else popping })
  client_at woken_empty s = some (record s { client = if s.parsing_is_done then ended else failed })
  client_at popping s =
      let (t, rest) = pop s.current_triple s.parsed_terms in
      some (record s {
        parsed_terms = rest;
        current_triple = t;
        taken = s.taken ++ t ∷ [];
        client = count_left;
      })
  client_at count_left s = some (record s {
    client = if ltb (read_available s.parsed_terms) lower_threshold then release else ask;
  })
  client_at release s = some (record s { term_count_within_thresholds = true; client = ask })
  client_at ended s = none
  client_at failed s = none

  unfoldable pub step : Thread → Threads → Option Threads
  unfolding parser_at client_at
  step parsing s = parser_at s.parser s
  step calling s = client_at s.client s

  -- What the threads can reach, in any order of their steps.
  pub data Reaches (s : Threads) : Threads → Type 0 where
    here : Reaches s s
    later : {t u : Threads} (i : Thread) → Reaches s t → step i t ≡ some u → Reaches s u

  -- A given order of steps.
  unfoldable pub run_threads : List Thread → Threads → Option Threads
  unfolding step
  run_threads [] s = some s
  run_threads (i ∷ is) s = and_then (step i s) (run_threads is)
