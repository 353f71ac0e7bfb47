-- ===== src/Parsers/File/Room.antt =====
-- TurtleFileParser.hpp: how full the queue gets, step by step. A statement's triples are pushed
-- between two calls of syncWithMainThread, which lets the parsing thread sleep above the upper
-- threshold.
use rdf_parser.Base.{
  ℕ, ◌+◌, ◌≤◌, ◌≡◌, refl, ap, Bool, true, false, List, [], ◌∷◌, Option, none, some, arith, length,
}
use rdf_parser.States.Concurrent.{Call, insert, sync, finish}
use rdf_parser.Parsers.File.{
  SpscQueue, Thresholds, ParserAt, next, raise, pushing, sleep, asleep, raise_last, finishing,
  ClientAt, ask, ask_done, lower, waiting, woken, woken_empty, popping, count_left, release, ended,
  failed, FileParser, parser_at, client_at,
}
use rdf_parser.Parsers.File.Bounded.{IsBounded, length-popped, length-pushed}

-- The insertions before the next syncWithMainThread.
unfoldable pub ahead : {A : Type 0} → List (Call A) → ℕ
ahead [] = 0
ahead (insert t ∷ p) = 1 + ahead p
ahead (sync ∷ p) = 0
ahead (finish ∷ p) = ahead p

-- After every syncWithMainThread at most `n` insertions come before the next.
unfoldable pub BatchesAtMost : {A : Type 0} → ℕ → List (Call A) → Type 0
unfolding ahead
BatchesAtMost n [] = Unit
BatchesAtMost n (insert t ∷ p) = BatchesAtMost n p
BatchesAtMost n (sync ∷ p) = (ahead p ≤ n) × BatchesAtMost n p
BatchesAtMost n (finish ∷ p) = BatchesAtMost n p

abbrev pub calls_behind : {A : Type 0} → ParserAt A → List (Call A)
calls_behind (next p) = p
calls_behind (raise t p) = p
calls_behind (pushing t p) = p
calls_behind (sleep p) = p
calls_behind (asleep p) = p
calls_behind (raise_last p) = p
calls_behind (finishing p) = p

-- The insertions that a thread may make before it looks at the queue.
abbrev pub still_ahead : {A : Type 0} → ParserAt A → ℕ
still_ahead (next p) = ahead p
still_ahead (raise t p) = 1 + ahead p
still_ahead (pushing t p) = 1 + ahead p
still_ahead (sleep p) = 0
still_ahead (asleep p) = 0
still_ahead (raise_last p) = ahead p
still_ahead (finishing p) = ahead p

-- A thread that sleeps, or goes to sleep, has these insertions behind its sleep.
abbrev pub Slept : {A : Type 0} → ℕ → ParserAt A → Type 0
Slept n (sleep p) = ahead p ≤ n
Slept n (asleep p) = ahead p ≤ n
Slept n _ = Unit

abbrev pub is_asleep : {A : Type 0} → ParserAt A → Bool
is_asleep (asleep p) = true
is_asleep _ = false

abbrev pub at_release : ClientAt → Bool
at_release release = true
at_release _ = false

-- `m` is the size of the queue, `n` a bound on batches.
pub record HasRoom {A : Type 0} (upper n m : ℕ) (p : ParserAt A) (c : ClientAt) (within : Bool)
    : Type 0 where
  pub batches : BatchesAtMost n (calls_behind p)
  pub slept : Slept n p
  pub batch : still_ahead p ≤ n
  pub room : m + still_ahead p ≤ upper + (n + n)
  pub releasing : at_release c ≡ true → m + still_ahead p ≤ upper + n
  pub rewoken : is_asleep p ≡ true → within ≡ true → m ≤ upper + n
  pub drained : is_asleep p ≡ true → within ≡ true → at_release c ≡ true → m ≤ upper

-- The state behind a step, if there is one.
abbrev pub Behind : {S : Type 0} → (S → Type 0) → Option S → Type 0
Behind P none = Unit
Behind P (some s) = P s

module _ {A Q : Type 0} (o : SpscQueue A Q) (l : Thresholds) (capacity n : ℕ)
    (contents : Q → List A) (b : IsBounded o capacity contents) where
  abbrev pub RoomIn : FileParser A Q → Type 0
  RoomIn s =
      HasRoom l.upper_threshold n (length (contents s.parsed_terms)) s.parser s.client
        s.term_count_within_thresholds

  pub parser_at-RoomIn :
      (p : ParserAt A) (s : FileParser A Q)
      → HasRoom l.upper_threshold n
          (length (contents s.parsed_terms))
          p
          s.client
          s.term_count_within_thresholds
      → Behind RoomIn (parser_at o l p s)
  unfolding parser_at BatchesAtMost ahead
  parser_at-RoomIn (next []) s i = tt
  parser_at-RoomIn (next (insert t ∷ p)) s i = ground arith
  parser_at-RoomIn (next (sync ∷ p)) s i = ground (arith, b.read_available-contents s.parsed_terms)
  parser_at-RoomIn (next (finish ∷ p)) s i = ground arith
  parser_at-RoomIn (raise t p) s i = ground arith
  parser_at-RoomIn (pushing t p) s i = ground (
    arith,
    ap length (b.contents-push t s.parsed_terms),
    length-pushed capacity t (contents s.parsed_terms),
  )
  parser_at-RoomIn (sleep p) s i = ground arith
  parser_at-RoomIn (asleep p) s i = ground arith
  parser_at-RoomIn (raise_last p) s i = ground arith
  parser_at-RoomIn (finishing p) s i = ground arith

  module _ (lower_le_upper : l.lower_threshold ≤ l.upper_threshold) where
    pub client_at-RoomIn :
        (c : ClientAt) (s : FileParser A Q)
        → HasRoom l.upper_threshold n
            (length (contents s.parsed_terms))
            s.parser
            c
            s.term_count_within_thresholds
        → Behind RoomIn (client_at o l c s)
    unfolding client_at
    client_at-RoomIn ask s i = ground arith
    client_at-RoomIn ask_done s i = ground arith
    client_at-RoomIn lower s i = ground arith
    client_at-RoomIn waiting s i = ground arith
    client_at-RoomIn woken s i = ground arith
    client_at-RoomIn woken_empty s i = ground arith
    client_at-RoomIn popping s i = ground (
      arith,
      ap length (b.contents-pop s.current_triple s.parsed_terms),
      length-popped s.current_triple (contents s.parsed_terms),
    )
    client_at-RoomIn count_left s i = ground (arith, b.read_available-contents s.parsed_terms)
    client_at-RoomIn release s i = ground (arith, i.releasing refl)
    client_at-RoomIn ended s i = tt
    client_at-RoomIn failed s i = tt
