-- ===== src/Parsers/File/Delivery.antt =====
-- TurtleFileParser.hpp: the triples of a parse under every order of the threads' steps.
use rdf_parser.Base.{ℕ, ◌+◌, ◌≤◌, ◌≡◌, List, ◌++◌, Option, none, some, arith, length, append-nil}
use rdf_parser.States.Concurrent.{Call, inserted}
use rdf_parser.Parsers.File.{
  SpscQueue, Thresholds, ended, FileParser, Thread, parsing, calling, step, Reaches, here, later,
  start_parsing,
}
use rdf_parser.Parsers.File.Bounded.{IsBounded}
use rdf_parser.Parsers.File.Room.{
  RoomIn, Behind, BatchesAtMost, ahead, parser_at-RoomIn, client_at-RoomIn,
}
use rdf_parser.Parsers.File.Order.{
  KeptIn, to_come, FinishesLast, parser_at-KeptIn, client_at-KeptIn,
}

taken_step : {S : Type 0} (P : S → Type 0) (r : Option S) {u : S} → Behind P r → r ≡ some u → P u
taken_step P none h e = cc
taken_step P (some s) {u} h e = let same : s ≡ u = cc in rw same at h

module _ {A Q : Type 0} (o : SpscQueue A Q) (l : Thresholds) (capacity n : ℕ)
    (contents : Q → List A) (b : IsBounded o capacity contents)
    (lower_le_upper : l.lower_threshold ≤ l.upper_threshold)
    (enough : l.upper_threshold + (n + n) ≤ capacity) (p : List (Call A)) where
  abbrev Sound : FileParser A Q → Type 0
  Sound s =
      RoomIn o l capacity n contents b s × KeptIn o l capacity n contents b enough (inserted p) s

  step-Sound :
      (i : Thread) (s : FileParser A Q) {u : FileParser A Q}
      → Sound s
      → step o l i s ≡ some u
      → Sound u
  unfolding step
  step-Sound parsing s (r, k) h = (
    taken_step (RoomIn o l capacity n contents b) _
        (parser_at-RoomIn o l capacity n contents b s.parser s r) h,
    taken_step (KeptIn o l capacity n contents b enough (inserted p)) _
        (parser_at-KeptIn o l capacity n contents b enough (inserted p) s.parser s r k) h,
  )
  step-Sound calling s (r, k) h = (
    taken_step (RoomIn o l capacity n contents b) _
        (client_at-RoomIn o l capacity n contents b lower_le_upper s.client s r) h,
    taken_step (KeptIn o l capacity n contents b enough (inserted p)) _
        (client_at-KeptIn o l capacity n contents b enough (inserted p) s.client s k) h,
  )

  module _ (first_batch : ahead p ≤ n) (batches : BatchesAtMost n p) (finishes : FinishesLast p)
      (t : A) where
    start-Sound : Sound (start_parsing o l t p)
    unfolding start_parsing
    start-Sound = rw b.contents-empty (ground arith)

    reached-Sound : {s : FileParser A Q} → Reaches o l (start_parsing o l t p) s → Sound s
    reached-Sound here = start-Sound
    reached-Sound (later {t = s} i r h) = step-Sound i s (reached-Sound r) h

    -- A file parser whose queue has room for two statements' triples above the upper threshold,
    -- where the lower threshold is not above the upper one and setParsingIsDone is the last call, in
    -- any state that the two threads reach: what the client has been given, the queue and what is
    -- still to be pushed make together exactly the triples that the parse inserts, in their order;
    -- and when the client's loop ends, nothing is still to be pushed.
    pub nothing_lost :
        (s : FileParser A Q)
        → Reaches o l (start_parsing o l t p) s
        → (s.taken ++ (contents s.parsed_terms ++ to_come s.parser) ≡ inserted p)
          × (length (contents s.parsed_terms) ≤ capacity)
          × (s.client ≡ ended → s.taken ++ contents s.parsed_terms ≡ inserted p)
    nothing_lost s r =
        let (m, k) = reached-Sound r in
        (
          k.order,
          omega (arith, m.room),
          λ c. rw (k.none_to_come (k.end (rw c)), append-nil (contents s.parsed_terms)) at k.order,
        )
