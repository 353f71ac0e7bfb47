-- ===== src/Parsers/File/Order.antt =====
-- TurtleFileParser.hpp: where the triples are, step by step: with the client, in the queue, or still
-- to come.
use rdf_parser.Base.{
  ℕ, ◌+◌, ◌≤◌, ◌<◌, ◌≡◌, refl, Bool, true, false, List, [], ◌∷◌, ◌++◌, arith, ltb, lt→ltb, length,
  length-append, append_assoc,
}
use rdf_parser.States.Concurrent.{Call, insert, sync, finish, inserted}
use rdf_parser.Parsers.File.{
  SpscQueue, Thresholds, ParserAt, next, raise, pushing, sleep, asleep, raise_last, finishing,
  ClientAt, ask, ask_done, lower, waiting, woken, woken_empty, popping, count_left, release, ended,
  failed, FileParser, parser_at, client_at,
}
use rdf_parser.Parsers.File.Bounded.{IsBounded, popped}
use rdf_parser.Parsers.File.Room.{HasRoom, Behind, calls_behind}

-- The triples that the parsing thread has still to push.
abbrev pub to_come : {A : Type 0} → ParserAt A → List A
to_come (next p) = inserted p
to_come (raise t p) = t ∷ inserted p
to_come (pushing t p) = t ∷ inserted p
to_come (sleep p) = inserted p
to_come (asleep p) = inserted p
to_come (raise_last p) = inserted p
to_come (finishing p) = inserted p

-- Nothing is inserted behind setParsingIsDone.
unfoldable pub FinishesLast : {A : Type 0} → List (Call A) → Type 0
FinishesLast [] = Unit
FinishesLast (insert t ∷ p) = FinishesLast p
FinishesLast (sync ∷ p) = FinishesLast p
FinishesLast (finish ∷ p) = (inserted p ≡ []) × FinishesLast p

abbrev pub Finishing : {A : Type 0} → ParserAt A → Type 0
Finishing (raise_last p) = inserted p ≡ []
Finishing (finishing p) = inserted p ≡ []
Finishing _ = Unit

abbrev pub at_pop : ClientAt → Bool
at_pop popping = true
at_pop _ = false

abbrev pub at_end : ClientAt → Bool
at_end ended = true
at_end _ = false

-- `xs` is in the queue.
pub record Kept {A : Type 0} (all xs taken : List A) (p : ParserAt A) (c : ClientAt) (done : Bool)
    : Type 0 where
  pub order : taken ++ (xs ++ to_come p) ≡ all
  pub to_pop : at_pop c ≡ true → 0 < length xs
  pub finishes : FinishesLast (calls_behind p)
  pub last : Finishing p
  pub none_to_come : done ≡ true → to_come p ≡ []
  pub end : at_end c ≡ true → done ≡ true

push-Kept :
    {A : Type 0} {all taken : List A} {p : List (Call A)} {c : ClientAt} {done : Bool} (t : A)
    (xs : List A)
    → Kept all xs taken (pushing t p) c done
    → Kept all (xs ++ t ∷ []) taken (next p) c done
push-Kept {p = p} t xs i =
    ground (arith, append_assoc xs (t ∷ []) (inserted p), length-append xs (t ∷ []))

pop-Kept :
    {A : Type 0} {all taken : List A} {p : ParserAt A} {done : Bool} (t : A) (xs : List A)
    → Kept all xs taken p popping done
    → Kept all (popped t xs).1 (taken ++ (popped t xs).0 ∷ []) p count_left done
pop-Kept t [] i = absurd (omega (arith, i.to_pop refl))
pop-Kept {taken = taken} {p = p} t (h ∷ xs) i =
    ground (arith, append_assoc taken (h ∷ []) (xs ++ to_come p))

module _ {A Q : Type 0} (o : SpscQueue A Q) (l : Thresholds) (capacity n : ℕ)
    (contents : Q → List A) (b : IsBounded o capacity contents)
    (enough : l.upper_threshold + (n + n) ≤ capacity) (all : List A) where
  abbrev pub KeptIn : FileParser A Q → Type 0
  KeptIn s = Kept all (contents s.parsed_terms) s.taken s.parser s.client s.parsing_is_done

  pub parser_at-KeptIn :
      (p : ParserAt A) (s : FileParser A Q)
      → HasRoom l.upper_threshold n
          (length (contents s.parsed_terms))
          p
          s.client
          s.term_count_within_thresholds
      → Kept all (contents s.parsed_terms) s.taken p s.client s.parsing_is_done
      → Behind KeptIn (parser_at o l p s)
  unfolding parser_at inserted FinishesLast
  parser_at-KeptIn (next []) s r i = tt
  parser_at-KeptIn (next (insert t ∷ p)) s r i = ground arith
  parser_at-KeptIn (next (sync ∷ p)) s r i = ground arith
  parser_at-KeptIn (next (finish ∷ p)) s r i = ground arith
  parser_at-KeptIn (raise t p) s r i = ground arith
  parser_at-KeptIn (pushing t p) s r i =
      rw (b.contents-push t s.parsed_terms, room s r) (push-Kept t (contents s.parsed_terms) i)
    where
      room :
          {p : List (Call A)} {t : A} (s : FileParser A Q)
          → HasRoom l.upper_threshold n
              (length (contents s.parsed_terms))
              (pushing t p)
              s.client
              s.term_count_within_thresholds
          → ltb (length (contents s.parsed_terms)) capacity ≡ true
      room s r = lt→ltb _ _ (omega (arith, r.room))
  parser_at-KeptIn (sleep p) s r i = ground arith
  parser_at-KeptIn (asleep p) s r i = ground arith
  parser_at-KeptIn (raise_last p) s r i = ground arith
  parser_at-KeptIn (finishing p) s r i = ground arith

  pub client_at-KeptIn :
      (c : ClientAt) (s : FileParser A Q)
      → Kept all (contents s.parsed_terms) s.taken s.parser c s.parsing_is_done
      → Behind KeptIn (client_at o l c s)
  unfolding client_at
  client_at-KeptIn ask s i = ground (arith, b.read_available-contents s.parsed_terms)
  client_at-KeptIn ask_done s i = ground arith
  client_at-KeptIn lower s i = ground arith
  client_at-KeptIn waiting s i = ground arith
  client_at-KeptIn woken s i = ground (arith, b.read_available-contents s.parsed_terms)
  client_at-KeptIn woken_empty s i = ground arith
  client_at-KeptIn popping s i =
      rw
        (
          b.pop-contents s.current_triple s.parsed_terms,
          b.contents-pop s.current_triple s.parsed_terms,
        )
        (pop-Kept s.current_triple (contents s.parsed_terms) i)
  client_at-KeptIn count_left s i = ground arith
  client_at-KeptIn release s i = ground arith
  client_at-KeptIn ended s i = tt
  client_at-KeptIn failed s i = tt
