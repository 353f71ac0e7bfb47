-- ===== src/Parsers/Construct.antt =====
-- Parsers/BaseStringParser.hpp, its two constructors, and TurtleStringParser.hpp. The parse of PEGTL
-- is a parameter: from a text and a state it gives whether the grammar has matched, and the state
-- that the actions have left, or an exception of an action or of the grammar.
use rdf_parser.Base.{
  ℕ, suc, ◌≤◌, ◌≡◌, refl, arith, Bool, true, false, List, [], ◌∷◌, some, length, Text, Result, ok,
  throw, ◌>>=◌, Exception, undefined, parsing_exception,
}
use rdf_parser.Rdf.Triple.{triple}
use rdf_parser.States.Element.{TripleOf, default_element}
use rdf_parser.States.Basic.{add_prefix}
use rdf_parser.States.Machine.{State, initial_state}
use rdf_parser.States.Machine.Events.{Event, run}
use rdf_parser.States.Machine.Syntax.{Triples}
use rdf_parser.States.Machine.Correct.{IsIdle}
use rdf_parser.States.Documents.{
  events_document, statements_meaning, all_of, OneListEachStatements, initial-IsIdle,
}
use rdf_parser.States.Sequential.{Queue, sequential, document_from}
use rdf_parser.Parsers.Iterator.{make_iterator, consume}
use rdf_parser.Parsers.Strings.{BaseStringParser, string_parser, read_of, iterate_reads}

-- The parse with the actions, and the parse without.
abbrev pub Parse : Bool → Type 0
Parse q = Text → State q (Queue q) → Result (Bool × State q (Queue q))

abbrev pub Recognise : Type 0
Recognise = Text → Result Bool

unfoldable pub default_triple : (q : Bool) → TripleOf q
unfolding triple
default_triple q = triple (default_element q) (default_element q) (default_element q)

-- `catch (std::exception &)`.
abbrev pub as_parsing_exception : Exception → Exception
as_parsing_exception undefined = undefined
as_parsing_exception _ = parsing_exception

unfoldable pub parsed : {q : Bool} → Result (Bool × State q (Queue q)) → Result (BaseStringParser q)
unfolding default_triple
parsed {q} (ok (matched, s)) =
    ok (record { parsed_terms = s.derived; current_triple = default_triple q })
parsed (throw e) = throw (as_parsing_exception e)

unfoldable pub add_prefixes :
    {q : Bool} → List (Text × Text) → State q (Queue q) → State q (Queue q)
unfolding add_prefix
add_prefixes [] s = s
add_prefixes ((prefix, value) ∷ map) s =
    add_prefixes map (record s { basic = add_prefix prefix value s.basic })

unfoldable pub construct : {q : Bool} → Parse q → Text → Result (BaseStringParser q)
unfolding parsed initial_state
construct parse text = parsed (parse text (initial_state []))

unfoldable pub construct_with :
    {q : Bool} → Parse q → Text → List (Text × Text) → Result (BaseStringParser q)
unfolding parsed initial_state add_prefixes
construct_with parse text map = parsed (parse text (add_prefixes map (initial_state [])))

-- TurtleStringParser::isParsable.
unfoldable pub recognised : Result Bool → Result Bool
recognised (ok matched) = ok true
recognised (throw undefined) = throw undefined
recognised (throw e) = ok false

unfoldable pub is_parsable : Recognise → Text → Result Bool
unfolding recognised
is_parsable recognise text = recognised (recognise text)

-- What PEGTL promises of a text whose parse from the state s applies actions that join the terms of
-- these events: it matches, and the queue that it leaves is the one that they leave. What the
-- actions on terms leave beside is not looked at.
abbrev pub Applies : {q : Bool} → Parse q → Text → List (Event q) → State q (Queue q) → Type 0
Applies {q} parse text es s =
    (u : State q (Queue q))
    → run (sequential q) es s ≡ some u
    → (v : State q (Queue q)) × (parse text s ≡ ok (true, v)) × (v.derived ≡ u.derived)

module _ {q : Bool} where
  -- The prefixes change nothing else.
  record Prefixed (s u : State q (Queue q)) : Type 0 where
    idle : IsIdle u
    label : u.basic.latest_bn_label ≡ s.basic.latest_bn_label
    queue : u.derived ≡ s.derived

  add_prefixes-Prefixed :
      (map : List (Text × Text)) (s : State q (Queue q))
      → IsIdle s
      → Prefixed s (add_prefixes map s)
  unfolding add_prefixes add_prefix
  add_prefixes-Prefixed [] s i = record { idle = i; label = refl; queue = refl }
  add_prefixes-Prefixed ((prefix, value) ∷ map) s i =
      let f =
        add_prefixes-Prefixed map (record s { basic = add_prefix prefix value s.basic })
          (ground arith) in
      record { idle = f.idle; label = f.label; queue = f.queue }

  pub parsed_document :
      (parse : Parse q) (text : Text) (xs : List (Triples q)) (s : State q (Queue q))
      → Applies parse text (events_document xs) s
      → OneListEachStatements xs
      → s.basic.latest_bn_label ≡ 1
      → IsIdle s
      → s.derived ≡ []
      → parsed (parse text s)
        ≡ ok (record {
          parsed_terms = all_of (statements_meaning xs 1);
          current_triple = default_triple q;
        })
  unfolding parsed
  parsed_document parse text xs s a h l i d =
      let (u, p, o) = document_from xs s h l i in
      let (v, parses, same) = a u p in rw (parses, same, o, d) refl

  -- A text whose parse, from a fresh state and from one with the given prefixes, leaves in the queue
  -- what the actions of a document leave in whose triples every verb has at most one property list
  -- among its objects: both constructors succeed, with the same parser; and a loop over its iterator
  -- ends within two rounds more than there are triples and reads exactly the triples that the
  -- document's statements_meaning has, in order (the default triple, where there are none).
  pub string_document :
      (parse : Parse q) (text : Text) (map : List (Text × Text)) (xs : List (Triples q)) (fuel : ℕ)
      → Applies parse text (events_document xs) (initial_state [])
      → Applies parse text (events_document xs) (add_prefixes map (initial_state []))
      → OneListEachStatements xs
      → length (all_of (statements_meaning xs 1)) ≤ fuel
      → (p : BaseStringParser q) × (construct parse text ≡ ok p)
        × (construct_with parse text map ≡ ok p)
        × ((make_iterator (string_parser q) p >>= consume (string_parser q) (suc (suc fuel)))
            ≡ ok (some (read_of (all_of (statements_meaning xs 1)) (default_triple q))))
  unfolding construct construct_with initial_state
  string_document parse text map xs fuel a c h enough =
      let f = add_prefixes-Prefixed map (initial_state []) (initial-IsIdle []) in
      (
        record {
          parsed_terms = all_of (statements_meaning xs 1);
          current_triple = default_triple q;
        },
        parsed_document parse text xs (initial_state []) a h refl (initial-IsIdle []) refl,
        parsed_document parse text xs (add_prefixes map (initial_state [])) c h f.label f.idle
            f.queue,
        iterate_reads _ fuel enough,
      )
