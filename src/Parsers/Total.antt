-- ===== src/Parsers/Total.antt =====
-- Parsers/BaseStringParser.hpp: what its constructors can come to, on any text.
use rdf_parser.Base.{
  ◌≡◌, ◌⊎◌, inl, inr, refl, false, List, [], Option, Text, undefined, parsing_exception, Result, ok,
  throw,
}
use rdf_parser.Grammar.Rule.{Rule}
use rdf_parser.Grammar.Names.{Name, grammar}
use rdf_parser.Grammar.Match.{Outcome, matched, failed, raised, Leaves}
use rdf_parser.Grammar.Whole.{grammar_ends}
use rdf_parser.States.Machine.{State, initial_state}
use rdf_parser.States.Sequential.{Queue, sequential}
use rdf_parser.Parsers.Strings.{BaseStringParser}
use rdf_parser.Parsers.Construct.{parsed, construct, construct_with, add_prefixes}
use rdf_parser.Parsers.Parsable.{outcome_result, parse_grammar}
use rdf_parser.Parsers.Gains.{gain_name, gain, Grows}
use rdf_parser.Parsers.Stacks.{Match-Grows}

-- A parser, or the exception that the constructors document.
abbrev pub IsAnswer : Result (BaseStringParser false) → Type 0
IsAnswer r = ((p : BaseStringParser false) × (r ≡ ok p)) ⊎ (r ≡ throw parsing_exception)

parsed-IsAnswer :
    (u : State false (Queue false)) (o : Outcome (State false (Queue false)))
    → Grows (sequential false) u (0, 0) o
    → IsAnswer (parsed (outcome_result o))
unfolding parsed
parsed-IsAnswer u (matched t v) h = inl (_, refl)
parsed-IsAnswer u (failed v) h = inl (_, refl)
parsed-IsAnswer u (raised undefined) h = absurd (h refl)
parsed-IsAnswer u (raised e) h = inr refl

module _ (leaf : Rule Name → Text → Option Text) (b : Leaves leaf) where
  -- Whatever the text and the prefixes are, both constructors end, with a parser or with the
  -- exception that they document. In particular no action takes the top of an empty stack, also
  -- where the text is no document and the actions of failed alternatives are not undone.
  pub construct-IsAnswer :
      (text : Text) (map : List (Text × Text))
      → IsAnswer (construct (parse_grammar leaf b false) text)
        × IsAnswer (construct_with (parse_grammar leaf b false) text map)
  unfolding construct construct_with parse_grammar gain gain_name
  construct-IsAnswer text map =
      let (o, m) = grammar_ends leaf _ b (grammar false) text (initial_state []) in
      let start = add_prefixes map (initial_state []) in
      let (o', m') = grammar_ends leaf _ b (grammar false) text start in
      (
        parsed-IsAnswer (initial_state []) o (Match-Grows (sequential false) leaf m),
        parsed-IsAnswer start o' (Match-Grows (sequential false) leaf m'),
      )
