-- ===== src/Parsers/Parsable.antt =====
-- Parsers/BaseStringParser.hpp and TurtleStringParser.hpp, with the parse of PEGTL as the relation
-- Match gives it: `parse<Grammar::grammar, Actions::action>(input, state)` and
-- `parse<Grammar::grammar>(in)`. How single characters are matched is still a parameter.
use rdf_parser.Base.{
  ◌≡◌, ◌⊎◌, ◌↔◌, inl, inr, refl, ap, Bool, true, false, List, [], ◌∷◌, Option, Text, parse_error,
  Result, ok, throw,
}
use rdf_parser.Grammar.Rule.{Rule, ref}
use rdf_parser.Grammar.Names.{Name, grammar}
use rdf_parser.Grammar.Body.{body}
use rdf_parser.Grammar.Match.{Outcome, matched, failed, raised, Leaves, Match}
use rdf_parser.Grammar.Whole.{grammar_ends, grammar_whole}
use rdf_parser.Grammar.Determined.{Match-deterministic}
use rdf_parser.Grammar.Erased.{nothing, Match-SameWithout, Match-OnlyParseError}
use rdf_parser.Actions.Table.{ActionOn, action, basic_action, joining_action}
use rdf_parser.States.Machine.{State, initial_state}
use rdf_parser.States.Sequential.{Queue, sequential}
use rdf_parser.Parsers.Strings.{BaseStringParser}
use rdf_parser.Parsers.Construct.{
  Parse, Recognise, parsed, construct, construct_with, add_prefixes, recognised, is_parsable,
}

-- What `parse` gives back: whether the rule has matched, and the state; or its exception.
abbrev pub outcome_result : {S : Type 0} → Outcome S → Result (Bool × S)
outcome_result (matched t u) = ok (true, u)
outcome_result (failed u) = ok (false, u)
outcome_result (raised e) = throw e

abbrev pub without_state : Result (Bool × Unit {0}) → Result Bool
without_state (ok (m, u)) = ok m
without_state (throw e) = throw e

module _ (leaf : Rule Name → Text → Option Text) (b : Leaves leaf) where
  unfoldable pub parse_rule :
      {S : Type 0} → (Name → Option (ActionOn S)) → Name → Text → S → Result (Bool × S)
  parse_rule act n text u = outcome_result (grammar_ends leaf act b n text u).0

  unfoldable pub parse_grammar : (q : Bool) → Parse q
  unfolding parse_rule action sequential
  parse_grammar q = parse_rule (action (sequential q)) (grammar q)

  unfoldable pub recognise_grammar : Recognise
  unfolding parse_rule
  recognise_grammar text = without_state (parse_rule nothing (grammar false) text tt)

  -- The parse is what any derivation says.
  pub parse_rule-Match :
      {S : Type 0} (act : Name → Option (ActionOn S)) (n : Name) (s : Text) (u : S) {o : Outcome S}
      → Match body leaf act (ref n) s u o
      → parse_rule act n s u ≡ outcome_result o
  unfolding parse_rule
  parse_rule-Match act n s u m =
      ap outcome_result (Match-deterministic body leaf act (grammar_ends leaf act b n s u).1 m)

  -- A document of the grammar's language.
  abbrev pub IsDocument : Text → Type 0
  IsDocument text = Match body leaf nothing (ref (grammar false)) text tt (matched [] tt)

  abbrev Answers : Text → Result Bool → Type 0
  Answers text r = ((r ≡ ok true) ↔ IsDocument text) × ((r ≡ ok true) ⊎ (r ≡ ok false))

  answers :
      (text : Text) (o : Outcome Unit)
      → Match body leaf nothing (ref (grammar false)) text tt o
      → Answers text (recognised (without_state (outcome_result o)))
  unfolding recognised
  answers text (matched [] v) m = ((λ h. m, λ h. refl), inl refl)
  answers text (matched (c ∷ t) v) m =
      let w = grammar_whole leaf nothing b false text tt _ refl m in cc
  answers text (failed v) m = absurd (grammar_whole leaf nothing b false text tt _ refl m)
  answers text (raised parse_error) m =
      ((λ h. cc, λ h. let e = Match-deterministic body leaf nothing m h in cc), inr refl)
  answers text (raised e) m = let f = Match-OnlyParseError body leaf m in cc

  -- On every text isParsable answers true or false, and it answers true exactly for the texts that
  -- the grammar matches up to their end.
  pub is_parsable_lem :
      (text : Text)
      → ((is_parsable recognise_grammar text ≡ ok true) ↔ IsDocument text)
        × ((is_parsable recognise_grammar text ≡ ok true)
            ⊎ (is_parsable recognise_grammar text ≡ ok false))
  unfolding is_parsable recognise_grammar
  is_parsable_lem text =
      let (o, m) = grammar_ends leaf nothing b (grammar false) text tt in answers text o m

  parsed-IsDocument :
      (text : Text) (s : State false (Queue false)) (p : BaseStringParser false)
      (o : Outcome (State false (Queue false)))
      → Match body leaf (action (sequential false)) (ref (grammar false)) text s o
      → parsed (outcome_result o) ≡ ok p
      → IsDocument text
  unfolding parsed action basic_action joining_action
  parsed-IsDocument text s p (matched [] v) m h = Match-SameWithout body leaf _ m
  parsed-IsDocument text s p (matched (c ∷ t) v) m h =
      let w = grammar_whole leaf _ b false text s _ refl m in cc
  parsed-IsDocument text s p (failed v) m h = absurd (grammar_whole leaf _ b false text s _ refl m)
  parsed-IsDocument text s p (raised e) m h = cc

  -- A text that one of the two constructors accepts, with any prefixes, is one that isParsable
  -- answers true for.
  pub construct-is_parsable :
      (text : Text) (map : List (Text × Text)) (p : BaseStringParser false)
      → (construct (parse_grammar false) text ≡ ok p)
        ⊎ (construct_with (parse_grammar false) text map ≡ ok p)
      → is_parsable recognise_grammar text ≡ ok true
  unfolding construct construct_with parse_grammar
  construct-is_parsable text map p (inl h) =
      let (o, m) = grammar_ends leaf _ b (grammar false) text (initial_state []) in
      (is_parsable_lem text).0.1 (parsed-IsDocument text _ p o m h)
  construct-is_parsable text map p (inr h) =
      let (o, m) =
        grammar_ends leaf _ b (grammar false) text (add_prefixes map (initial_state [])) in
      (is_parsable_lem text).0.1 (parsed-IsDocument text _ p o m h)
