-- ===== src/Printed/Documents.antt =====
-- Grammar.hpp with Actions.hpp: printed documents, and the constructors of BaseStringParser.hpp on
-- them.
use rdf_parser.Base.{
  ℕ, suc, ◌≤◌, ◌≡◌, refl, inl, true, false, List, [], ◌∷◌, Option, some, length, Text, ok, ◌>>=◌,
}
use rdf_parser.Grammar.Rule.{Rule, eof, ref, ◌then◌, star}
use rdf_parser.Grammar.Names
use rdf_parser.Grammar.Names.{Name, ignored}
use rdf_parser.Grammar.Body.{body}
use rdf_parser.Grammar.Bytes.{IsByteWise}
use rdf_parser.Grammar.Match.{Leaves, then_on, or_first, star_more, star_end, at_plus, at_must}
use rdf_parser.Grammar.Look.{skips, look}
use rdf_parser.States.Basic.{add_prefix, initial_basic}
use rdf_parser.States.Machine.{Derived, State, initial_state}
use rdf_parser.States.Machine.Syntax.{Triples, events_triples}
use rdf_parser.States.Machine.Events.{Event, perform, run}
use rdf_parser.States.Documents.{
  events_statements, events_document, statements_meaning, all_of, OneListEachStatements,
}
use rdf_parser.States.Sequential.{Queue, sequential}
use rdf_parser.Actions.Table.{basic_action, joining_action, action}
use rdf_parser.Parsers.Iterator.{make_iterator, consume}
use rdf_parser.Parsers.Strings.{BaseStringParser, string_parser, read_of}
use rdf_parser.Parsers.Construct.{
  Applies, construct, construct_with, add_prefixes, default_triple, string_document, is_parsable,
}
use rdf_parser.Parsers.Parsable.{
  parse_grammar, recognise_grammar, construct-is_parsable, parse_rule-Match,
}
use rdf_parser.Printed.Steps.{silent_name, see}
use rdf_parser.Printed.States.{machine_terms}
use rdf_parser.Printed.Runs.{run_first, run_parts}
use rdf_parser.Printed.Like.{Like, with_basic}
use rdf_parser.Printed.Syntax.{show_triples, show_document, IsPrintableTriples, IsPrintableDocument}
use rdf_parser.Printed.Starts.{triples_start}
use rdf_parser.Printed.Blanks.{fail, quiet_rule, no_blank, one_blank, joins}
use rdf_parser.Printed.Loops.{ReadsTo, finish, last_event}
use rdf_parser.Printed.Statements.{triple_Reads}

abbrev another_statement : Rule Name
another_statement = ref ignored then ref Names.statement

module _ {D : Type 0} (k : Derived false D) (leaf : Rule Name → Text → Option Text)
    (w : IsByteWise leaf) where
  statement_Reads :
      (x : Triples false) (t : Text) (s v u : State false D)
      → IsPrintableTriples x
      → run k (events_triples x) s ≡ some v
      → perform k Event.statement v ≡ some u
      → ReadsTo k leaf w (ref Names.statement) (show_triples x (32 ∷ b'.' ∷ t)) t s u
  unfolding body look silent_name basic_action joining_action
  statement_Reads x t s v u h r p b l =
      let (b₁, l₁, t', dot, m) = triple_Reads k leaf w x t s v h r b l in
      joins k leaf w Names.statement Event.statement (show_triples x (32 ∷ b'.' ∷ t)) t
        (with_basic k b s) v u b₁ refl tt l₁ p
        (or_first
          (quiet_rule k leaf w (Names.triple_extended false) _ _ _ refl (then_on m (dot _))))

  lines_Reads :
      (xs : List (Triples false)) (s u : State false D)
      → IsPrintableDocument xs
      → run k (events_statements xs) s ≡ some u
      → ReadsTo k leaf w (star another_statement) (10 ∷ show_document xs) (10 ∷ []) s u
  unfolding body look silent_name basic_action joining_action events_statements show_document
      IsPrintableDocument run
  lines_Reads [] s u h r b l =
      finish k leaf w {r = star another_statement} {s = s} r
        (λ c g. (
          c,
          g,
          star_end (
              then_on (one_blank k leaf w 10 [] _ refl refl)
                (fail k leaf w (ref Names.statement) [] _ refl)),
        ))
        b l
  lines_Reads (x ∷ xs) s u h r b l =
      let (s₁, r₁, r₂) = run_parts k (events_triples x) _ s u r in
      let (s₂, r₃, r₄) = run_first k Event.statement (events_statements xs) s₁ u r₂ in
      let others = 10 ∷ show_document xs in
      let (b₁, l₁, m₁) = statement_Reads x others s s₁ s₂ h.0 r₁ r₃ b l in
      let (b₂, l₂, m₂) = lines_Reads xs s₂ u h.1 r₄ b₁ l₁ in
      (
        b₂,
        l₂,
        star_more
            (then_on
              (one_blank k leaf w 10 (show_triples x (32 ∷ b'.' ∷ others)) _ refl
                (triples_start x _ h.0))
              m₁)
            m₂,
      )

  pub document_Reads :
      (x : Triples false) (xs : List (Triples false)) (s u : State false D)
      → IsPrintableDocument (x ∷ xs)
      → run k (events_document (x ∷ xs)) s ≡ some u
      → ReadsTo k leaf w (ref (Names.grammar false)) (show_document (x ∷ xs)) [] s u
  unfolding body look silent_name basic_action joining_action events_document events_statements
      show_document IsPrintableDocument
  document_Reads x xs s u h r b l =
      let (s₁, r₁, r₂) = run_parts k (events_statements (x ∷ xs)) (Event.turtle_doc ∷ []) s u r in
      let (s₂, r₃, r₄) = run_parts k (events_triples x) _ s s₁ r₁ in
      let (s₃, r₅, r₆) = run_first k Event.statement (events_statements xs) s₂ s₁ r₄ in
      let others = 10 ∷ show_document xs in
      let text = show_triples x (32 ∷ b'.' ∷ others) in
      let (b₁, l₁, m₁) = statement_Reads x others s s₂ s₃ h.0 r₃ r₅ b l in
      let (b₂, l₂, m₂) = lines_Reads xs s₃ s₁ h.1 r₆ b₁ l₁ in
      let (b₃, l₃, m₃) =
        joins k leaf w Names.turtle_doc Event.turtle_doc text [] (with_basic k b s) s₁ u b₂ refl tt
          l₂ (last_event k leaf w Event.turtle_doc s₁ u r₂)
          (then_on
            (at_plus (then_on (then_on (no_blank k leaf w text _ (triples_start x _ h.0)) m₁) m₂))
            (one_blank k leaf w 10 [] _ refl refl)) in
      (
        b₃,
        l₃,
        quiet_rule k leaf w (Names.grammar false) _ _ _ refl (
            or_first
              (at_must (then_on m₃ (see leaf w (action k) (machine_terms k) skips eof [] refl _)))),
      )

-- The states in which a constructor starts to parse.
pub initial-Like : Like (initial_basic false) (initial_basic false)
unfolding initial_basic
initial-Like = record {
  element = refl;
  label = refl;
  no_tag = record { no_type = refl; no_lang = refl };
  no_base = refl;
}

prefixes-Like :
    (map : List (Text × Text)) (s : State false (Queue false))
    → Like s.basic s.basic
    → Like (add_prefixes map s).basic (add_prefixes map s).basic
unfolding add_prefixes add_prefix
prefixes-Like [] s l = l
prefixes-Like ((prefix, value) ∷ map) s l =
    prefixes-Like map (record s { basic = add_prefix prefix value s.basic })
      (record {
        element = refl;
        label = refl;
        no_tag = record { no_type = l.no_tag.no_type; no_lang = l.no_tag.no_lang };
        no_base = l.no_base;
      })

module _ (leaf : Rule Name → Text → Option Text) (b : Leaves leaf) (w : IsByteWise leaf) where
  pub document-Applies :
      (x : Triples false) (xs : List (Triples false)) (s : State false (Queue false))
      → IsPrintableDocument (x ∷ xs)
      → Like s.basic s.basic
      → Applies (parse_grammar leaf b false) (show_document (x ∷ xs)) (events_document (x ∷ xs)) s
  unfolding parse_grammar
  document-Applies x xs s h l u r =
      let (b', l', m) = document_Reads (sequential false) leaf w x xs s u h r s.basic l in
      (
        record u { basic = b' },
        parse_rule-Match leaf b (action (sequential false)) (Names.grammar false) _ s m,
        refl,
      )

  -- For every printable document of triples that is not empty, in which every verb has at most one
  -- property list among its objects. Printable is: its terms are IRIs without an escape; blank nodes
  -- whose label has only single-byte label characters and no dot; and literals in double quotes
  -- without an escape, plain, with a data type, or with a language of ASCII letters alone. Its verbs
  -- are IRIs with an object, and its subjects are IRIs, blank nodes, collections or property lists.
  -- Both constructors, the second with any prefixes, succeed on the text that the document is printed
  -- as; isParsable answers true; and a loop over the iterator of either parser ends within two rounds
  -- more than there are triples and reads exactly the triples of its syntax tree, in order.
  pub printed_document :
      (x : Triples false) (xs : List (Triples false)) (map : List (Text × Text)) (n : ℕ)
      → IsPrintableDocument (x ∷ xs)
      → OneListEachStatements (x ∷ xs)
      → length (all_of (statements_meaning (x ∷ xs) 1)) ≤ n
      → (p : BaseStringParser false) × (construct
            (parse_grammar leaf b false)
            (show_document (x ∷ xs))
          ≡ ok p)
        × (construct_with (parse_grammar leaf b false) (show_document (x ∷ xs)) map ≡ ok p)
        × (is_parsable (recognise_grammar leaf b) (show_document (x ∷ xs)) ≡ ok true)
        × ((make_iterator (string_parser false) p >>= consume (string_parser false) (suc (suc n)))
            ≡ ok (some (read_of (all_of (statements_meaning (x ∷ xs) 1)) (default_triple false))))
  unfolding initial_state
  printed_document x xs map n h o enough =
      let (p, e, e', reads) =
        string_document (parse_grammar leaf b false) (show_document (x ∷ xs)) map (x ∷ xs) n
          (document-Applies x xs (initial_state []) h initial-Like)
          (document-Applies x xs (add_prefixes map (initial_state [])) h
            (prefixes-Like map (initial_state []) initial-Like))
          o enough in
      (p, e, e', construct-is_parsable leaf b (show_document (x ∷ xs)) map p (inl e), reads)
