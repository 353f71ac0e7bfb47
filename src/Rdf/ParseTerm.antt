-- ===== src/Rdf/ParseTerm.antt =====
-- RDF/ParseTerm.hpp. The parse of PEGTL with the rule `term` and its actions is a parameter, and so
-- is what fmt::format makes of the message: the code gives it a format string without the argument.
use rdf_parser.Base.{
  ◌≡◌, ◌≢◌, refl, Bool, true, false, arith, Text, Result, ok, throw, ◌>>=◌, logic_error,
  out_of_range, undefined, format_error, runtime_error, parse_error, parsing_exception,
  internal_error,
}
use rdf_parser.Rdf.Term.{Term, literal}
use rdf_parser.Rdf.Term.Equality.{RdfTerm, iri, blank, lit, plain, language, typed, represent}
use rdf_parser.States.Element.{of_term, blank_element}
use rdf_parser.States.Basic.{BasicState, initial_basic}
use rdf_parser.Actions.{apply_iriref}
use rdf_parser.Actions.Words.{quoted}
use rdf_parser.Actions.Names.{
  read_blank_label, read_blank_label_lem, labelled, apply_iriref_lem, with_iri,
}
use rdf_parser.Actions.Literals.{
  read_plain, read_lang, read_typed, NoTag, read_plain-Gives, read_lang-Gives, read_typed-Gives,
}

abbrev pub TermParse : Type 0
TermParse = Text → BasicState false → Result (Bool × BasicState false)

-- `catch (const std::exception &)`, and the message.
unfoldable pub element_of : Result Text → Result (Bool × BasicState false) → Result Term
element_of message (ok (matched, s)) = ok s.element
element_of message (throw undefined) = throw undefined
element_of message (throw e) = message >>= (λ text. throw logic_error)

unfoldable pub parse_term : TermParse → Result Text → Text → Result Term
unfolding element_of
parse_term parse message identifier = element_of message (parse identifier (initial_basic false))

-- `catch (const std::logic_error &)`, from which std::out_of_range is derived.
unfoldable pub is_parsed : Result Term → Result Bool
is_parsed (ok t) = ok true
is_parsed (throw logic_error) = ok false
is_parsed (throw out_of_range) = ok false
is_parsed (throw e) = throw e

unfoldable pub term_parsable : TermParse → Result Text → Text → Result Bool
unfolding is_parsed
term_parsable parse message identifier = is_parsed (parse_term parse message identifier)

-- The actions on the identifier of a term.
unfoldable pub term_actions : RdfTerm → BasicState false → Result (BasicState false)
term_actions (iri u) s = apply_iriref (quoted b'<' u b'>') s
term_actions (blank b) s = read_blank_label b s
term_actions (lit v plain) s = read_plain v s
term_actions (lit v (language l)) s = read_lang v l s
term_actions (lit v (typed t)) s = read_typed v t s

-- What PEGTL promises of an identifier that the rule matches.
abbrev pub AppliesTerm : TermParse → RdfTerm → Type 0
AppliesTerm parse a =
    (s u : BasicState false)
    → term_actions a s ≡ ok u
    → parse (represent a).identifier s ≡ ok (true, u)

initial-NoTag : NoTag (initial_basic false)
unfolding initial_basic
initial-NoTag = record { no_type = refl; no_lang = refl }

term_actions-represent :
    (a : RdfTerm)
    → (u : BasicState false) × (term_actions a (initial_basic false) ≡ ok u)
      × (u.element ≡ represent a)
unfolding term_actions represent initial_basic literal of_term blank_element
term_actions-represent (iri u) =
    (with_iri true u (initial_basic false), apply_iriref_lem u (initial_basic false), refl)
term_actions-represent (blank b) =
    (labelled b (initial_basic false), read_blank_label_lem b (initial_basic false), refl)
term_actions-represent (lit v plain) =
    let (u, e, r) = read_plain-Gives v (initial_basic false) initial-NoTag in (u, e, r.element)
term_actions-represent (lit v (language l)) =
    let (u, e, r) = read_lang-Gives v l (initial_basic false) initial-NoTag in (u, e, r.element)
term_actions-represent (lit v (typed t)) =
    let (u, e, r) = read_typed-Gives v t (initial_basic false) initial-NoTag refl in
    (u, e, r.element)

-- Where the parse applies the actions of the identifier of an RDF term, parse_term reads the
-- identifier back: its result is the term that has this identifier.
pub parse_term-represent :
    (parse : TermParse) (message : Result Text) (a : RdfTerm)
    → AppliesTerm parse a
    → parse_term parse message (represent a).identifier ≡ ok (represent a)
unfolding parse_term element_of
parse_term-represent parse message a h =
    let (u, e, f) = term_actions-represent a in rw (h (initial_basic false) u e, f) refl

never :
    (r : Result (Bool × BasicState false)) (message : Result Text)
    → message ≡ throw format_error
    → is_parsed (element_of message r) ≢ ok false
unfolding is_parsed element_of
never (ok (matched, s)) message h e = ground arith
never (throw out_of_range) message h e = ground arith
never (throw runtime_error) message h e = ground arith
never (throw logic_error) message h e = ground arith
never (throw parse_error) message h e = ground arith
never (throw parsing_exception) message h e = ground arith
never (throw internal_error) message h e = ground arith
never (throw format_error) message h e = ground arith
never (throw undefined) message h e = ground arith

-- Where fmt::format throws, as it does for a format string without its argument, term_parsable never
-- answers false: a text that does not match gives true, and an exception of the parse becomes a
-- format_error, which term_parsable does not catch.
pub term_parsable-never_false :
    (parse : TermParse) (message : Result Text) (identifier : Text)
    → message ≡ throw format_error
    → term_parsable parse message identifier ≢ ok false
unfolding term_parsable parse_term
term_parsable-never_false parse message identifier h =
    never (parse identifier (initial_basic false)) message h
