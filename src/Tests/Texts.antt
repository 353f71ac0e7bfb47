-- ===== src/Tests/Texts.antt =====
-- Actions: BasicActions.hpp on concrete texts.
use mathlib.Core.List.{cons-ne-nil}
use rdf_parser.Base.{
  ◌≡◌, ◌≢◌, refl, ◌++◌, true, false, [], ◌∷◌, none, some, arith, codes, Text, text_eq, ok, ◌>>=◌,
  if◌then◌else◌,
}
use rdf_parser.Rdf.Term.{Term, literal, term_eq, value}
use rdf_parser.States.Element.{of_term, blank_element}
use rdf_parser.States.Basic.{
  BasicState, initial_basic, add_prefix, get_prefix_value, find_prefix, set_base, next_int,
  print_int,
}
use rdf_parser.States.Basic.Prefixes.{or_else, get_prefix_value-add_prefix}
use rdf_parser.Actions.{
  apply_iriref, apply_prefixed_name, apply_verb_a, apply_base, apply_sparql_base, apply_prefix_id,
  apply_sparql_prefix, apply_turtle_string, apply_rdf_literal,
}
use rdf_parser.Actions.Words.{quoted}
use rdf_parser.Actions.Names.{
  iri_meaning, with_iri, name_meaning, apply_iriref_lem, apply_prefixed_name_lem,
  verb_a-ne-rdf_type, read_blank_label, read_anon, blank_nodes_read,
}
use rdf_parser.Actions.Directives.{
  AreWords, base_text, prefix_text, base_directive, prefix_directive, prefix_directive_glued,
}
use rdf_parser.Actions.Literals.{
  Gives, read_plain, read_lang, read_typed, read_typed_name, literal_forms, long_string_value,
}

abbrev fresh_state : BasicState false
fresh_state = initial_basic false

abbrev based : BasicState false
based = record fresh_state { base = codes "http://b/" }

apply_iriref_lem_example :
    apply_iriref (quoted b'<' (codes "x") b'>') based
    ≡ (iri_meaning based.base (codes "x") >>= λ v. ok (with_iri true v based))
apply_iriref_lem_example = apply_iriref_lem (codes "x") based

abbrev with_ex : BasicState false
with_ex = record fresh_state { prefix_map = (codes "ex", codes "http://e/") ∷ [] }

apply_prefixed_name_lem_example :
    apply_prefixed_name (codes "ex" ++ b':' ∷ codes "x") with_ex
    ≡ name_meaning (get_prefix_value (codes "ex") with_ex) (codes "x") with_ex
apply_prefixed_name_lem_example =
    apply_prefixed_name_lem (codes "ex") (codes "x") with_ex (refl, (refl, tt)) (refl, tt)
      (omega arith) (omega arith)

verb_a-ne-rdf_type_example :
    (t : BasicState false) × (u : BasicState false) × (apply_verb_a (codes "a") fresh_state ≡ ok t)
    × (apply_iriref
          (quoted b'<' (codes "http://www.w3.org/1999/02/22-rdf-syntax-ns#type") b'>')
          fresh_state
        ≡ ok u)
    × (term_eq t.element u.element ≡ false)
unfolding initial_basic
verb_a-ne-rdf_type_example = verb_a-ne-rdf_type fresh_state refl

blank_nodes_read_example :
    (t : BasicState false) × (u : BasicState false) × (read_blank_label (codes "x") fresh_state
      ≡ ok t)
    × (read_anon fresh_state ≡ ok u)
    × (t.element ≡ blank_element false (codes "x"))
    × (u.element ≡ blank_element false (b'b' ∷ print_int fresh_state.latest_bn_label))
    × (t.latest_bn_label ≡ fresh_state.latest_bn_label)
    × (u.latest_bn_label ≡ next_int fresh_state.latest_bn_label)
    × ((t.prefix_map ≡ fresh_state.prefix_map) × (u.prefix_map ≡ fresh_state.prefix_map))
    × ((t.base ≡ fresh_state.base) × (u.base ≡ fresh_state.base))
blank_nodes_read_example = blank_nodes_read (codes "x") fresh_state

get_prefix_value-add_prefix_example :
    get_prefix_value (codes "ex") (add_prefix (codes "ex") (codes "http://f/") with_ex) ≡ (
      if text_eq (codes "ex") (codes "ex")
      then or_else (get_prefix_value (codes "ex") with_ex) (codes "http://f/")
      else get_prefix_value (codes "ex") with_ex)
get_prefix_value-add_prefix_example =
    get_prefix_value-add_prefix (codes "ex") (codes "ex") (codes "http://f/") with_ex

abbrev base_words : AreWords (codes "@base") (codes " ") (codes "http://b/") b'>' (codes " .")
base_words = record {
  keyword_word = (refl, (refl, (refl, (refl, (refl, tt)))));
  keyword_ne_nil = cons-ne-nil _ _;
  gap_space = (refl, tt);
  gap_ne_nil = cons-ne-nil _ _;
  iri_word = (refl, (refl, (refl, (refl, (refl, (refl, (refl, (refl, (refl, tt)))))))));
  last_word = refl;
  rest_ends = refl;
}

base_directive_example :
    (apply_base
        (base_text (codes "@base") (codes " ") (codes "http://b/") b'>' (codes " ."))
        fresh_state
      ≡ ok (set_base (codes "http://b/") fresh_state))
    × (apply_sparql_base
          (base_text (codes "@base") (codes " ") (codes "http://b/") b'>' (codes " ."))
          fresh_state
        ≡ ok (set_base (codes "http://b/") fresh_state))
base_directive_example =
    base_directive (codes "@base") (codes " ") (codes "http://b/") b'>' (codes " .") base_words
      fresh_state

abbrev prefix_words : AreWords (codes "@prefix") (codes " ") (codes "u") b'>' (codes " .")
prefix_words = record {
  keyword_word = (refl, (refl, (refl, (refl, (refl, (refl, (refl, tt)))))));
  keyword_ne_nil = cons-ne-nil _ _;
  gap_space = (refl, tt);
  gap_ne_nil = cons-ne-nil _ _;
  iri_word = (refl, tt);
  last_word = refl;
  rest_ends = refl;
}

abbrev prefix_line : Text
prefix_line =
    prefix_text (codes "@prefix") (codes " ") (codes "ex") (codes " ") (codes "u") b'>' (codes " .")

prefix_directive_example :
    (t : BasicState false) × (apply_prefix_id prefix_line with_ex ≡ ok t)
    × (apply_sparql_prefix prefix_line with_ex ≡ ok t)
    × (get_prefix_value (codes "ex") t ≡ (
        if text_eq (codes "ex") (codes "ex")
        then or_else (get_prefix_value (codes "ex") with_ex) (codes "u")
        else get_prefix_value (codes "ex") with_ex))
prefix_directive_example =
    prefix_directive (codes "@prefix") (codes " ") (codes "u") b'>' (codes " .") prefix_words
      with_ex (codes "ex") (codes " ") (refl, (refl, tt)) (refl, tt) (cons-ne-nil _ _) (codes "ex")

abbrev glued_words : AreWords (codes "@prefix") (codes " ") (codes "u" ++ b'>' ∷ []) b'.' []
glued_words = record {
  keyword_word = (refl, (refl, (refl, (refl, (refl, (refl, (refl, tt)))))));
  keyword_ne_nil = cons-ne-nil _ _;
  gap_space = (refl, tt);
  gap_ne_nil = cons-ne-nil _ _;
  iri_word = (refl, (refl, tt));
  last_word = refl;
  rest_ends = tt;
}

prefix_directive_glued_example :
    (t : BasicState false) × (apply_prefix_id
        (codes "@prefix"
          ++ (codes " "
              ++ ((codes "ex" ++ b':' ∷ []) ++ (codes " " ++ (b'<' ∷ (codes "u" ++ codes ">."))))))
        fresh_state
      ≡ ok t)
    × (get_prefix_value (codes "ex") t ≡ some (codes "u" ++ b'>' ∷ []))
    × (codes "u" ++ b'>' ∷ [] ≢ codes "u")
unfolding initial_basic get_prefix_value find_prefix
prefix_directive_glued_example =
    prefix_directive_glued (codes "@prefix") (codes " ") (codes "ex") (codes " ") (codes "u")
      fresh_state glued_words (refl, (refl, tt)) (refl, tt) (cons-ne-nil _ _) refl

literal_forms_example :
    Gives (read_plain (codes "v") with_ex) with_ex (literal (codes "v") none none)
    × Gives
        (read_lang (codes "v") (codes "en") with_ex)
        with_ex
        (literal (codes "v") (some (codes "en")) none)
    × Gives
        (read_typed (codes "v") (codes "http://t") with_ex)
        with_ex
        (literal (codes "v") none (some (codes "http://t")))
    × Gives
        (read_typed_name (codes "v") (codes "ex") (codes "x") with_ex)
        with_ex
        (literal (codes "v") none (some (codes "http://e/" ++ codes "x")))
unfolding initial_basic get_prefix_value find_prefix text_eq
literal_forms_example =
    literal_forms (codes "v") (codes "en") (codes "http://t") (codes "ex") (codes "x")
      (codes "http://e/") with_ex (record { no_type = refl; no_lang = refl }) refl
      (refl, (refl, tt)) (refl, tt) (omega arith) (omega arith) refl

long_string_value_example :
    (t : BasicState false) × (e : Term) × ((apply_turtle_string
          (codes "\"\"\"" ++ (codes "v" ++ codes "\"\"\""))
          fresh_state
        >>= apply_rdf_literal (codes "\"\"\"" ++ (codes "v" ++ codes "\"\"\"")))
      ≡ ok t)
    × (t.element ≡ of_term false e)
    × (value e ≡ codes "\"\"" ++ (codes "v" ++ codes "\"\""))
    × (value e ≢ codes "v")
unfolding initial_basic
long_string_value_example =
    long_string_value (codes "v") fresh_state (record { no_type = refl; no_lang = refl })
