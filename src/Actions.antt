-- ===== src/Actions.antt =====
-- include/Dice/rdf-parser/internal/Turtle/Actions/BasicActions.hpp: the actions on single terms and
-- on directives. Each takes the text that its rule has matched, and the state. An exception of a
-- member of std::string, and the one of an undefined prefix, leave the action as a result.
pub mod Words
pub mod Names
pub mod Literals
pub mod Directives
pub mod Table
pub mod Defined
use rdf_parser.Base.{
  ℕ, ◌+◌, ◌-◌, ◌%◌, ◌^◌, ◌≡◌, refl, Bool, true, false, not, List, [], ◌∷◌, ◌++◌, Option, none, some,
  ◌==◌, ltb, if◌then◌else◌, length, Text, codes, size_sub, substr, substr_from, erase_at, insert_at,
  find, read_word, Result, ok, throw, ◌>>=◌, runtime_error,
}
use rdf_parser.Rdf.Term.{Term, uri_ref, literal}
use rdf_parser.Sparql.Variable.{variable}
use rdf_parser.Sparql.TriplePattern.{VarOrTerm, var}
use rdf_parser.States.Element.{Element, of_term, blank_element}
use rdf_parser.States.Basic.{
  BasicState, set_element, add_prefix, get_prefix_value, set_base, set_lan_tag, set_type_tag,
  set_type_tag_found, set_lang_tag_found, set_iri_is_iriref, set_literal_string,
  set_blank_node_string, create_blank_node_label,
}

-- The size_t that an int made of a size_t converts back to.
unfoldable pub through_int : ℕ → ℕ
through_int n = let low = n % 2 ^ 32 in if ltb low (2 ^ 31) then low else low + (2 ^ 64 - 2 ^ 32)

-- `value.erase(0, 1); value.erase(value.length() - 1, 1);`
unfoldable pub erase_ends : Text → Result Text
erase_ends value = do shorter ← erase_at value 0 1; erase_at shorter (size_sub (length shorter) 1) 1

abbrev pub xsd_boolean : Text
xsd_boolean = codes "http://www.w3.org/2001/XMLSchema#boolean"

abbrev pub xsd_double : Text
xsd_double = codes "http://www.w3.org/2001/XMLSchema#double"

abbrev pub xsd_decimal : Text
xsd_decimal = codes "http://www.w3.org/2001/XMLSchema#decimal"

abbrev pub xsd_integer : Text
xsd_integer = codes "http://www.w3.org/2001/XMLSchema#integer"

-- `if (not state.getBase().empty()) s = s.insert(1, state.getBase());`
unfoldable pub with_base : Text → Text → Result Text
with_base [] s = ok s
with_base (b ∷ base) s = insert_at s 1 (b ∷ base)

-- The data type of a literal: the tag, but for a prefixed name whose prefix is known.
unfoldable pub expand : Option Text → Text → ℕ → Result Text
expand (some mapped_prefix) type_tag pos = do
  local ← substr type_tag (pos + 1) (length type_tag)
  ok (mapped_prefix ++ local)
expand none type_tag pos = ok type_tag

-- The tag without "^^<" and ">", or without "^^".
unfoldable pub tag_of : Bool → Text → Result Text
tag_of true input = substr input 3 (size_sub (size_sub (length input) 3) 1)
tag_of false input = substr_from input 2

abbrev pub fixed_uri : Text
fixed_uri = codes "<http://www.w3.org/1999/02/22-rdf-syntax-ns#type>"

module _ {q : Bool} where
  unfoldable pub apply_base : Text → BasicState q → Result (BasicState q)
  apply_base input state = do
    let (ignore, after) = read_word input
    let (value, _) = read_word after
    value' ← erase_ends value
    ok (set_base value' state)

  unfoldable pub apply_prefix_id : Text → BasicState q → Result (BasicState q)
  apply_prefix_id input state = do
    let (ignore, after) = read_word input
    let (prefix, after') = read_word after
    prefix' ← erase_at prefix (size_sub (length prefix) 1) 1
    let (value, _) = read_word after'
    value' ← erase_ends value
    ok (add_prefix prefix' value' state)

  unfoldable pub apply_sparql_prefix : Text → BasicState q → Result (BasicState q)
  apply_sparql_prefix input state = do
    let (ignore, after) = read_word input
    let (prefix, after') = read_word after
    prefix' ← erase_at prefix (size_sub (length prefix) 1) 1
    let (value, _) = read_word after'
    value' ← erase_ends value
    ok (add_prefix prefix' value' state)

  unfoldable pub apply_sparql_base : Text → BasicState q → Result (BasicState q)
  apply_sparql_base input state = do
    let (ignore, after) = read_word input
    let (value, _) = read_word after
    value' ← erase_ends value
    ok (set_base value' state)

  -- The value of a prefix, with what follows the colon; or the exception of an undefined prefix.
  unfoldable pub resolve : Option Text → Text → ℕ → Text → BasicState q → Result (BasicState q)
  resolve none statement pos prefix state = throw runtime_error
  resolve (some mapped_prefix) statement pos prefix state = do
    local ← substr statement ((pos + 1) % 2 ^ 64) (size_sub (length statement) (length prefix))
    ok (set_iri_is_iriref false (set_element (of_term q (uri_ref (mapped_prefix ++ local))) state))

  unfoldable pub apply_prefixed_name : Text → BasicState q → Result (BasicState q)
  apply_prefixed_name input state = do
    let (statement, _) = read_word input
    let pos = through_int (find statement b':')
    prefix ← substr statement 0 pos
    resolve (get_prefix_value prefix state) statement pos prefix state

  unfoldable pub apply_iriref : Text → BasicState q → Result (BasicState q)
  apply_iriref input state = do
    s ← substr input 1 (size_sub (length input) 2)
    s' ← with_base state.base s
    ok (set_iri_is_iriref true (set_element (of_term q (uri_ref s')) state))

  unfoldable pub apply_anon : Text → BasicState q → Result (BasicState q)
  apply_anon input state =
      let (label, state') = create_blank_node_label state in ok (set_blank_node_string label state')

  unfoldable pub apply_boolean_literal : Text → BasicState q → Result (BasicState q)
  apply_boolean_literal input state =
      let state' = set_literal_string input state in
      ok (set_element (of_term q (literal state'.literal_string none (some xsd_boolean))) state')

  unfoldable pub apply_double : Text → BasicState q → Result (BasicState q)
  apply_double input state = ok (set_type_tag xsd_double state)

  unfoldable pub apply_decimal : Text → BasicState q → Result (BasicState q)
  apply_decimal input state = ok (set_type_tag xsd_decimal state)

  unfoldable pub apply_integer : Text → BasicState q → Result (BasicState q)
  apply_integer input state = ok (set_type_tag xsd_integer state)

  unfoldable pub apply_numeric_literal : Text → BasicState q → Result (BasicState q)
  apply_numeric_literal input state =
      ok (set_element (of_term q (literal input none (some state.type_tag))) state)

  unfoldable pub resolve_type_tag : BasicState q → Result Text
  resolve_type_tag state =
      let pos = find state.type_tag b':' in
      if not state.iri_is_iriref
      then substr state.type_tag 0 pos
        >>= (λ prefix. expand (get_prefix_value prefix state) state.type_tag pos)
      else ok state.type_tag

  -- The three branches of the action on `RdfLiteral`.
  unfoldable pub set_typed_literal : BasicState q → Result (BasicState q)
  set_typed_literal state = do
    let state' = set_type_tag_found false state
    tag ← resolve_type_tag state'
    ok (set_element (of_term q (literal state'.literal_string none (some tag))) state')

  unfoldable pub set_lang_literal : BasicState q → BasicState q
  set_lang_literal state =
      let state' = set_lang_tag_found false state in
      set_element (of_term q (literal state'.literal_string (some state'.lang_tag) none)) state'

  unfoldable pub apply_rdf_literal : Text → BasicState q → Result (BasicState q)
  apply_rdf_literal input state =
      if state.type_tag_found
      then set_typed_literal state
      else if state.lang_tag_found
      then ok (set_lang_literal state)
      else ok (set_element (of_term q (literal state.literal_string none none)) state)

  unfoldable pub apply_rdf_literal_type_tag : Text → BasicState q → Result (BasicState q)
  apply_rdf_literal_type_tag input state = do
    let state' = set_type_tag_found true state
    tag ← tag_of state'.iri_is_iriref input
    ok (set_type_tag tag state')

  unfoldable pub apply_langtag : Text → BasicState q → Result (BasicState q)
  apply_langtag input state = do
    s ← substr_from input 1
    ok (set_lan_tag s (set_lang_tag_found true state))

  unfoldable pub apply_turtle_string : Text → BasicState q → Result (BasicState q)
  apply_turtle_string input state = do
    s ← substr input 1 (size_sub (size_sub (length input) 1) 1)
    ok (set_literal_string s state)

  unfoldable pub apply_blank_node : Text → BasicState q → Result (BasicState q)
  apply_blank_node input state = ok (set_element (blank_element q state.blank_node_string) state)

  unfoldable pub apply_verb_a : Text → BasicState q → Result (BasicState q)
  apply_verb_a input state = ok (set_element (of_term q (uri_ref fixed_uri)) state)

  unfoldable pub apply_blank_node_label : Text → BasicState q → Result (BasicState q)
  apply_blank_node_label input state = do
    s ← substr_from input 2
    let state' = set_literal_string s state
    ok (set_blank_node_string state'.literal_string state')

-- A variable, which only a query has.
unfoldable pub apply_var : Text → BasicState true → Result (BasicState true)
apply_var input state = do
  s ← substr input 1 (size_sub (length input) 1)
  ok (set_element (var (variable s false)) state)
