-- ===== src/Actions/Table.antt =====
-- Which action belongs to which rule of the grammar: the specialisations of `action` in
-- include/Dice/rdf-parser/internal/Turtle/Actions/BasicActions.hpp and Actions.hpp. A rule with none
-- inherits from `nothing`.
use rdf_parser.Base.{
  Bool, true, false, Option, none, some, Text, Result, ok, throw, ◌>>=◌, undefined,
}
use rdf_parser.Grammar.Names.{
  Name, anon, integer, decimal, double, langtag, blank_node_label, iriref, numeric_literal,
  turtle_string, blank_node, prefixed_name, prefix_id, sparql_prefix, base, sparql_base,
  rdf_literal_type_tag, rdf_literal, boolean_literal, var, object, collection_begin, collection,
  verb_a, verb, predicate_object_list_inner, blank_node_property_list_begin,
  blank_node_property_list, subject, triple_seq1, triple_seq2, triple, statement, turtle_doc,
}
use rdf_parser.States.Basic.{BasicState}
use rdf_parser.States.Machine.{Derived, State}
use rdf_parser.States.Machine.Events.{Event, perform}
use rdf_parser.Actions.{
  apply_base, apply_prefix_id, apply_sparql_prefix, apply_sparql_base, apply_prefixed_name,
  apply_iriref, apply_anon, apply_boolean_literal, apply_double, apply_decimal, apply_integer,
  apply_numeric_literal, apply_rdf_literal, apply_rdf_literal_type_tag, apply_langtag,
  apply_turtle_string, apply_blank_node, apply_verb_a, apply_blank_node_label, apply_var,
}

-- An action on a state.
abbrev pub ActionOn : Type 0 → Type 0
ActionOn S = Text → S → Result S

-- A document has no variables.
abbrev var_action : (q : Bool) → Option (ActionOn (BasicState q))
var_action false = none
var_action true = some apply_var

unfoldable pub basic_action : (q : Bool) → Name → Option (ActionOn (BasicState q))
basic_action q base = some apply_base
basic_action q prefix_id = some apply_prefix_id
basic_action q sparql_prefix = some apply_sparql_prefix
basic_action q sparql_base = some apply_sparql_base
basic_action q prefixed_name = some apply_prefixed_name
basic_action q iriref = some apply_iriref
basic_action q anon = some apply_anon
basic_action q boolean_literal = some apply_boolean_literal
basic_action q double = some apply_double
basic_action q decimal = some apply_decimal
basic_action q integer = some apply_integer
basic_action q numeric_literal = some apply_numeric_literal
basic_action q rdf_literal = some apply_rdf_literal
basic_action q rdf_literal_type_tag = some apply_rdf_literal_type_tag
basic_action q langtag = some apply_langtag
basic_action q turtle_string = some apply_turtle_string
basic_action q blank_node = some apply_blank_node
basic_action q verb_a = some apply_verb_a
basic_action q blank_node_label = some apply_blank_node_label
basic_action q var = var_action q
basic_action q _ = none

unfoldable pub joining_action : (q : Bool) → Name → Option (Event q)
joining_action q statement = some Event.statement
joining_action q (triple p) = some Event.triple
joining_action q (triple_seq1 p) = some Event.triple_seq1
joining_action q (triple_seq2 p) = some Event.triple_seq2
joining_action q (subject p) = some Event.subject
joining_action q (verb p) = some Event.verb
joining_action q (object p) = some Event.object
joining_action q collection_begin = some Event.collection_begin
joining_action q (collection p) = some Event.collection
joining_action q blank_node_property_list_begin = some Event.property_list_begin
joining_action q (blank_node_property_list p) = some Event.property_list
joining_action q (predicate_object_list_inner p) = some Event.inner
joining_action q turtle_doc = some Event.turtle_doc
joining_action q _ = none

abbrev pub defined {ℓ} : {A : Type ℓ} → Option A → Result A
defined none = throw undefined
defined (some a) = ok a

module _ {q : Bool} {D : Type 0} (k : Derived q D) where
  abbrev pub on_basic : ActionOn (BasicState q) → ActionOn (State q D)
  on_basic f input s = f input s.basic >>= (λ b. ok (record s { basic = b }))

  abbrev pub basic_or_joining :
      Option (Event q) → Option (ActionOn (BasicState q)) → Option (ActionOn (State q D))
  basic_or_joining (some e) f = some (λ input s. defined (perform k e s))
  basic_or_joining none (some f) = some (on_basic f)
  basic_or_joining none none = none

  unfoldable pub action : Name → Option (ActionOn (State q D))
  unfolding basic_action joining_action
  action n = basic_or_joining (joining_action q n) (basic_action q n)
