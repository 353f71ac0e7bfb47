-- ===== src/Rdf/Term.antt =====
-- include/Dice/RDF/Term.hpp: the class Term, its NodeType, and the constructors of URIRef, BNode
-- and Literal. A subclass adds no field, so a value of one is a Term with its node type; the casts
-- change nothing but the static type.
pub mod Views
pub mod Equality
pub mod Order
use rdf_parser.Base.{
  ℕ, ◌+◌, ◌≡◌, Bool, true, false, not, List, [], ◌∷◌, ◌++◌, Option, none, some, ◌==◌, if◌then◌else◌,
  length, take, drop, Text, codes, text_eq, text_lt,
}

-- A view that is bound to no string: an offset and a length, applied to any copy.
pub record UnboundStringView : Type 0 where
  pub start : ℕ
  pub count : ℕ

abbrev pub empty_view : UnboundStringView
empty_view = record { start = 0; count = 0 }

unfoldable pub string_view : UnboundStringView → Text → Text
string_view v str = take v.count (drop v.start str)

pub data NodeType : Type 0 where
  none_ uri_ref_ bnode_ literal_ : NodeType

unfoldable pub node_type_eq : NodeType → NodeType → Bool
node_type_eq none_ none_ = true
node_type_eq uri_ref_ uri_ref_ = true
node_type_eq bnode_ bnode_ = true
node_type_eq literal_ literal_ = true
node_type_eq _ _ = false

pub record Term : Type 0 where
  pub identifier : Text
  pub node_type : NodeType
  pub value_view : UnboundStringView
  pub lang_view : UnboundStringView
  pub data_type_view : UnboundStringView

-- `Term()`, and the members that `Term(identifier, node_type)` leaves at their defaults.
abbrev pub default_term : Term
default_term = record {
  identifier = [];
  node_type = none_;
  value_view = empty_view;
  lang_view = empty_view;
  data_type_view = empty_view;
}

abbrev pub named_term : Text → NodeType → Term
named_term identifier node_type = record default_term {
  identifier = identifier;
  node_type = node_type;
}

unfoldable pub is_literal : Term → Bool
unfolding node_type_eq
is_literal t = node_type_eq t.node_type literal_

unfoldable pub is_bnode : Term → Bool
unfolding node_type_eq
is_bnode t = node_type_eq t.node_type bnode_

unfoldable pub is_uri_ref : Term → Bool
unfolding node_type_eq
is_uri_ref t = node_type_eq t.node_type uri_ref_

unfoldable pub value : Term → Text
unfolding string_view
value t = string_view t.value_view t.identifier

-- operator==, !=, < and > compare the identifiers alone.
unfoldable pub term_eq : Term → Term → Bool
term_eq s t = text_eq s.identifier t.identifier

unfoldable pub term_ne : Term → Term → Bool
term_ne s t = not (text_eq s.identifier t.identifier)

unfoldable pub term_lt : Term → Term → Bool
term_lt s t = text_lt s.identifier t.identifier

unfoldable pub term_gt : Term → Term → Bool
term_gt s t = text_lt t.identifier s.identifier

-- "<{}>"
unfoldable pub uri_ref : Text → Term
uri_ref uri = record (named_term (b'<' ∷ (uri ++ b'>' ∷ [])) uri_ref_) {
  value_view = record { start = 1; count = length uri };
}

-- "_:{}"
unfoldable pub bnode : Text → Term
bnode bnode_label = record (named_term (b'_' ∷ b':' ∷ bnode_label) bnode_) {
  value_view = record { start = 2; count = length bnode_label };
}

abbrev pub xsd_string : Text
xsd_string = codes "http://www.w3.org/2001/XMLSchema#string"

-- The literal with a language, with a data type, and with neither.
abbrev pub lang_literal : Text → Text → Term
lang_literal v l = record (named_term (b'"' ∷ (v ++ (b'"' ∷ b'@' ∷ l))) literal_) {
  lang_view = record { start = 1 + length v + 1 + 1; count = length l };
  value_view = record { start = 1; count = length v };
}

abbrev pub typed_literal : Text → Text → Term
typed_literal v t =
    record (named_term (b'"' ∷ (v ++ (b'"' ∷ b'^' ∷ b'^' ∷ b'<' ∷ (t ++ b'>' ∷ [])))) literal_) {
      data_type_view = record { start = 1 + length v + 1 + 2 + 1; count = length t };
      value_view = record { start = 1; count = length v };
    }

abbrev pub plain_literal : Text → Term
plain_literal v = record (named_term (b'"' ∷ (v ++ b'"' ∷ [])) literal_) {
  value_view = record { start = 1; count = length v };
}

unfoldable pub literal : Text → Option Text → Option Text → Term
literal v (some l) type = lang_literal v l
literal v none (some t) = if text_eq t xsd_string then plain_literal v else typed_literal v t
literal v none none = plain_literal v

unfoldable pub data_type : Term → Text
unfolding string_view
data_type t = string_view t.data_type_view t.identifier

unfoldable pub lang : Term → Text
unfolding string_view
lang t = string_view t.lang_view t.identifier

unfoldable pub has_data_type : Term → Bool
has_data_type t = not (t.data_type_view.count == 0)

unfoldable pub has_lang : Term → Bool
has_lang t = not (t.lang_view.count == 0)
