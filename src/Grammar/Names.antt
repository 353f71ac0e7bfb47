-- ===== src/Grammar/Names.antt =====
-- Grammar.hpp: the names of the rules, one for each struct. The templates have their argument.
use rdf_parser.Base.{Bool}

pub data Name : Type 0 where
  pn_local_esc hex percent plx pn_chars_base pn_chars_u pn_chars pn_local pn_prefix : Name
  anon_ws anon uchar echar : Name
  string_literal_long_quote string_literal_quote : Name
  string_literal_single_quote string_literal_long_single_quote : Name
  integer decimal exponent double langtag blank_node_label pname_ns pname_ln iriref comment : Name
  ignored numeric_literal turtle_string blank_node prefixed_name iri : Name
  prefix_id sparql_prefix base sparql_base directive : Name
  rdf_literal_type_tag rdf_literal boolean_literal literal term : Name
  varname var1 var2 var var_or_term : Name
  object object_list : Bool → Name
  predicate collection_begin : Name
  collection : Bool → Name
  verb_a : Name
  verb predicate_object_list_inner predicate_object_list : Bool → Name
  blank_node_property_list_begin : Name
  blank_node_property_list subject triple_seq1 triple_seq2 triple triple_extended : Bool → Name
  statement statements_collection turtle_doc triples_block : Name
  grammar : Bool → Name
