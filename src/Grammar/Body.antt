-- ===== src/Grammar/Body.antt =====
-- Grammar.hpp, from `ignored` on, and the body of every name.
use rdf_parser.Base.{Bool, true, false, [], ◌∷◌, codes, if◌then◌else◌}
use rdf_parser.Grammar.Rule.{
  eof, one, code_point, str, ref, ◌then◌, ◌or◌, opt, star, plus, must, digit, space,
}
use rdf_parser.Grammar.Names.{
  Name, pn_local_esc, hex, percent, plx, pn_chars_base, pn_chars_u, pn_chars, pn_local, pn_prefix,
  anon_ws, anon, uchar, echar, string_literal_long_quote, string_literal_quote,
  string_literal_single_quote, string_literal_long_single_quote, integer, decimal, exponent, double,
  langtag, blank_node_label, pname_ns, pname_ln, iriref, comment, ignored, numeric_literal,
  turtle_string, blank_node, prefixed_name, iri, prefix_id, sparql_prefix, base, sparql_base,
  directive, rdf_literal_type_tag, rdf_literal, boolean_literal, literal, term, varname, var1, var2,
  var, var_or_term, object, object_list, predicate, collection_begin, collection, verb_a, verb,
  predicate_object_list_inner, predicate_object_list, blank_node_property_list_begin,
  blank_node_property_list, subject, triple_seq1, triple_seq2, triple, triple_extended, statement,
  statements_collection, turtle_doc, triples_block, grammar,
}
use rdf_parser.Grammar.Tokens.{
  Body, pn_local_esc_body, hex_body, percent_body, plx_body, pn_chars_base_body, pn_chars_u_body,
  pn_chars_body, pn_local_body, pn_prefix_body, anon_ws_body, anon_body, uchar_body, echar_body,
  string_literal_long_quote_body, string_literal_quote_body, string_literal_single_quote_body,
  string_literal_long_single_quote_body, integer_body, decimal_body, exponent_body, double_body,
  langtag_body, blank_node_label_body, pname_ns_body, pname_ln_body, iriref_body, comment_body,
}

unfoldable pub ignored_body : Body
ignored_body = star (space or ref comment)

-- What joins terms.
unfoldable pub object_body : Bool → Body
object_body q =
    (if q then ref var_or_term else ref term)
    or ref (collection q)
    or ref (blank_node_property_list q)

unfoldable pub object_list_body : Bool → Body
object_list_body q =
    ref (object q) then star (ref ignored then one (codes ",") then ref ignored then ref (object q))

unfoldable pub collection_body : Bool → Body
collection_body q =
    ref collection_begin
    then star (ref ignored then ref (object q))
    then ref ignored
    then one (codes ")")

unfoldable pub verb_body : Bool → Body
verb_body q = (if q then ref var or ref predicate else ref predicate) or ref verb_a

unfoldable pub predicate_object_list_inner_body : Bool → Body
predicate_object_list_inner_body q = ref (verb q) then ref ignored then ref (object_list q)

unfoldable pub predicate_object_list_body : Bool → Body
predicate_object_list_body q =
    ref (predicate_object_list_inner q)
    then star (
        ref ignored
        then one (codes ";")
        then opt (ref ignored then ref (predicate_object_list_inner q)))

unfoldable pub blank_node_property_list_body : Bool → Body
blank_node_property_list_body q =
    ref blank_node_property_list_begin
    then ref ignored
    then ref (predicate_object_list q)
    then ref ignored
    then one (codes "]")

unfoldable pub subject_body : Bool → Body
subject_body q =
    if q then ref var_or_term else (ref iri or ref blank_node or ref (collection false))

unfoldable pub triple_seq1_body : Bool → Body
triple_seq1_body q = ref (subject q) then ref ignored then ref (predicate_object_list q)

unfoldable pub triple_seq2_body : Bool → Body
triple_seq2_body q =
    ref (blank_node_property_list q) then ref ignored then opt (ref (predicate_object_list q))

abbrev ignored_statement : Body
ignored_statement = ref ignored then ref statement

-- rep<10, …>.
abbrev ten_statements : Body
ten_statements =
    ignored_statement then ignored_statement then ignored_statement then ignored_statement
    then ignored_statement then ignored_statement then ignored_statement then ignored_statement
    then ignored_statement then ignored_statement

unfoldable pub grammar_body : Bool → Body
grammar_body q =
    if q
    then must (ref triples_block then eof)
    else (must (ref turtle_doc then eof) or (ref ignored then eof))

-- The body of a name.
unfoldable pub body : Name → Body
unfolding pn_local_esc_body hex_body percent_body plx_body pn_chars_base_body pn_chars_u_body
    pn_chars_body pn_local_body pn_prefix_body anon_ws_body anon_body uchar_body echar_body
    string_literal_long_quote_body string_literal_quote_body string_literal_single_quote_body
    string_literal_long_single_quote_body integer_body decimal_body exponent_body double_body
    langtag_body blank_node_label_body pname_ns_body pname_ln_body iriref_body comment_body
    ignored_body object_body object_list_body collection_body verb_body
    predicate_object_list_inner_body predicate_object_list_body blank_node_property_list_body
    subject_body triple_seq1_body triple_seq2_body grammar_body
body pn_local_esc = pn_local_esc_body
body hex = hex_body
body percent = percent_body
body plx = plx_body
body pn_chars_base = pn_chars_base_body
body pn_chars_u = pn_chars_u_body
body pn_chars = pn_chars_body
body pn_local = pn_local_body
body pn_prefix = pn_prefix_body
body anon_ws = anon_ws_body
body anon = anon_body
body uchar = uchar_body
body echar = echar_body
body string_literal_long_quote = string_literal_long_quote_body
body string_literal_quote = string_literal_quote_body
body string_literal_single_quote = string_literal_single_quote_body
body string_literal_long_single_quote = string_literal_long_single_quote_body
body integer = integer_body
body decimal = decimal_body
body exponent = exponent_body
body double = double_body
body langtag = langtag_body
body blank_node_label = blank_node_label_body
body pname_ns = pname_ns_body
body pname_ln = pname_ln_body
body iriref = iriref_body
body comment = comment_body
body ignored = ignored_body
body numeric_literal = ref double or ref decimal or ref integer
body turtle_string =
    ref string_literal_long_quote
    or ref string_literal_long_single_quote
    or ref string_literal_single_quote
    or ref string_literal_quote
body blank_node = ref blank_node_label or ref anon
body prefixed_name = ref pname_ln or ref pname_ns
body iri = ref iriref or ref prefixed_name
body prefix_id =
    str (codes "@prefix")
    then ref ignored
    then ref pname_ns
    then ref ignored
    then ref iriref
    then ref ignored
    then one (codes ".")
body sparql_prefix =
    one (codes "Pp")
    then one (codes "Rr")
    then one (codes "Ee")
    then one (codes "Ff")
    then one (codes "Ii")
    then one (codes "Xx")
    then ref ignored
    then ref pname_ns
    then ref ignored
    then ref iriref
body base =
    str (codes "@base") then ref ignored then ref iriref then ref ignored then one (codes ".")
body sparql_base =
    one (codes "Bb")
    then one (codes "Aa")
    then one (codes "Ss")
    then one (codes "Ee")
    then ref ignored
    then ref iriref
body directive = ref prefix_id or ref base or ref sparql_base or ref sparql_prefix
body rdf_literal_type_tag = str (codes "^^") then ref iri
body rdf_literal = ref turtle_string then opt (ref langtag or ref rdf_literal_type_tag)
body boolean_literal = str (codes "true") or str (codes "false")
body literal = ref rdf_literal or ref numeric_literal or ref boolean_literal
body term = ref literal or ref blank_node or ref iri
body varname =
    (ref pn_chars_u or digit)
    then star (
        ref pn_chars_u
        or digit
        or code_point ((183, 183) ∷ [])
        or code_point ((768, 879) ∷ [])
        or code_point ((8255, 8256) ∷ []))
body var1 = one (codes "?") then ref varname
body var2 = one (codes "$") then ref varname
body var = ref var1 or ref var2
body var_or_term = ref var or ref term
body (object q) = object_body q
body (object_list q) = object_list_body q
body (collection q) = collection_body q
body (verb q) = verb_body q
body (predicate_object_list_inner q) = predicate_object_list_inner_body q
body (predicate_object_list q) = predicate_object_list_body q
body (blank_node_property_list q) = blank_node_property_list_body q
body (subject q) = subject_body q
body (triple_seq1 q) = triple_seq1_body q
body (triple_seq2 q) = triple_seq2_body q
body (grammar q) = grammar_body q
body predicate = ref iri
body collection_begin = one (codes "(")
body verb_a = one (codes "a")
body blank_node_property_list_begin = one (codes "[")
body (triple q) = ref (triple_seq1 q) or ref (triple_seq2 q)
body (triple_extended q) = ref (triple q) then ref ignored then one (codes ".")
body statement = ref (triple_extended false) or ref directive
body statements_collection = ten_statements or ignored_statement
body turtle_doc = plus ignored_statement then ref ignored
body triples_block = plus (ref ignored then ref (triple_extended true)) then ref ignored
