-- ===== src/Grammar/Progress.antt =====
-- Grammar.hpp: what the library's analysis looks at. Whether a rule can match without consuming,
-- whether loops are on rules that consume, and which names a rule can come to before it consumes.
use rdf_parser.Base.{ℕ, ◌≡◌, refl, Bool, true, false, not, ◌&&◌, ◌||◌, [], ◌∷◌, ltb, if◌then◌else◌}
use rdf_parser.Grammar.Rule.{
  Rule, eps, any, eof, one, none_of, between, code_point, str, ref, ◌then◌, ◌or◌, minus, opt, star,
  plus, must,
}
use rdf_parser.Grammar.Names.{
  Name, pn_local_esc, hex, percent, plx, pn_chars_base, pn_chars_u, pn_chars, pn_local, pn_prefix,
  anon_ws, anon, uchar, echar, string_literal_long_quote, string_literal_quote,
  string_literal_single_quote, string_literal_long_single_quote, integer, decimal, exponent, double,
  langtag, blank_node_label, pname_ns, pname_ln, iriref, comment, ignored, numeric_literal,
  turtle_string, blank_node, prefixed_name, iri, prefix_id, sparql_prefix, base, sparql_base,
  directive, rdf_literal_type_tag, rdf_literal, boolean_literal, literal, term, varname, var1, var2,
  var, var_or_term, object, object_list, predicate, collection_begin, collection, verb_a, verb,
  predicate_object_list_inner, predicate_object_list, blank_node_property_list_begin,
  blank_node_property_list, subject, triple_seq1, triple_seq2, triple, triple_extended, statement,
  statements_collection, turtle_doc, triples_block, grammar,
}
use rdf_parser.Grammar.Body.{body}

module _ {N : Type 0} (empty_name : N → Bool) where
  -- Whether a rule can match without consuming anything.
  unfoldable pub can_be_empty : Rule N → Bool
  can_be_empty eps = true
  can_be_empty any = false
  can_be_empty eof = true
  can_be_empty (one cs) = false
  can_be_empty (none_of cs) = false
  can_be_empty (between ps) = false
  can_be_empty (code_point ps) = false
  can_be_empty (str []) = true
  can_be_empty (str (c ∷ cs)) = false
  can_be_empty (ref n) = empty_name n
  can_be_empty (r then s) = can_be_empty r && can_be_empty s
  can_be_empty (r or s) = can_be_empty r || can_be_empty s
  can_be_empty (minus r s) = can_be_empty r
  can_be_empty (opt r) = true
  can_be_empty (star r) = true
  can_be_empty (plus r) = can_be_empty r
  can_be_empty (must r) = can_be_empty r

  -- Whether every loop consumes.
  unfoldable pub loops_consume : Rule N → Bool
  unfolding can_be_empty
  loops_consume (ref n) = true
  loops_consume (r then s) = loops_consume r && loops_consume s
  loops_consume (r or s) = loops_consume r && loops_consume s
  loops_consume (minus r s) = loops_consume r && loops_consume s
  loops_consume (opt r) = loops_consume r
  loops_consume (star r) = not (can_be_empty r) && loops_consume r
  loops_consume (plus r) = not (can_be_empty r) && loops_consume r
  loops_consume (must r) = loops_consume r
  loops_consume _ = true

  -- Whether the names that a rule can come to before it has consumed anything have a rank below k.
  unfoldable pub starts_below : (N → ℕ) → ℕ → Rule N → Bool
  unfolding can_be_empty
  starts_below rank k (ref n) = ltb (rank n) k
  starts_below rank k (r then s) =
      starts_below rank k r && (not (can_be_empty r) || starts_below rank k s)
  starts_below rank k (r or s) = starts_below rank k r && starts_below rank k s
  starts_below rank k (minus r s) = starts_below rank k r && starts_below rank k s
  starts_below rank k (opt r) = starts_below rank k r
  starts_below rank k (star r) = starts_below rank k r
  starts_below rank k (plus r) = starts_below rank k r
  starts_below rank k (must r) = starts_below rank k r
  starts_below rank k _ = true

-- The rules that can match without consuming.
unfoldable pub empty_name : Name → Bool
empty_name ignored = true
empty_name (grammar q) = not q
empty_name _ = false

unfoldable pub rank : Name → ℕ
rank plx = 1
rank pn_chars_u = 1
rank pn_prefix = 1
rank ignored = 1
rank numeric_literal = 1
rank turtle_string = 1
rank blank_node = 1
rank directive = 1
rank var = 1
rank (collection q) = 1
rank (blank_node_property_list q) = 1
rank pn_chars = 2
rank pn_local = 2
rank pname_ns = 2
rank rdf_literal = 2
rank varname = 2
rank (triple_seq2 q) = 2
rank pname_ln = 3
rank literal = 3
rank prefixed_name = 4
rank iri = 5
rank term = 6
rank predicate = 6
rank var_or_term = 7
rank (verb q) = 7
rank (object q) = 8
rank (predicate_object_list_inner q) = 8
rank (subject q) = 8
rank (object_list q) = 9
rank (predicate_object_list q) = 9
rank (triple_seq1 q) = 9
rank (triple q) = 10
rank (triple_extended q) = 11
rank statement = 12
rank statements_collection = 13
rank turtle_doc = 13
rank triples_block = 13
rank (grammar q) = 14
rank _ = 0

-- For every rule of the grammar: it is one of the two that can match without consuming exactly when
-- its body can; its loops all consume; and the rules that it can come to before it has consumed
-- anything have a smaller rank, so that none comes back to itself.
pub body-progress :
    (n : Name)
    → (can_be_empty empty_name (body n) ≡ empty_name n)
      × (loops_consume empty_name (body n) ≡ true)
      × (starts_below empty_name rank (rank n) (body n) ≡ true)
unfolding body can_be_empty loops_consume starts_below empty_name rank
body-progress pn_local_esc = (refl, refl, refl)
body-progress hex = (refl, refl, refl)
body-progress percent = (refl, refl, refl)
body-progress plx = (refl, refl, refl)
body-progress pn_chars_base = (refl, refl, refl)
body-progress pn_chars_u = (refl, refl, refl)
body-progress pn_chars = (refl, refl, refl)
body-progress pn_local = (refl, refl, refl)
body-progress pn_prefix = (refl, refl, refl)
body-progress anon_ws = (refl, refl, refl)
body-progress anon = (refl, refl, refl)
body-progress uchar = (refl, refl, refl)
body-progress echar = (refl, refl, refl)
body-progress string_literal_long_quote = (refl, refl, refl)
body-progress string_literal_quote = (refl, refl, refl)
body-progress string_literal_single_quote = (refl, refl, refl)
body-progress string_literal_long_single_quote = (refl, refl, refl)
body-progress integer = (refl, refl, refl)
body-progress decimal = (refl, refl, refl)
body-progress exponent = (refl, refl, refl)
body-progress double = (refl, refl, refl)
body-progress langtag = (refl, refl, refl)
body-progress blank_node_label = (refl, refl, refl)
body-progress pname_ns = (refl, refl, refl)
body-progress pname_ln = (refl, refl, refl)
body-progress iriref = (refl, refl, refl)
body-progress comment = (refl, refl, refl)
body-progress ignored = (refl, refl, refl)
body-progress numeric_literal = (refl, refl, refl)
body-progress turtle_string = (refl, refl, refl)
body-progress blank_node = (refl, refl, refl)
body-progress prefixed_name = (refl, refl, refl)
body-progress iri = (refl, refl, refl)
body-progress prefix_id = (refl, refl, refl)
body-progress sparql_prefix = (refl, refl, refl)
body-progress base = (refl, refl, refl)
body-progress sparql_base = (refl, refl, refl)
body-progress directive = (refl, refl, refl)
body-progress rdf_literal_type_tag = (refl, refl, refl)
body-progress rdf_literal = (refl, refl, refl)
body-progress boolean_literal = (refl, refl, refl)
body-progress literal = (refl, refl, refl)
body-progress term = (refl, refl, refl)
body-progress varname = (refl, refl, refl)
body-progress var1 = (refl, refl, refl)
body-progress var2 = (refl, refl, refl)
body-progress var = (refl, refl, refl)
body-progress var_or_term = (refl, refl, refl)
body-progress (object true) = (refl, refl, refl)
body-progress (object false) = (refl, refl, refl)
body-progress (object_list true) = (refl, refl, refl)
body-progress (object_list false) = (refl, refl, refl)
body-progress predicate = (refl, refl, refl)
body-progress collection_begin = (refl, refl, refl)
body-progress (collection true) = (refl, refl, refl)
body-progress (collection false) = (refl, refl, refl)
body-progress verb_a = (refl, refl, refl)
body-progress (verb true) = (refl, refl, refl)
body-progress (verb false) = (refl, refl, refl)
body-progress (predicate_object_list_inner true) = (refl, refl, refl)
body-progress (predicate_object_list_inner false) = (refl, refl, refl)
body-progress (predicate_object_list true) = (refl, refl, refl)
body-progress (predicate_object_list false) = (refl, refl, refl)
body-progress blank_node_property_list_begin = (refl, refl, refl)
body-progress (blank_node_property_list true) = (refl, refl, refl)
body-progress (blank_node_property_list false) = (refl, refl, refl)
body-progress (subject true) = (refl, refl, refl)
body-progress (subject false) = (refl, refl, refl)
body-progress (triple_seq1 true) = (refl, refl, refl)
body-progress (triple_seq1 false) = (refl, refl, refl)
body-progress (triple_seq2 true) = (refl, refl, refl)
body-progress (triple_seq2 false) = (refl, refl, refl)
body-progress (triple true) = (refl, refl, refl)
body-progress (triple false) = (refl, refl, refl)
body-progress (triple_extended true) = (refl, refl, refl)
body-progress (triple_extended false) = (refl, refl, refl)
body-progress statement = (refl, refl, refl)
body-progress statements_collection = (refl, refl, refl)
body-progress turtle_doc = (refl, refl, refl)
body-progress triples_block = (refl, refl, refl)
body-progress (grammar true) = (refl, refl, refl)
body-progress (grammar false) = (refl, refl, refl)
