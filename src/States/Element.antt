-- ===== src/States/Element.antt =====
-- `Element_t` and `Triple_t`: a term of a document, or a variable or term of a query, chosen by
-- the template argument `sparqlQuery`.
use rdf_parser.Base.{Bool, true, false, Text}
use rdf_parser.Rdf.Term.{Term, default_term, bnode}
use rdf_parser.Rdf.Triple.{AbstractTriple}
use rdf_parser.Sparql.Variable.{variable}
use rdf_parser.Sparql.TriplePattern.{VarOrTerm, var, term, default_var_or_term}

abbrev pub Element : Bool → Type 0
Element false = Term
Element true = VarOrTerm

-- `Element_t()`.
unfoldable pub default_element : (q : Bool) → Element q
default_element false = default_term
default_element true = default_var_or_term

-- The conversion of a term to an element.
unfoldable pub of_term : (q : Bool) → Term → Element q
of_term false t = t
of_term true t = term t

abbrev pub TripleOf : Bool → Type 0
TripleOf q = AbstractTriple (Element q)

-- The element of `BlankNode`: a node in a document, a variable in a query.
unfoldable pub blank_element : (q : Bool) → Text → Element q
blank_element false label = bnode label
blank_element true label = var (variable label false)
