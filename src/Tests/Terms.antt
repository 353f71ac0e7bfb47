-- ===== src/Tests/Terms.antt =====
-- Terms: include/Dice/RDF/Term.hpp at concrete terms.
use rdf_parser.Base.{
  ◌≡◌, ◌↔◌, ◌⊎◌, refl, true, false, not, none, some, arith, length, ◌==◌, codes, text_eq,
}
use rdf_parser.Rdf.Term.{
  value, lang, data_type, has_lang, has_data_type, literal, uri_ref, term_eq, term_ne, term_lt,
  term_gt, xsd_string,
}
use rdf_parser.Rdf.Term.Views.{lang_of, data_type_of, literal_views}
use rdf_parser.Rdf.Term.Equality.{RdfTerm, iri, lit, language, represent, term_eq-represent}
use rdf_parser.Rdf.Term.Order.{term_lt_trichotomy}

literal_views_example :
    (value (literal (codes "chat") (some (codes "fr")) none) ≡ codes "chat")
    × (lang (literal (codes "chat") (some (codes "fr")) none) ≡ lang_of (some (codes "fr")))
    × (data_type (literal (codes "chat") (some (codes "fr")) none)
        ≡ data_type_of (some (codes "fr")) none)
    × (has_lang (literal (codes "chat") (some (codes "fr")) none)
        ≡ not (length (lang_of (some (codes "fr"))) == 0))
    × (has_data_type (literal (codes "chat") (some (codes "fr")) none)
        ≡ not (length (data_type_of (some (codes "fr")) none) == 0))
literal_views_example = literal_views (codes "chat") (some (codes "fr")) none

abbrev chat : RdfTerm
chat = lit (codes "chat") (language (codes "fr"))

term_eq-represent_example :
    (term_eq (represent chat) (represent (iri (codes "chat"))) ≡ true) ↔ (chat ≡ iri (codes "chat"))
term_eq-represent_example = term_eq-represent chat (iri (codes "chat")) (omega arith) tt

term_lt_trichotomy_example :
    (((term_eq (uri_ref (codes "a")) (uri_ref (codes "b")) ≡ true)
        × (term_lt (uri_ref (codes "a")) (uri_ref (codes "b")) ≡ false)
        × (term_gt (uri_ref (codes "a")) (uri_ref (codes "b")) ≡ false))
      ⊎ (((term_eq (uri_ref (codes "a")) (uri_ref (codes "b")) ≡ false)
            × (term_lt (uri_ref (codes "a")) (uri_ref (codes "b")) ≡ true)
            × (term_gt (uri_ref (codes "a")) (uri_ref (codes "b")) ≡ false))
          ⊎ ((term_eq (uri_ref (codes "a")) (uri_ref (codes "b")) ≡ false)
              × (term_lt (uri_ref (codes "a")) (uri_ref (codes "b")) ≡ false)
              × (term_gt (uri_ref (codes "a")) (uri_ref (codes "b")) ≡ true))))
    × (term_ne (uri_ref (codes "a")) (uri_ref (codes "b"))
        ≡ not (term_eq (uri_ref (codes "a")) (uri_ref (codes "b"))))
term_lt_trichotomy_example = term_lt_trichotomy (uri_ref (codes "a")) (uri_ref (codes "b"))

-- A data type of xsd:string is left off, as the tests of the program expect.
string_type_left_off : (literal (codes "text") none (some xsd_string)).identifier ≡ codes "\"text\""
unfolding literal text_eq
string_type_left_off = refl

integer_shown :
    (literal (codes "-5") none (some (codes "http://www.w3.org/2001/XMLSchema#integer"))).identifier
    ≡ codes "\"-5\"^^<http://www.w3.org/2001/XMLSchema#integer>"
unfolding literal text_eq
integer_shown = refl
