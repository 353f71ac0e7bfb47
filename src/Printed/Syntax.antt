-- ===== src/Printed/Syntax.antt =====
-- Grammar.hpp: how a syntax tree of triples is written, each function in front of the text that
-- follows, and the trees that the grammar can read back.
use rdf_parser.Base.{◌≡◌, ◌⊎◌, false, List, [], ◌∷◌, ◌++◌, Text, codes}
use rdf_parser.Rdf.Term.{Term, uri_ref}
use rdf_parser.Rdf.Term.Equality.{RdfTerm, blank, represent, IsNormal}
use rdf_parser.States.Machine.Syntax.{
  Object, term, anon, collection, property_list, Objects, end, more_objects, PredicateObjects, last,
  more, Triples, subject_first, list_alone, list_first,
}
use rdf_parser.Printed.Tokens.{IriText, LabelText}
use rdf_parser.Printed.Terms.{IsWritten}

-- Objects behind a verb have commas between them, objects of a collection a space before each.
unfoldable mutual
  pub show_object : Object false → Text → Text
  show_object (term e) rest = e.identifier ++ rest
  show_object anon rest = codes "[]" ++ rest
  show_object (collection os) rest = codes "(" ++ show_items os (codes " )" ++ rest)
  show_object (property_list ps) rest = codes "[ " ++ show_predicates ps (codes " ]" ++ rest)

  pub show_items : Objects false → Text → Text
  show_items end rest = rest
  show_items (more_objects o os) rest = codes " " ++ show_object o (show_items os rest)

  pub show_behind : Objects false → Text → Text
  show_behind end rest = rest
  show_behind (more_objects o os) rest = codes " , " ++ show_object o (show_behind os rest)

  pub show_objects : Objects false → Text → Text
  show_objects end rest = rest
  show_objects (more_objects o os) rest = show_object o (show_behind os rest)

  pub show_predicates : PredicateObjects false → Text → Text
  show_predicates (last v os) rest = v.identifier ++ (codes " " ++ show_objects os rest)
  show_predicates (more v os ps) rest =
      v.identifier ++ (codes " " ++ show_objects os (codes " ; " ++ show_predicates ps rest))

unfoldable pub show_triples : Triples false → Text → Text
unfolding show_object show_predicates
show_triples (subject_first o ps) rest = show_object o (codes " " ++ show_predicates ps rest)
show_triples (list_alone bs) rest = codes "[ " ++ show_predicates bs (codes " ]" ++ rest)
show_triples (list_first bs ps) rest =
    codes "[ " ++ show_predicates bs (codes " ] " ++ show_predicates ps rest)

-- A line for each statement.
unfoldable pub show_document : List (Triples false) → Text
unfolding show_triples
show_document [] = []
show_document (x ∷ xs) = show_triples x (codes " ." ++ 10 ∷ show_document xs)

-- A term that is written as its identifier, and one that is an IRI.
abbrev pub IsWrittenTerm : Term → Type 0
IsWrittenTerm e = (a : RdfTerm) × (represent a ≡ e) × IsWritten a × IsNormal a

abbrev pub IsIri : Term → Type 0
IsIri e = (u : Text) × (uri_ref u ≡ e) × IriText u

-- Verbs are IRIs and have an object; objects are written terms.
unfoldable mutual
  pub IsPrintable : Object false → Type 0
  IsPrintable (term e) = IsWrittenTerm e
  IsPrintable anon = Unit
  IsPrintable (collection os) = IsPrintableAll os
  IsPrintable (property_list ps) = IsPrintableList ps

  pub IsPrintableAll : Objects false → Type 0
  IsPrintableAll end = Unit
  IsPrintableAll (more_objects o os) = IsPrintable o × IsPrintableAll os

  pub IsPrintableList : PredicateObjects false → Type 0
  IsPrintableList (last v os) = IsIri v × IsPrintableAll os × HasOne os
  IsPrintableList (more v os ps) = IsIri v × (IsPrintableAll os × HasOne os) × IsPrintableList ps

  pub HasOne : Objects false → Type 0
  HasOne end = ⊥
  HasOne (more_objects o os) = Unit

-- A subject is an IRI, a blank node or a collection.
abbrev pub IsResource : Term → Type 0
IsResource e = IsIri e ⊎ ((l : Text) × (represent (blank l) ≡ e) × LabelText l)

unfoldable pub IsSubject : Object false → Type 0
unfolding IsPrintable
IsSubject (term e) = IsResource e
IsSubject anon = Unit
IsSubject (collection os) = IsPrintableAll os
IsSubject (property_list ps) = ⊥

unfoldable pub IsPrintableTriples : Triples false → Type 0
unfolding IsSubject IsPrintable
IsPrintableTriples (subject_first o ps) = IsSubject o × IsPrintableList ps
IsPrintableTriples (list_alone bs) = IsPrintableList bs
IsPrintableTriples (list_first bs ps) = IsPrintableList bs × IsPrintableList ps

unfoldable pub IsPrintableDocument : List (Triples false) → Type 0
unfolding IsPrintableTriples
IsPrintableDocument [] = Unit
IsPrintableDocument (x ∷ xs) = IsPrintableTriples x × IsPrintableDocument xs
