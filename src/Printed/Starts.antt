-- ===== src/Printed/Starts.antt =====
-- How the printed parts of a document begin.
use rdf_parser.Base.{◌≡◌, refl, ap, false, ◌++◌, some, inl, inr, Text}
use rdf_parser.Rdf.Term.{Term, uri_ref}
use rdf_parser.Rdf.Term.Equality.{RdfTerm, iri, blank, lit, shown, represent}
use rdf_parser.Grammar.Body.{body}
use rdf_parser.Grammar.Look.{head, look}
use rdf_parser.States.Machine.Syntax.{
  Object, term, anon, collection, property_list, Objects, end, more_objects, PredicateObjects, last,
  more, Triples, subject_first, list_alone, list_first,
}
use rdf_parser.Printed.Steps.{silent_name, Ended}
use rdf_parser.Printed.Syntax.{
  show_object, show_items, show_behind, show_predicates, IsWrittenTerm, IsIri, IsPrintable,
  IsPrintableList, IsPrintableAll, HasOne, show_objects, IsSubject, IsPrintableTriples,
  show_triples,
}
use rdf_parser.Printed.Blanks.{EndsBlanks}
use rdf_parser.Printed.Leaves.{identifier-shown}

shown_start : (a : RdfTerm) (rest : Text) → EndsBlanks (shown a ++ rest)
unfolding look body silent_name
shown_start (iri u) rest = refl
shown_start (blank l) rest = refl
shown_start (lit v t) rest = refl

pub term_start : (e : Term) (rest : Text) → IsWrittenTerm e → EndsBlanks (e.identifier ++ rest)
term_start e rest (a, h, g, n) = rw (identifier-shown a e rest h n) (shown_start a rest)

pub written_start :
    (o : Object false) (rest : Text) → IsPrintable o → EndsBlanks (show_object o rest)
unfolding show_object look body silent_name IsPrintable
written_start (term e) rest h = term_start e rest h
written_start anon rest h = refl
written_start (collection os) rest h = refl
written_start (property_list ps) rest h = refl

iri_start : (e : Term) (rest : Text) → IsIri e → head (e.identifier ++ rest) ≡ some b'<'
unfolding represent uri_ref
iri_start e rest (u, h, g) = ap head (identifier-shown (iri u) e rest h tt)

pub label_start :
    (e : Term) (l rest : Text) → represent (blank l) ≡ e → head (e.identifier ++ rest) ≡ some b'_'
label_start e l rest h = ap head (identifier-shown (blank l) e rest h tt)

pub predicates_start :
    (ps : PredicateObjects false) (rest : Text)
    → IsPrintableList ps
    → head (show_predicates ps rest) ≡ some b'<'
unfolding show_predicates IsPrintableList
predicates_start (last v os) rest h = iri_start v _ h.0
predicates_start (more v os ps) rest h = iri_start v _ h.0

pub predicates_EndsBlanks :
    (ps : PredicateObjects false) (rest : Text)
    → IsPrintableList ps
    → EndsBlanks (show_predicates ps rest)
unfolding look body silent_name
predicates_EndsBlanks ps rest h = rw (predicates_start ps rest h) refl

pub items_Ended : (os : Objects false) (rest : Text) → Ended rest → Ended (show_items os rest)
unfolding show_items
items_Ended end rest h = h
items_Ended (more_objects o os) rest h = refl

pub behind_Ended : (os : Objects false) (rest : Text) → Ended rest → Ended (show_behind os rest)
unfolding show_behind
behind_Ended end rest h = h
behind_Ended (more_objects o os) rest h = refl

pub objects_start :
    (os : Objects false) (rest : Text)
    → IsPrintableAll os
    → HasOne os
    → EndsBlanks (show_objects os rest)
unfolding show_objects IsPrintableAll HasOne
objects_start end rest h one = absurd one
objects_start (more_objects o os) rest h one = written_start o _ h.0

pub subject-IsPrintable : (o : Object false) → IsSubject o → IsPrintable o
unfolding IsSubject IsPrintable represent
subject-IsPrintable (term e) (inl (u, h, g)) = (iri u, h, g, tt)
subject-IsPrintable (term e) (inr (l, h, g)) = (blank l, h, g, tt)
subject-IsPrintable anon h = tt
subject-IsPrintable (collection os) h = h
subject-IsPrintable (property_list ps) h = absurd h

pub triples_start :
    (x : Triples false) (rest : Text) → IsPrintableTriples x → EndsBlanks (show_triples x rest)
unfolding show_triples IsPrintableTriples look body silent_name
triples_start (subject_first o ps) rest h = written_start o _ (subject-IsPrintable o h.0)
triples_start (list_alone bs) rest h = refl
triples_start (list_first bs ps) rest h = refl
