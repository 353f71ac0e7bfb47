-- ===== src/Printed/Labels.antt =====
-- BasicState.hpp and State.hpp: how many labels of blank nodes the parse of a printed document takes.
use rdf_parser.Base.{
  ℕ, suc, ◌+◌, ◌≤◌, ◌≡◌, refl, false, true, List, [], ◌∷◌, ◌++◌, Option, ok, length, length-append,
  Text, codes, arith,
}
use rdf_parser.Rdf.Term.{Term}
use rdf_parser.Grammar.Rule.{Rule}
use rdf_parser.Grammar.Names
use rdf_parser.Grammar.Names.{Name}
use rdf_parser.Grammar.Bytes.{IsByteWise}
use rdf_parser.Grammar.Match.{Leaves}
use rdf_parser.States.Basic.{next_int}
use rdf_parser.States.Machine.{State, initial_state}
use rdf_parser.States.Machine.Syntax.{
  Object, term, anon, collection, property_list, Objects, end, more_objects, PredicateObjects, last,
  more, Triples, subject_first, list_alone, list_first, chain, cells, object_meaning,
  objects_meaning, predicates_meaning, triples_meaning,
}
use rdf_parser.States.Documents.{
  labels_after, OneListEachStatements, document_effect, initial-IsIdle,
}
use rdf_parser.States.Sequential.{Queue, sequential}
use rdf_parser.Actions.Table.{action}
use rdf_parser.Parsers.Parsable.{parse_grammar, parse_rule-Match}
use rdf_parser.Printed.Syntax.{
  show_object, show_items, show_behind, show_objects, show_predicates, show_triples, show_document,
  IsPrintableDocument,
}
use rdf_parser.Printed.Documents.{document_Reads, initial-Like}

-- An int that wraps around is no larger than one that does not.
next_int_le : (n : ℕ) → next_int n ≤ n + 1
unfolding next_int
next_int_le n = omega arith

-- The cells of a collection take a label for each object, and those of an empty one a label.
chain_labels : (es : List Term) (n : ℕ) → (chain false es n).2 ≤ n + length es
unfolding chain
chain_labels [] n = omega arith
chain_labels (e ∷ es) n = omega (arith, chain_labels es n, next_int_le (chain false es n).2)

cells_labels : (es : List Term) (n : ℕ) → (cells false es n).2 ≤ n + suc (length es)
unfolding cells
cells_labels [] n = omega (arith, next_int_le n)
cells_labels (e ∷ es) n = omega (arith, chain_labels (e ∷ es) n)

-- What stands behind a text is the shorter of the two.
behind_shorter : (s t : Text) → length t ≤ length (s ++ t)
behind_shorter s t = omega (arith, length-append s t)

-- The labels from n to m are no more than the bytes from one text to the text behind it.
abbrev Fewer : ℕ → ℕ → Text → Text → Type 0
Fewer n m text rest = m + length rest ≤ n + length text

-- Each part takes no more labels than it is long; and in a collection there is a byte left for
-- each object.
mutual
  unfolding object_meaning objects_meaning predicates_meaning show_object show_items show_behind
      show_objects show_predicates

  show_object-Fewer :
      (o : Object false) (n : ℕ) (rest : Text)
      → Fewer n (object_meaning o n).2 (show_object o rest) rest
  show_object-Fewer (term e) n rest = omega (arith, behind_shorter e.identifier rest)
  show_object-Fewer anon n rest = omega (arith, next_int_le n)
  show_object-Fewer (collection os) n rest = omega (
    arith,
    show_items-Fewer os n (codes " )" ++ rest),
    cells_labels (objects_meaning os n).0 (objects_meaning os n).2,
  )
  show_object-Fewer (property_list ps) n rest = omega (
    arith,
    next_int_le (predicates_meaning ps n).2,
    show_predicates-Fewer ps n (codes " ]" ++ rest),
  )

  show_items-Fewer :
      (os : Objects false) (n : ℕ) (rest : Text)
      → Fewer n
          ((objects_meaning os n).2 + length (objects_meaning os n).0)
          (show_items os rest)
          rest
  show_items-Fewer end n rest = omega arith
  show_items-Fewer (more_objects o os) n rest = omega (
    arith,
    show_object-Fewer o n (show_items os rest),
    show_items-Fewer os (object_meaning o n).2 rest,
  )

  show_behind-Fewer :
      (os : Objects false) (n : ℕ) (rest : Text)
      → Fewer n (objects_meaning os n).2 (show_behind os rest) rest
  show_behind-Fewer end n rest = omega arith
  show_behind-Fewer (more_objects o os) n rest = omega (
    arith,
    show_object-Fewer o n (show_behind os rest),
    show_behind-Fewer os (object_meaning o n).2 rest,
  )

  show_objects-Fewer :
      (os : Objects false) (n : ℕ) (rest : Text)
      → Fewer n (objects_meaning os n).2 (show_objects os rest) rest
  show_objects-Fewer end n rest = omega arith
  show_objects-Fewer (more_objects o os) n rest = omega (
    arith,
    show_object-Fewer o n (show_behind os rest),
    show_behind-Fewer os (object_meaning o n).2 rest,
  )

  show_predicates-Fewer :
      (ps : PredicateObjects false) (n : ℕ) (rest : Text)
      → Fewer n (predicates_meaning ps n).2 (show_predicates ps rest) rest
  show_predicates-Fewer (last v os) n rest = omega (
    arith,
    show_objects-Fewer os n rest,
    behind_shorter v.identifier (codes " " ++ show_objects os rest),
  )
  show_predicates-Fewer (more v os ps) n rest =
      let others = codes " ; " ++ show_predicates ps rest in
      omega (
        arith,
        show_objects-Fewer os n others,
        show_predicates-Fewer ps (objects_meaning os n).2 rest,
        behind_shorter v.identifier (codes " " ++ show_objects os others),
      )

show_triples-Fewer :
    (x : Triples false) (n : ℕ) (rest : Text)
    → Fewer n (triples_meaning x n).1 (show_triples x rest) rest
unfolding triples_meaning show_triples object_meaning next_int
show_triples-Fewer (subject_first o ps) n rest = omega (
  arith,
  show_object-Fewer o n (codes " " ++ show_predicates ps rest),
  show_predicates-Fewer ps (object_meaning o n).2 rest,
)
show_triples-Fewer (list_alone bs) n rest =
    omega (arith, show_predicates-Fewer bs n (codes " ]" ++ rest))
show_triples-Fewer (list_first bs ps) n rest = omega (
  arith,
  show_predicates-Fewer bs n (codes " ] " ++ show_predicates ps rest),
  show_predicates-Fewer ps (object_meaning (property_list bs) n).2 rest,
)

labels_after_le :
    (xs : List (Triples false)) (n : ℕ) → labels_after xs n ≤ n + length (show_document xs)
unfolding labels_after show_document
labels_after_le [] n = omega arith
labels_after_le (x ∷ xs) n = omega (
  arith,
  show_triples-Fewer x n (codes " ." ++ 10 ∷ show_document xs),
  labels_after_le xs (triples_meaning x n).1,
)

module _ (leaf : Rule Name → Text → Option Text) (b : Leaves leaf) (w : IsByteWise leaf) where
  -- For every printable document of triples that is not empty, in which every verb has at most one
  -- property list among its objects. Printable is: its terms are IRIs without an escape; blank nodes
  -- whose label has only single-byte label characters and no dot; and literals in double quotes
  -- without an escape, plain, with a data type, or with a language of ASCII letters alone. Its verbs
  -- are IRIs with an object, and its subjects are IRIs, blank nodes, collections or property lists.
  -- The parse of the text that the document is printed as matches, and the int that counts labels,
  -- which starts at 1 and of which each fresh blank node and each cell of a collection takes a value,
  -- ends at no more than the number of bytes of the text.
  pub printed_labels :
      (x : Triples false) (xs : List (Triples false))
      → IsPrintableDocument (x ∷ xs)
      → OneListEachStatements (x ∷ xs)
      → (s : State false (Queue false)) × (parse_grammar leaf b false
            (show_document (x ∷ xs))
            (initial_state [])
          ≡ ok (true, s))
        × (s.basic.latest_bn_label ≤ length (show_document (x ∷ xs)))
  unfolding parse_grammar initial_state labels_after show_document
  printed_labels x xs h o =
      let (u, r, d, free) =
        document_effect (sequential false) (x ∷ xs) (initial_state []) o refl (initial-IsIdle []) in
      let (b', l, m) =
        document_Reads (sequential false) leaf w x xs (initial_state []) u h r
          (initial_state {q = false} {D = Queue false} []).basic initial-Like in
      (
        record u { basic = b' },
        parse_rule-Match leaf b (action (sequential false)) (Names.grammar false)
            (show_document (x ∷ xs)) (initial_state []) m,
        omega (
          arith,
          l.label,
          free,
          show_triples-Fewer x 1 (codes " ." ++ 10 ∷ show_document xs),
          labels_after_le xs (triples_meaning x 1).1,
        ),
      )
