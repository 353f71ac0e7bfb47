-- ===== src/States/Concurrent.antt =====
-- States/ConcurrentState.hpp: the derived state of the file parser. What its three members do is
-- spread over several atomic steps of the parsing thread (Parsers.File); here it is the sequence of
-- their calls that a parse makes.
use rdf_parser.Base.{List, [], ◌∷◌, ◌++◌, Bool}
use rdf_parser.States.Element.{TripleOf}
use rdf_parser.States.Machine.{Derived}

pub data Call (A : Type 0) : Type 0 where
  insert : A → Call A
  sync finish : Call A

unfoldable pub concurrent : (q : Bool) → Derived q (List (Call (TripleOf q)))
concurrent q = record {
  sync_with_main_thread_impl = λ calls. calls ++ sync ∷ [];
  insert_triple_impl = λ t calls. calls ++ insert t ∷ [];
  set_parsing_is_done_impl = λ calls. calls ++ finish ∷ [];
}

-- The triples that the calls hand over.
unfoldable pub inserted : {A : Type 0} → List (Call A) → List A
inserted [] = []
inserted (insert t ∷ p) = t ∷ inserted p
inserted (sync ∷ p) = inserted p
inserted (finish ∷ p) = inserted p

-- The calls for statements with these triples, and for a whole document.
unfoldable pub inserting : {A : Type 0} → List A → List (Call A) → List (Call A)
inserting [] p = p
inserting (t ∷ ts) p = insert t ∷ inserting ts p

unfoldable pub document_calls : {A : Type 0} → List (List A) → List (Call A)
unfolding inserting
document_calls [] = finish ∷ []
document_calls (ts ∷ tss) = inserting ts (sync ∷ document_calls tss)
