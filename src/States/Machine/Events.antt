-- ===== src/States/Machine/Events.antt =====
-- Actions/Actions.hpp: the actions on the rules that join terms, as events in the order in which
-- a parse causes them, and the order that the grammar gives them. A rule's action runs when the
-- rule has matched, so behind the actions of its parts.
use mathlib.Core.Path.{fun_ext}
use rdf_parser.Base.{◌≡◌, refl, Bool, List, [], ◌∷◌, ◌++◌, Option, none, some}
use rdf_parser.States.Element.{Element, blank_element}
use rdf_parser.States.Basic.{create_blank_node_label}
use rdf_parser.States.Machine.{
  Derived, State, sync_with_main_thread, set_parsing_is_done, set_machine_element,
  clear_triple_parameters, set_machine_subject, process_verb, process_collection,
  process_blank_node_property_list, process_predicate_object_list_inner, process_triple_seq,
  move_bnpl_collection_list_into_stack, push_current_term_into_bnpl_collection_list,
}

-- `leaf` and `anon` stand for the actions below a term: they leave its element, and the second
-- takes a fresh label. The others are named after the rule whose action they are.
pub data Event (q : Bool) : Type 0 where
  leaf : Element q → Event q
  anon : Event q
  statement triple triple_seq1 triple_seq2 subject verb object : Event q
  collection_begin collection property_list_begin property_list inner turtle_doc : Event q

abbrev pub and_then {ℓ κ} : {A : Type ℓ} {B : Type κ} → Option A → (A → Option B) → Option B
and_then none f = none
and_then (some a) f = f a

and_then_assoc {ℓ} :
    {A : Type ℓ} (o : Option A) (f g : A → Option A)
    → and_then o (λ a. and_then (f a) g) ≡ and_then (and_then o f) g
and_then_assoc none f g = refl
and_then_assoc (some a) f g = refl

module _ {q : Bool} {D : Type 0} (k : Derived q D) where
  unfoldable pub take_anon : State q D → State q D
  unfolding create_blank_node_label
  take_anon s =
      let (label, b) = create_blank_node_label s.basic in
      record s { basic = record b { blank_node_string = label; element = blank_element q label } }

  -- `none` is the undefined behaviour of an empty stack.
  unfoldable pub perform : Event q → State q D → Option (State q D)
  unfolding take_anon sync_with_main_thread clear_triple_parameters process_triple_seq
      set_machine_subject process_verb push_current_term_into_bnpl_collection_list
      move_bnpl_collection_list_into_stack process_collection process_blank_node_property_list
      process_predicate_object_list_inner set_parsing_is_done
  perform (leaf e) s = some (set_machine_element k e s)
  perform anon s = some (take_anon s)
  perform statement s = some (sync_with_main_thread k s)
  perform triple s = some (clear_triple_parameters k s)
  perform triple_seq1 s = some (process_triple_seq k s)
  perform triple_seq2 s = some (process_triple_seq k (set_machine_subject k s.first_bnpl s))
  perform subject s = some (set_machine_subject k s.basic.element s)
  perform verb s = some (process_verb k s)
  perform object s = some (push_current_term_into_bnpl_collection_list k s)
  perform collection_begin s = some (move_bnpl_collection_list_into_stack k s)
  perform collection s = process_collection k s
  perform property_list_begin s = some (move_bnpl_collection_list_into_stack k s)
  perform property_list s = process_blank_node_property_list k s
  perform inner s = process_predicate_object_list_inner k s
  perform turtle_doc s = some (set_parsing_is_done k s)

  unfoldable pub run : List (Event q) → State q D → Option (State q D)
  unfolding perform
  run [] s = some s
  run (e ∷ es) s = and_then (perform e s) (run es)

  pub run-append :
      (xs ys : List (Event q)) (s : State q D) → run (xs ++ ys) s ≡ and_then (run xs s) (run ys)
  unfolding run
  run-append [] ys s = refl
  run-append (e ∷ es) ys s =
      rw (fun_ext (run-append es ys)) (and_then_assoc (perform e s) (run es) (run ys))

  -- The events of a part, and those behind it.
  pub run_through :
      (xs ys : List (Event q)) (s t : State q D) {u : State q D}
      → run xs s ≡ some t
      → run ys t ≡ some u
      → run (xs ++ ys) s ≡ some u
  run_through xs ys s t h g = rw (run-append xs ys s, h) g

  pub run_cons :
      (e : Event q) (es : List (Event q)) (s t : State q D) {u : State q D}
      → perform e s ≡ some t
      → run es t ≡ some u
      → run (e ∷ es) s ≡ some u
  unfolding run
  run_cons e es s t h g = rw h g

  pub run_behind :
      (xs : List (Event q)) (e : Event q) (s t : State q D) {u : State q D}
      → run xs s ≡ some t
      → perform e t ≡ some u
      → run (xs ++ e ∷ []) s ≡ some u
  unfolding run
  run_behind xs e s t h g = run_through xs (e ∷ []) s t h (rw g)
