-- ===== src/Printed/Lists.antt =====
-- Grammar.hpp with Actions.hpp: one round of the loops: a printed collection, a property list, an
-- object and a verb, when their parts are read.
use rdf_parser.Base.{ℕ, ◌≡◌, refl, false, [], ◌∷◌, ◌++◌, Option, some, Text, codes}
use rdf_parser.Rdf.Term.{Term}
use rdf_parser.Grammar.Rule.{Rule, ref, star}
use rdf_parser.Grammar.Names
use rdf_parser.Grammar.Names.{Name, ignored}
use rdf_parser.Grammar.Body.{body}
use rdf_parser.Grammar.Bytes.{IsByteWise}
use rdf_parser.Grammar.Match.{Outcome, then_on, or_first}
use rdf_parser.Grammar.Look.{look}
use rdf_parser.States.Machine.{Derived, State}
use rdf_parser.States.Machine.Syntax.{
  Object, Objects, PredicateObjects, events_object, events_objects, events_predicates,
}
use rdf_parser.States.Machine.Events.{Event, perform, run}
use rdf_parser.Actions.Table.{basic_action, joining_action}
use rdf_parser.Printed.Steps.{silent_name}
use rdf_parser.Printed.Runs.{run_first, run_parts}
use rdf_parser.Printed.Like.{with_basic}
use rdf_parser.Printed.Syntax.{
  show_object, show_items, show_behind, show_objects, show_predicates, IsIri, IsPrintableList,
}
use rdf_parser.Printed.Starts.{predicates_EndsBlanks}
use rdf_parser.Printed.Blanks.{P, EndsBlanks, takes_one, quiet_rule, one_blank, joins}
use rdf_parser.Printed.Leaves.{iri_Reads}
use rdf_parser.Printed.Loops.{
  another_object, another_item, ReadsTo, ReadsVerbs, ReadsObjects, finish, object_joins, last_event,
}

module _ {D : Type 0} (k : Derived false D) (leaf : Rule Name → Text → Option Text)
    (w : IsByteWise leaf) where
  abbrev M : Rule Name → Text → State false D → Outcome (State false D) → Type 0
  M = P k leaf w

  pub collection_Reads :
      (os : Objects false) (rest : Text) (s u : State false D)
      → ((v x : State false D)
          → run k (events_objects os) v ≡ some x
          → ReadsTo k leaf w
              (star another_item)
              (show_items os (32 ∷ b')' ∷ rest))
              (32 ∷ b')' ∷ rest)
              v
              x)
      → run k (Event.collection_begin ∷ (events_objects os ++ Event.collection ∷ [])) s ≡ some u
      → ReadsTo k leaf w
          (ref (Names.collection false))
          (b'(' ∷ show_items os (32 ∷ b')' ∷ rest))
          rest
          s
          u
  unfolding body look silent_name basic_action joining_action perform
  collection_Reads os rest s u h r b l =
      let (s₁, r₁, r₂) = run_first k Event.collection_begin _ s u r in
      let (s₂, r₃, r₄) = run_parts k (events_objects os) (Event.collection ∷ []) s₁ u r₂ in
      let items = show_items os (32 ∷ b')' ∷ rest) in
      let (b₁, l₁, m₁) =
        joins k leaf w Names.collection_begin Event.collection_begin (b'(' ∷ items) items
          (with_basic k b s) s s₁ b refl tt l r₁ (takes_one k leaf w _ _ _ _ refl) in
      let (b₂, l₂, m₂) = h s₁ s₂ r₃ b₁ l₁ in
      joins k leaf w (Names.collection false) Event.collection (b'(' ∷ items) rest
        (with_basic k b s) s₂ u b₂ refl tt l₂ (last_event k leaf w Event.collection s₂ u r₄)
        (then_on m₁ (
          then_on m₂ (
            then_on (one_blank k leaf w 32 (b')' ∷ rest) _ refl refl)
              (takes_one k leaf w _ _ _ _ refl))))

  pub list_Reads :
      (ps : PredicateObjects false) (rest : Text) (s u : State false D)
      → IsPrintableList ps
      → ((v x : State false D)
          → run k (events_predicates ps) v ≡ some x
          → ReadsVerbs k leaf w (show_predicates ps (32 ∷ b']' ∷ rest)) (32 ∷ b']' ∷ rest) v x)
      → run k (Event.property_list_begin ∷ (events_predicates ps ++ Event.property_list ∷ [])) s
        ≡ some u
      → ReadsTo k leaf w
          (ref (Names.blank_node_property_list false))
          (b'[' ∷ 32 ∷ show_predicates ps (32 ∷ b']' ∷ rest))
          rest
          s
          u
  unfolding body look silent_name basic_action joining_action perform
  list_Reads ps rest s u h ih r b l =
      let (s₁, r₁, r₂) = run_first k Event.property_list_begin _ s u r in
      let (s₂, r₃, r₄) = run_parts k (events_predicates ps) (Event.property_list ∷ []) s₁ u r₂ in
      let verbs = show_predicates ps (32 ∷ b']' ∷ rest) in
      let (b₁, l₁, m₁) =
        joins k leaf w Names.blank_node_property_list_begin Event.property_list_begin
          (b'[' ∷ 32 ∷ verbs) (32 ∷ verbs) (with_basic k b s) s s₁ b refl tt l r₁
          (takes_one k leaf w _ _ _ _ refl) in
      let (b₂, l₂, t', x, m₂, m₃) = ih s₁ s₂ r₃ b₁ l₁ in
      joins k leaf w (Names.blank_node_property_list false) Event.property_list (b'[' ∷ 32 ∷ verbs)
        rest (with_basic k b s) s₂ u b₂ refl tt l₂ (last_event k leaf w Event.property_list s₂ u r₄)
        (then_on m₁ (
          then_on (one_blank k leaf w 32 verbs _ refl (predicates_EndsBlanks ps _ h)) (
            then_on
              (quiet_rule k leaf w (Names.predicate_object_list false) _ _ _ refl (then_on m₂ m₃))
              (then_on (one_blank k leaf w 32 (b']' ∷ rest) _ refl refl)
                (takes_one k leaf w _ _ _ _ refl)))))

  pub object_then :
      (o : Object false) (os : Objects false) (c : ℕ) (t : Text) (s u : State false D)
      → ((v x : State false D)
          → run k (events_object o) v ≡ some x
          → ReadsTo k leaf w
              (body (Names.object false))
              (show_object o (show_behind os (32 ∷ c ∷ t)))
              (show_behind os (32 ∷ c ∷ t))
              v
              x)
      → ((v x : State false D)
          → run k (events_objects os) v ≡ some x
          → ReadsTo k leaf w (star another_object) (show_behind os (32 ∷ c ∷ t)) (32 ∷ c ∷ t) v x)
      → run k (events_object o ++ (Event.object ∷ events_objects os)) s ≡ some u
      → ReadsObjects k leaf w (show_object o (show_behind os (32 ∷ c ∷ t))) (32 ∷ c ∷ t) s u
  object_then o os c t s u ih ihs r b l =
      let (s₁, r₁, r₂) = run_parts k (events_object o) (Event.object ∷ events_objects os) s u r in
      let (s₂, r₃, r₄) = run_first k Event.object (events_objects os) s₁ u r₂ in
      let rest = show_behind os (32 ∷ c ∷ t) in
      let y = ih s s₁ r₁ b l in
      let (b₁, l₁, m₁) = object_joins k leaf w (show_object o rest) rest s s₁ s₂ b r₃ y in
      let (b₂, l₂, m₂) = ihs s₂ u r₄ b₁ l₁ in (b₂, l₂, rest, with_basic k b₁ s₂, m₁, m₂)

  pub inner_Reads :
      (v : Term) (os : Objects false) (c : ℕ) (t : Text) (s u : State false D)
      → IsIri v
      → EndsBlanks (show_objects os (32 ∷ c ∷ t))
      → ((y x : State false D)
          → run k (events_objects os) y ≡ some x
          → ReadsObjects k leaf w (show_objects os (32 ∷ c ∷ t)) (32 ∷ c ∷ t) y x)
      → run k (Event.leaf v ∷ Event.verb ∷ (events_objects os ++ Event.inner ∷ [])) s ≡ some u
      → ReadsTo k leaf w
          (ref (Names.predicate_object_list_inner false))
          (v.identifier ++ (codes " " ++ show_objects os (32 ∷ c ∷ t)))
          (32 ∷ c ∷ t)
          s
          u
  unfolding body look silent_name basic_action joining_action perform
  inner_Reads v os c t s u h start ih r b l =
      let (s₁, r₁, r₂) = run_first k (Event.leaf v) _ s u r in
      let (s₂, r₃, r₄) = run_first k Event.verb _ s₁ u r₂ in
      let (s₃, r₅, r₆) = run_parts k (events_objects os) (Event.inner ∷ []) s₂ u r₄ in
      let objects = show_objects os (32 ∷ c ∷ t) in
      let (b₁, l₁, m₁) =
        finish k leaf w {r = ref Names.iri} r₁ (λ d i. iri_Reads k leaf w v (32 ∷ objects) s d h i)
          b l in
      let (b₂, l₂, m₂) =
        joins k leaf w (Names.verb false) Event.verb (v.identifier ++ 32 ∷ objects) (32 ∷ objects)
          (with_basic k b s) s₁ s₂ b₁ refl tt l₁ r₃
          (or_first (quiet_rule k leaf w Names.predicate _ _ _ refl m₁)) in
      let (b₃, l₃, t', x, m₃, m₄) = ih s₂ s₃ r₅ b₂ l₂ in
      joins k leaf w (Names.predicate_object_list_inner false) Event.inner
        (v.identifier ++ 32 ∷ objects) (32 ∷ c ∷ t) (with_basic k b s) s₃ u b₃ refl tt l₃
        (last_event k leaf w Event.inner s₃ u r₆)
        (then_on m₂ (
          then_on (one_blank k leaf w 32 objects _ refl start)
            (quiet_rule k leaf w (Names.object_list false) _ _ _ refl (then_on m₃ m₄))))
