-- ===== src/Printed/Objects.antt =====
-- Grammar.hpp with Actions.hpp: printed objects, lists of objects and lists of verbs are read with
-- the events of their syntax trees, by induction on the trees.
use rdf_parser.Base.{ℕ, ◌≡◌, refl, false, [], ◌∷◌, ◌++◌, Option, some, Text, codes}
use rdf_parser.Grammar.Rule.{Rule, one, ref, star}
use rdf_parser.Grammar.Names
use rdf_parser.Grammar.Names.{Name, ignored}
use rdf_parser.Grammar.Body.{body}
use rdf_parser.Grammar.Bytes.{IsByteWise}
use rdf_parser.Grammar.Match.{Outcome, then_on, or_first, or_second, star_more, at_opt}
use rdf_parser.Grammar.Look.{look}
use rdf_parser.States.Machine.{Derived, State}
use rdf_parser.States.Machine.Syntax.{
  Object, term, anon, collection, property_list, Objects, end, more_objects, PredicateObjects, last,
  more, events_object, events_objects, events_predicates,
}
use rdf_parser.States.Machine.Events.{Event, perform, run}
use rdf_parser.Actions.Table.{basic_action, joining_action}
use rdf_parser.Printed.Steps.{silent_name, Ended}
use rdf_parser.Printed.Runs.{run_first, run_parts}
use rdf_parser.Printed.Like.{with_basic}
use rdf_parser.Printed.Syntax.{
  show_object, show_items, show_behind, show_objects, show_predicates, IsPrintable, IsPrintableAll,
  IsPrintableList, HasOne,
}
use rdf_parser.Printed.Starts.{
  written_start, predicates_start, predicates_EndsBlanks, objects_start, items_Ended, behind_Ended,
}
use rdf_parser.Printed.Blanks.{P, fail, takes_one, quiet_rule, one_blank}
use rdf_parser.Printed.Leaves.{term_Reads, anon_Reads, bracket_term}
use rdf_parser.Printed.Loops.{
  ClosesObjects, ClosesVerbs, another_object, another_item, ReadsTo, ReadsVerbs, ReadsObjects,
  finish, no_more_objects, no_more_items, no_more_verbs, object_joins,
}
use rdf_parser.Printed.Lists.{collection_Reads, list_Reads, object_then, inner_Reads}

module _ {D : Type 0} (k : Derived false D) (leaf : Rule Name → Text → Option Text)
    (w : IsByteWise leaf) where
  abbrev M : Rule Name → Text → State false D → Outcome (State false D) → Type 0
  M = P k leaf w

  mutual
    unfolding body look silent_name basic_action joining_action show_object show_items show_behind
        show_predicates show_objects IsPrintable IsPrintableAll IsPrintableList HasOne events_object
        events_objects events_predicates run perform

    pub object_Reads :
        (o : Object false) (rest : Text) (s u : State false D)
        → IsPrintable o
        → Ended rest
        → run k (events_object o) s ≡ some u
        → ReadsTo k leaf w (body (Names.object false)) (show_object o rest) rest s u
    object_Reads (term e) rest s u h e' r b l =
        let (b', l', m) =
          finish k leaf w {r = ref Names.term} r (λ c g. term_Reads k leaf w e rest s c h e' g) b
            l in
        (b', l', or_first m)
    object_Reads anon rest s u h e' r b l =
        let (b', l', m) =
          finish k leaf w {r = ref Names.blank_node} r (λ c g. anon_Reads k leaf w rest s c g) b
            l in
        (
          b',
          l',
          or_first (
              quiet_rule k leaf w Names.term _ _ _ refl
                (or_second (fail k leaf w (ref Names.literal) _ _ refl) (or_first m))),
        )
    object_Reads (collection os) rest s u h e' r b l =
        let (b', l', m) =
          collection_Reads k leaf w os rest s u (λ v x g. items_Reads os rest v x h g) r b l in
        (b', l', or_second (fail k leaf w (ref Names.term) _ _ refl) (or_first m))
    object_Reads (property_list ps) rest s u h e' r b l =
        let (b', l', m) =
          list_Reads k leaf w ps rest s u h
            (λ v x g. verbs_Reads ps b']' rest v x ((refl, refl), refl) h g) r b l in
        (
          b',
          l',
          or_second
              (bracket_term k leaf w (show_predicates ps (32 ∷ b']' ∷ rest)) _
                (predicates_start ps _ h))
              (or_second (fail k leaf w (ref (Names.collection false)) _ _ refl) m),
        )

    pub items_Reads :
        (os : Objects false) (t : Text) (s u : State false D)
        → IsPrintableAll os
        → run k (events_objects os) s ≡ some u
        → ReadsTo k leaf w (star another_item) (show_items os (32 ∷ b')' ∷ t)) (32 ∷ b')' ∷ t) s u
    items_Reads end t s u h r b l =
        finish k leaf w {r = star another_item} r (no_more_items k leaf w t s) b l
    items_Reads (more_objects o os) t s u h r b l =
        let (s₁, r₁, r₂) = run_parts k (events_object o) (Event.object ∷ events_objects os) s u r in
        let (s₂, r₃, r₄) = run_first k Event.object (events_objects os) s₁ u r₂ in
        let rest = show_items os (32 ∷ b')' ∷ t) in
        let x = object_Reads o rest s s₁ h.0 (items_Ended os _ refl) r₁ b l in
        let (b₁, l₁, m₁) = object_joins k leaf w (show_object o rest) rest s s₁ s₂ b r₃ x in
        let (b₂, l₂, m₂) = items_Reads os t s₂ u h.1 r₄ b₁ l₁ in
        (
          b₂,
          l₂,
          star_more
              (then_on (one_blank k leaf w 32 (show_object o rest) _ refl (written_start o _ h.0))
                m₁)
              m₂,
        )

    pub behind_Reads :
        (os : Objects false) (c : ℕ) (t : Text) (s u : State false D)
        → ClosesObjects c
        → IsPrintableAll os
        → run k (events_objects os) s ≡ some u
        → ReadsTo k leaf w (star another_object) (show_behind os (32 ∷ c ∷ t)) (32 ∷ c ∷ t) s u
    behind_Reads end c t s u g h r b l =
        finish k leaf w {r = star another_object} r (no_more_objects k leaf w c t s g) b l
    behind_Reads (more_objects o os) c t s u g h r b l =
        let rest = show_behind os (32 ∷ c ∷ t) in
        let (b', l', t', x, m₁, m₂) =
          object_then k leaf w o os c t s u
            (λ v y i. object_Reads o rest v y h.0 (behind_Ended os _ refl) i)
            (λ v y i. behind_Reads os c t v y g h.1 i) r b l in
        (
          b',
          l',
          star_more
              (then_on (one_blank k leaf w 32 (b',' ∷ 32 ∷ show_object o rest) _ refl refl) (
                then_on (takes_one k leaf w (one (codes ",")) b',' _ _ refl) (
                  then_on
                    (one_blank k leaf w 32 (show_object o rest) _ refl (written_start o _ h.0))
                    m₁)))
              m₂,
        )

    pub objects_Reads :
        (os : Objects false) (c : ℕ) (t : Text) (s u : State false D)
        → ClosesObjects c
        → IsPrintableAll os
        → HasOne os
        → run k (events_objects os) s ≡ some u
        → ReadsObjects k leaf w (show_objects os (32 ∷ c ∷ t)) (32 ∷ c ∷ t) s u
    objects_Reads end c t s u g h has_one r b l = absurd has_one
    objects_Reads (more_objects o os) c t s u g h has_one r b l =
        object_then k leaf w o os c t s u
          (λ v y i. object_Reads o (show_behind os (32 ∷ c ∷ t)) v y h.0 (behind_Ended os _ refl) i)
          (λ v y i. behind_Reads os c t v y g h.1 i) r b l

    pub verbs_Reads :
        (ps : PredicateObjects false) (c : ℕ) (t : Text) (s u : State false D)
        → ClosesVerbs c
        → IsPrintableList ps
        → run k (events_predicates ps) s ≡ some u
        → ReadsVerbs k leaf w (show_predicates ps (32 ∷ c ∷ t)) (32 ∷ c ∷ t) s u
    verbs_Reads (last v os) c t s u g (h, h', has_one) r b l =
        let (b', l', m) =
          inner_Reads k leaf w v os c t s u h (objects_start os _ h' has_one)
            (λ y x i. objects_Reads os c t y x g.0 h' has_one i) r b l in
        (b', l', 32 ∷ c ∷ t, with_basic k b' u, m, no_more_verbs k leaf w c t _ g)
    verbs_Reads (more v os ps) c t s u g (h, (h', has_one), h'') r b l =
        let (s₁, r₁, r₂) =
          run_parts k (Event.leaf v ∷ Event.verb ∷ (events_objects os ++ Event.inner ∷ []))
            (events_predicates ps) s u r in
        let verbs = show_predicates ps (32 ∷ c ∷ t) in
        let (b₁, l₁, m₁) =
          inner_Reads k leaf w v os b';' (32 ∷ verbs) s s₁ h (objects_start os _ h' has_one)
            (λ y z i. objects_Reads os b';' (32 ∷ verbs) y z (refl, refl) h' has_one i) r₁ b l in
        let (b₂, l₂, t', x, m₂, m₃) = verbs_Reads ps c t s₁ u g h'' r₂ b₁ l₁ in
        (
          b₂,
          l₂,
          32 ∷ b';' ∷ 32 ∷ verbs,
          with_basic k b₁ s₁,
          m₁,
          star_more
              (then_on (one_blank k leaf w 32 (b';' ∷ 32 ∷ verbs) _ refl refl) (
                then_on (takes_one k leaf w (one (codes ";")) b';' _ _ refl) (
                  at_opt (
                    then_on (one_blank k leaf w 32 verbs _ refl (predicates_EndsBlanks ps _ h''))
                      m₂))))
              m₃,
        )
