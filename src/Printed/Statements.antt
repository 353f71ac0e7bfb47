-- ===== src/Printed/Statements.antt =====
-- Grammar.hpp with Actions.hpp: printed triples, statements and documents.
use rdf_parser.Base.{◌≡◌, refl, inl, inr, false, [], ◌∷◌, ◌++◌, Option, some, Text, codes}
use rdf_parser.Grammar.Rule.{Rule, one, ref, ◌then◌}
use rdf_parser.Grammar.Names
use rdf_parser.Grammar.Names.{Name, ignored}
use rdf_parser.Grammar.Body.{body}
use rdf_parser.Grammar.Bytes.{IsByteWise}
use rdf_parser.Grammar.Match.{
  Outcome, matched, failed, then_on, then_failed, or_first, or_second, at_opt,
}
use rdf_parser.Grammar.Look.{head, look}
use rdf_parser.States.Basic.{BasicState}
use rdf_parser.States.Machine.{Derived, State}
use rdf_parser.States.Machine.Syntax.{
  Object, term, anon, collection, property_list, PredicateObjects, Triples, subject_first,
  list_alone, list_first, events_object, events_predicates, events_triples,
}
use rdf_parser.States.Machine.Events.{Event, perform, run}
use rdf_parser.Actions.Table.{basic_action, joining_action}
use rdf_parser.Printed.Steps.{silent_name}
use rdf_parser.Printed.Runs.{run_first, run_parts}
use rdf_parser.Printed.Like.{Like, with_basic}
use rdf_parser.Printed.Syntax.{
  show_object, show_predicates, show_triples, IsPrintableList, IsSubject, IsPrintableTriples,
}
use rdf_parser.Printed.Starts.{label_start, predicates_start, predicates_EndsBlanks}
use rdf_parser.Printed.Blanks.{P, fail, takes_one, quiet_rule, no_blank, one_blank, joins}
use rdf_parser.Printed.Leaves.{iri_Reads, blank_Reads, anon_Reads, named_failed, bracket_blank_node}
use rdf_parser.Printed.Loops.{ReadsTo, finish, last_event}
use rdf_parser.Printed.Lists.{collection_Reads, list_Reads}
use rdf_parser.Printed.Objects.{items_Reads, verbs_Reads}

module _ {D : Type 0} (k : Derived false D) (leaf : Rule Name → Text → Option Text)
    (w : IsByteWise leaf) where
  abbrev M : Rule Name → Text → State false D → Outcome (State false D) → Type 0
  M = P k leaf w

  -- A list of verbs in front of ` .`.
  verb_list :
      (ps : PredicateObjects false) (t : Text) (s u : State false D)
      → IsPrintableList ps
      → run k (events_predicates ps) s ≡ some u
      → ReadsTo k leaf w
          (ref (Names.predicate_object_list false))
          (show_predicates ps (32 ∷ b'.' ∷ t))
          (32 ∷ b'.' ∷ t)
          s
          u
  unfolding body look silent_name basic_action joining_action
  verb_list ps t s u h r b l =
      let (b', l', t', x, m, m') =
        verbs_Reads k leaf w ps b'.' t s u ((refl, refl), refl) h r b l in
      (b', l', quiet_rule k leaf w (Names.predicate_object_list false) _ _ _ refl (then_on m m'))

  subject_Reads :
      (o : Object false) (t : Text) (s u : State false D)
      → IsSubject o
      → run k (events_object o) s ≡ some u
      → ReadsTo k leaf w (body (Names.subject false)) (show_object o (32 ∷ t)) (32 ∷ t) s u
  unfolding body look silent_name basic_action joining_action events_object show_object IsSubject
      run perform
  subject_Reads (term e) t s u (inl h) r b l =
      let (b', l', m) =
        finish k leaf w {r = ref Names.iri} r (λ c g. iri_Reads k leaf w e (32 ∷ t) s c h g) b l in
      (b', l', or_first m)
  subject_Reads (term e) t s u (inr (x, h, g)) r b l =
      let (b', l', m) =
        finish k leaf w {r = ref Names.blank_node} r
          (λ c i. blank_Reads k leaf w e (32 ∷ t) s c x h g refl i) b l in
      (
        b',
        l',
        or_second (fail k leaf w (ref Names.iri) _ _ (rw (label_start e x (32 ∷ t) h) refl))
            (or_first m),
      )
  subject_Reads anon t s u h r b l =
      let (b', l', m) =
        finish k leaf w {r = ref Names.blank_node} r (λ c g. anon_Reads k leaf w (32 ∷ t) s c g) b
          l in
      (b', l', or_second (fail k leaf w (ref Names.iri) _ _ refl) (or_first m))
  subject_Reads (collection os) t s u h r b l =
      let (b', l', m) =
        collection_Reads k leaf w os (32 ∷ t) s u
          (λ v x g. items_Reads k leaf w os (32 ∷ t) v x h g) r b l in
      (
        b',
        l',
        or_second (fail k leaf w (ref Names.iri) _ _ refl)
            (or_second (fail k leaf w (ref Names.blank_node) _ _ refl) m),
      )
  subject_Reads (property_list ps) t s u h r b l = absurd h

  -- What is left behind a triple ends in its dot.
  abbrev DotBehind : Text → Text → Type 0
  DotBehind t' t = (v : State false D) → M (ref ignored then one (codes ".")) t' v (matched t v)

  abbrev ReadsTriple : Rule Name → Text → Text → State false D → State false D → Type 0
  ReadsTriple r t₀ t s u =
      (b : BasicState false)
      → Like b s.basic
      → (b' : BasicState false) × Like b' u.basic
        × (t' : Text) × DotBehind t' t
        × M r t₀ (with_basic k b s) (matched t' (with_basic k b' u))

  dot : (t : Text) (v : State false D) → M (one (codes ".")) (b'.' ∷ t) v (matched t v)
  unfolding look body silent_name
  dot t v = takes_one k leaf w (one (codes ".")) b'.' t v refl

  space_before_dot : (t : Text) → DotBehind (32 ∷ b'.' ∷ t) t
  unfolding look body silent_name
  space_before_dot t v = then_on (one_blank k leaf w 32 (b'.' ∷ t) v refl refl) (dot t v)

  dot_at_once : (t : Text) → DotBehind (b'.' ∷ t) t
  unfolding look body silent_name
  dot_at_once t v = then_on (no_blank k leaf w (b'.' ∷ t) v refl) (dot t v)

  -- A property list is no subject of the first form.
  no_seq1 :
      (t : Text) (s : State false D)
      → head t ≡ some b'<'
      → M (ref (Names.triple_seq1 false)) (b'[' ∷ 32 ∷ t) s (failed s)
  unfolding look body silent_name
  no_seq1 t s h = named_failed k leaf w (Names.triple_seq1 false) _ s s (
      then_failed (
        named_failed k leaf w (Names.subject false) _ s s (
          or_second (fail k leaf w (ref Names.iri) _ s refl) (
            or_second (bracket_blank_node k leaf w t s h)
              (fail k leaf w (ref (Names.collection false)) _ s refl)))))

  triple_joins :
      (t₀ t : Text) (s v u : State false D) (b : BasicState false)
      → perform k Event.triple v ≡ some u
      → (b' : BasicState false) → Like b' v.basic
      → (t' : Text)
      → M (body (Names.triple false)) t₀ (with_basic k b s) (matched t' (with_basic k b' v))
      → (b'' : BasicState false) × Like b'' u.basic
        × M (ref (Names.triple false)) t₀ (with_basic k b s) (matched t' (with_basic k b'' u))
  unfolding joining_action
  triple_joins t₀ t s v u b p b' l t' m =
      joins k leaf w (Names.triple false) Event.triple t₀ t' (with_basic k b s) v u b' refl tt l p m

  pub triple_Reads :
      (x : Triples false) (t : Text) (s u : State false D)
      → IsPrintableTriples x
      → run k (events_triples x) s ≡ some u
      → ReadsTriple (ref (Names.triple false)) (show_triples x (32 ∷ b'.' ∷ t)) t s u
  unfolding body look silent_name basic_action joining_action events_triples show_triples
      IsPrintableTriples events_object
  triple_Reads (subject_first o ps) t s u (h, h') r b l =
      let (s₁, r₁, r₂) = run_parts k (events_object o ++ Event.subject ∷ []) _ s u r in
      let (s₂, r₃, r₄) = run_parts k (events_object o) (Event.subject ∷ []) s s₁ r₁ in
      let (s₃, r₅, r₆) = run_parts k (events_predicates ps) _ s₁ u r₂ in
      let (s₄, r₇, r₈) = run_first k Event.triple_seq1 (Event.triple ∷ []) s₃ u r₆ in
      let verbs = show_predicates ps (32 ∷ b'.' ∷ t) in
      let text = show_object o (32 ∷ verbs) in
      let (b₁, l₁, m₁) = subject_Reads o verbs s s₂ h r₃ b l in
      let (b₂, l₂, m₂) =
        joins k leaf w (Names.subject false) Event.subject text (32 ∷ verbs) (with_basic k b s) s₂
          s₁ b₁ refl tt l₁ (last_event k leaf w Event.subject s₂ s₁ r₄) m₁ in
      let (b₃, l₃, m₃) = verb_list ps t s₁ s₃ h' r₅ b₂ l₂ in
      let (b₄, l₄, m₄) =
        joins k leaf w (Names.triple_seq1 false) Event.triple_seq1 text (32 ∷ b'.' ∷ t)
          (with_basic k b s) s₃ s₄ b₃ refl tt l₃ r₇
          (then_on m₂
            (then_on (one_blank k leaf w 32 verbs _ refl (predicates_EndsBlanks ps _ h')) m₃)) in
      let (b₅, l₅, m₅) =
        triple_joins text t s s₄ u b (last_event k leaf w Event.triple s₄ u r₈) b₄ l₄
          (32 ∷ b'.' ∷ t) (or_first m₄) in
      (b₅, l₅, 32 ∷ b'.' ∷ t, space_before_dot t, m₅)
  triple_Reads (list_alone bs) t s u h r b l =
      let (s₁, r₁, r₂) = run_parts k (events_object (property_list bs)) _ s u r in
      let (s₂, r₃, r₄) = run_first k Event.triple_seq2 (Event.triple ∷ []) s₁ u r₂ in
      let rest = 32 ∷ b'.' ∷ t in
      let verbs = show_predicates bs (32 ∷ b']' ∷ rest) in
      let (b₁, l₁, m₁) =
        list_Reads k leaf w bs rest s s₁ h
          (λ v x g. verbs_Reads k leaf w bs b']' rest v x ((refl, refl), refl) h g) r₁ b l in
      let (b₂, l₂, m₂) =
        joins k leaf w (Names.triple_seq2 false) Event.triple_seq2 (b'[' ∷ 32 ∷ verbs) (b'.' ∷ t)
          (with_basic k b s) s₁ s₂ b₁ refl tt l₁ r₃
          (then_on m₁ (
            then_on (one_blank k leaf w 32 (b'.' ∷ t) _ refl refl) (
              at_opt
                (fail k leaf w (ref (Names.predicate_object_list false)) (b'.' ∷ t) _ refl)))) in
      let (b₃, l₃, m₃) =
        triple_joins (b'[' ∷ 32 ∷ verbs) t s s₂ u b (last_event k leaf w Event.triple s₂ u r₄) b₂ l₂
          (b'.' ∷ t) (or_second (no_seq1 verbs _ (predicates_start bs _ h)) m₂) in
      (b₃, l₃, b'.' ∷ t, dot_at_once t, m₃)
  triple_Reads (list_first bs ps) t s u (h, h') r b l =
      let (s₁, r₁, r₂) = run_parts k (events_object (property_list bs)) _ s u r in
      let (s₂, r₃, r₄) = run_parts k (events_predicates ps) _ s₁ u r₂ in
      let (s₃, r₅, r₆) = run_first k Event.triple_seq2 (Event.triple ∷ []) s₂ u r₄ in
      let others = show_predicates ps (32 ∷ b'.' ∷ t) in
      let rest = 32 ∷ others in
      let verbs = show_predicates bs (32 ∷ b']' ∷ rest) in
      let (b₁, l₁, m₁) =
        list_Reads k leaf w bs rest s s₁ h
          (λ v x g. verbs_Reads k leaf w bs b']' rest v x ((refl, refl), refl) h g) r₁ b l in
      let (b₂, l₂, m₂) = verb_list ps t s₁ s₂ h' r₃ b₁ l₁ in
      let (b₃, l₃, m₃) =
        joins k leaf w (Names.triple_seq2 false) Event.triple_seq2 (b'[' ∷ 32 ∷ verbs)
          (32 ∷ b'.' ∷ t) (with_basic k b s) s₂ s₃ b₂ refl tt l₂ r₅
          (then_on m₁ (
            then_on (one_blank k leaf w 32 others _ refl (predicates_EndsBlanks ps _ h'))
              (at_opt m₂))) in
      let (b₄, l₄, m₄) =
        triple_joins (b'[' ∷ 32 ∷ verbs) t s s₃ u b (last_event k leaf w Event.triple s₃ u r₆) b₃ l₃
          (32 ∷ b'.' ∷ t) (or_second (no_seq1 verbs _ (predicates_start bs _ h)) m₃) in
      (b₄, l₄, 32 ∷ b'.' ∷ t, space_before_dot t, m₄)
