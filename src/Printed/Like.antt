-- ===== src/Printed/Like.antt =====
-- States/State.hpp: two states that differ in their BasicState at most go through the same events.
-- What the actions on terms leave behind in the BasicState, beside the element and the counter, plays
-- no part in it.
use rdf_parser.Base.{◌≡◌, sym, ap, ◌∙◌, false, List, [], ◌∷◌, Option, some, arith}
use rdf_parser.States.Element.{Element}
use rdf_parser.States.Basic.{BasicState}
use rdf_parser.States.Machine.{
  Derived, State, process_verb, process_triple_seq, restore_list, pop_verb, with_subject,
}
use rdf_parser.States.Machine.Effects.{insert_triples_lem}
use rdf_parser.States.Machine.Events.{Event, leaf, anon, perform}
use rdf_parser.Actions.Literals.{NoTag}
use rdf_parser.Printed.Runs.{some_injective}

-- A state of a parse between two terms, beside the one of the events.
pub record Like (b m : BasicState false) : Type 0 where
  pub element : b.element ≡ m.element
  pub label : b.latest_bn_label ≡ m.latest_bn_label
  pub no_tag : NoTag b
  pub no_base : b.base ≡ []

-- The events of the rules that join terms.
abbrev pub IsJoin : Event false → Type 0
IsJoin (leaf x) = ⊥
IsJoin anon = ⊥
IsJoin _ = Unit

module _ {D : Type 0} (k : Derived false D) where
  abbrev pub with_basic : BasicState false → State false D → State false D
  with_basic b s = record s { basic = b }

  -- The same event in the state that is parsed in.
  abbrev pub Follows : Event false → State false D → State false D → BasicState false → Type 0
  Follows e s u b =
      (b' : BasicState false) × Like b' u.basic
      × (perform k e (with_basic b s) ≡ some (with_basic b' u))

  -- The events that leave the BasicState alone.
  abbrev pub SameBasic : (State false D → Option (State false D)) → Type 0
  SameBasic f =
      (s u : State false D) (b : BasicState false)
      → b.element ≡ s.basic.element
      → f s ≡ some u
      → (f (with_basic b s) ≡ some (with_basic b u)) × (u.basic ≡ s.basic)

  pub same-Follows :
      (e : Event false)
      → SameBasic (perform k e)
      → (s u : State false D) (b : BasicState false) → Like b s.basic
      → perform k e s ≡ some u
      → Follows e s u b
  same-Follows e f s u b l h =
      let (p, same) = f s u b l.element h in
      (
        b,
        record {
          element = l.element ∙ ap (λ x. x.element) (sym same);
          label = l.label ∙ ap (λ x. x.latest_bn_label) (sym same);
          no_tag = l.no_tag;
          no_base = l.no_base;
        },
        p,
      )

  -- A function of the state that looks at the element only.
  pub total_same :
      (f : State false D → State false D)
      → ((s : State false D) (b : BasicState false)
          → b.element ≡ s.basic.element
          → (f (with_basic b s) ≡ with_basic b (f s)) × ((f s).basic ≡ s.basic))
      → SameBasic (λ s. some (f s))
  total_same f h s u b l e =
      let (p, same) = h s b l in
      let j = some_injective (f s) u e in
      (ap some (p ∙ ap (with_basic b) j), ap (λ x. x.basic) (sym j) ∙ same)

  pub pop_same : (vs : List (Element false)) → SameBasic (pop_verb k vs)
  unfolding pop_verb
  pop_same [] s u b l e = cc
  pop_same (v ∷ vs) s u b l e =
      let j = some_injective _ u e in (ap (λ x. some (with_basic b x)) j, ap (λ x. x.basic) (sym j))

  pub restore_same : (ls : List (List (Element false))) → SameBasic (restore_list k ls)
  unfolding restore_list
  restore_same [] s u b l e = cc
  restore_same (x ∷ xs) s u b l e =
      let j = some_injective _ u e in (ap (λ x. some (with_basic b x)) j, ap (λ x. x.basic) (sym j))

  pub verb_same :
      (s : State false D) (b : BasicState false)
      → b.element ≡ s.basic.element
      → (process_verb k (with_basic b s) ≡ with_basic b (process_verb k s))
        × ((process_verb k s).basic ≡ s.basic)
  unfolding process_verb
  verb_same s b l = ground arith

  pub seq_same :
      (s : State false D) (b : BasicState false)
      → (process_triple_seq k (with_basic b s) ≡ with_basic b (process_triple_seq k s))
        × ((process_triple_seq k s).basic ≡ s.basic)
  unfolding process_triple_seq
  seq_same s b =
      let ts = with_subject s.subject_ s.verb_object_pair_list in
      (
        insert_triples_lem k ts (with_basic b s)
            ∙ ap (with_basic b) (sym (insert_triples_lem k ts s)),
        ap (λ x. x.basic) (insert_triples_lem k ts s),
      )

  pub simple_Follows :
      (e : Event false) (f : State false D → State false D)
      → ((s : State false D) → perform k e s ≡ some (f s))
      → ((s : State false D) (b : BasicState false)
          → b.element ≡ s.basic.element
          → (f (with_basic b s) ≡ with_basic b (f s)) × ((f s).basic ≡ s.basic))
      → (s u : State false D) (b : BasicState false) → Like b s.basic
      → perform k e s ≡ some u
      → Follows e s u b
  simple_Follows e f p h s u b l g =
      same-Follows e
        (λ s' u' b' l' g'.
          let (x, y) = total_same f h s' u' b' l' (sym (p s') ∙ g') in
          (p (with_basic b' s') ∙ x, y))
        s u b l g
