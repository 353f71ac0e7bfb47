-- ===== src/Printed/Loops.antt =====
-- Grammar.hpp with Actions.hpp: the loops over objects and over verbs, where they end, and what it is
-- for a rule to read a text with events.
use mathlib.Core.Path.{subst}
use rdf_parser.Base.{ℕ, ◌≡◌, refl, ◌∙◌, false, [], ◌∷◌, Option, some, Text, codes}
use rdf_parser.Grammar.Rule.{Rule, one, ref, ◌then◌, star, opt}
use rdf_parser.Grammar.Names
use rdf_parser.Grammar.Names.{Name, ignored}
use rdf_parser.Grammar.Body.{body}
use rdf_parser.Grammar.Bytes.{IsByteWise}
use rdf_parser.Grammar.Match.{Outcome, matched, then_on, then_failed, star_end}
use rdf_parser.Grammar.Look.{fails, look}
use rdf_parser.States.Basic.{BasicState}
use rdf_parser.States.Machine.{Derived, State}
use rdf_parser.States.Machine.Events.{Event, perform, run}
use rdf_parser.Actions.Table.{basic_action, joining_action}
use rdf_parser.Printed.Steps.{silent_name, fuel}
use rdf_parser.Printed.Runs.{some_injective, run_first}
use rdf_parser.Printed.Like.{Like, with_basic}
use rdf_parser.Printed.Blanks.{P, blank_rule, fail, one_blank, joins}
use rdf_parser.Printed.Leaves.{Reads}

-- What may follow a list of objects, or of verbs: a byte that is no part of it.
abbrev pub ClosesObjects : ℕ → Type 0
ClosesObjects c =
    (look body silent_name fuel blank_rule (some c) ≡ fails)
    × (look body silent_name fuel (one (codes ",")) (some c) ≡ fails)

abbrev pub ClosesVerbs : ℕ → Type 0
ClosesVerbs c = ClosesObjects c × (look body silent_name fuel (one (codes ";")) (some c) ≡ fails)

-- The loops of objectList, collection and predicateObjectList.
abbrev pub another_object : Rule Name
another_object = ref ignored then one (codes ",") then ref ignored then ref (Names.object false)

abbrev pub another_item : Rule Name
another_item = ref ignored then ref (Names.object false)

abbrev pub another_verb : Rule Name
another_verb =
    ref ignored
    then one (codes ";")
    then opt (ref ignored then ref (Names.predicate_object_list_inner false))

module _ {D : Type 0} (k : Derived false D) (leaf : Rule Name → Text → Option Text)
    (w : IsByteWise leaf) where
  abbrev M : Rule Name → Text → State false D → Outcome (State false D) → Type 0
  M = P k leaf w

  -- A rule reads a text while the events lead from one state to another.
  abbrev pub ReadsTo : Rule Name → Text → Text → State false D → State false D → Type 0
  ReadsTo r t rest s u = (b : BasicState false) → Like b s.basic → Reads k leaf w r t rest s b u

  -- The first verb with its objects, and the others.
  abbrev pub ReadsVerbs : Text → Text → State false D → State false D → Type 0
  ReadsVerbs t rest s u =
      (b : BasicState false)
      → Like b s.basic
      → (b' : BasicState false) × Like b' u.basic
        × (t' : Text) × (x : State false D) × M (ref (Names.predicate_object_list_inner false)) t
            (with_basic k b s) (matched t' x)
        × M (star another_verb) t' x (matched rest (with_basic k b' u))

  pub finish :
      {r : Rule Name} {t rest : Text} {s v u : State false D}
      → some v ≡ some u
      → ReadsTo r t rest s v
      → ReadsTo r t rest s u
  finish {r} {t} {rest} {s} {v} {u} h m = subst (λ x. ReadsTo r t rest s x) (some_injective v u h) m

  pub no_more_objects :
      (c : ℕ) (t : Text) (s : State false D)
      → ClosesObjects c
      → ReadsTo (star another_object) (32 ∷ c ∷ t) (32 ∷ c ∷ t) s s
  unfolding look body silent_name
  no_more_objects c t s h b l = (
    b,
    l,
    star_end (
        then_on (one_blank k leaf w 32 (c ∷ t) _ refl h.0)
          (then_failed (fail k leaf w (one (codes ",")) (c ∷ t) _ h.1))),
  )

  pub no_more_items :
      (t : Text) (s : State false D)
      → ReadsTo (star another_item) (32 ∷ b')' ∷ t) (32 ∷ b')' ∷ t) s s
  unfolding look body silent_name basic_action joining_action
  no_more_items t s b l = (
    b,
    l,
    star_end (
        then_on (one_blank k leaf w 32 (b')' ∷ t) _ refl refl)
          (fail k leaf w (ref (Names.object false)) (b')' ∷ t) _ refl)),
  )

  pub no_more_verbs :
      (c : ℕ) (t : Text) (s : State false D)
      → ClosesVerbs c
      → M (star another_verb) (32 ∷ c ∷ t) s (matched (32 ∷ c ∷ t) s)
  unfolding look body silent_name
  no_more_verbs c t s h = star_end (
      then_on (one_blank k leaf w 32 (c ∷ t) _ refl h.0.0)
        (then_failed (fail k leaf w (one (codes ";")) (c ∷ t) _ h.1)))

  -- An object with its action.
  pub object_joins :
      (t rest : Text) (s v u : State false D) (b : BasicState false)
      → perform k Event.object v ≡ some u
      → Reads k leaf w (body (Names.object false)) t rest s b v
      → Reads k leaf w (ref (Names.object false)) t rest s b u
  unfolding joining_action
  object_joins t rest s v u b p (b', l, m) =
      joins k leaf w (Names.object false) Event.object t rest _ v u b' refl tt l p m

  pub last_event :
      (e : Event false) (s u : State false D) → run k (e ∷ []) s ≡ some u → perform k e s ≡ some u
  unfolding run
  last_event e s u r = let (t, p, h) = run_first k e [] s u r in p ∙ h

  -- An object with its action, and the loop over the objects behind it.
  abbrev pub ReadsObjects : Text → Text → State false D → State false D → Type 0
  ReadsObjects t rest s u =
      (b : BasicState false)
      → Like b s.basic
      → (b' : BasicState false) × Like b' u.basic
        × (t' : Text) × (x : State false D) × M (ref (Names.object false)) t (with_basic k b s)
            (matched t' x)
        × M (star another_object) t' x (matched rest (with_basic k b' u))
