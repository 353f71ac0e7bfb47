-- ===== src/Printed/Blanks.antt =====
-- Grammar.hpp: the rule `ignored`, and rules with an action of Actions.hpp, in front of a known byte.
use mathlib.Core.Path.{subst}
use rdf_parser.Base.{ℕ, ◌≡◌, refl, ap, ◌∙◌, true, false, ◌∷◌, Option, some, Text}
use rdf_parser.Grammar.Rule.{Rule, ref, ◌or◌, space}
use rdf_parser.Grammar.Names.{Name, ignored, comment}
use rdf_parser.Grammar.Body.{body}
use rdf_parser.Grammar.Bytes.{IsByteWise}
use rdf_parser.Grammar.Match.{
  Outcome, matched, failed, of_result, acted, Match, named, star_more, star_end,
}
use rdf_parser.Grammar.Look.{fails, takes, head, look}
use rdf_parser.States.Basic.{BasicState}
use rdf_parser.States.Machine.{Derived, State}
use rdf_parser.States.Machine.Events.{Event, perform}
use rdf_parser.Actions.Table.{joining_action, basic_action, basic_or_joining, defined, action}
use rdf_parser.Printed.Steps.{silent_name, fuel, see, without_action}
use rdf_parser.Printed.States.{machine_terms}
use rdf_parser.Printed.Joined.{perform-Follows}
use rdf_parser.Printed.Like.{Like, IsJoin, with_basic}

abbrev pub blank_rule : Rule Name
blank_rule = space or ref comment

-- Where `ignored` ends.
abbrev pub EndsBlanks : Text → Type 0
EndsBlanks t = look body silent_name fuel blank_rule (head t) ≡ fails

module _ {D : Type 0} (k : Derived false D) (leaf : Rule Name → Text → Option Text)
    (w : IsByteWise leaf) where
  abbrev pub P : Rule Name → Text → State false D → Outcome (State false D) → Type 0
  P = Match body leaf (action k)

  -- What the first byte decides.
  pub fail :
      (r : Rule Name) (t : Text) (s : State false D)
      → look body silent_name fuel r (head t) ≡ fails
      → P r t s (failed s)
  fail r t s h = see leaf w (action k) (machine_terms k) fails r t h s

  pub takes_one :
      (r : Rule Name) (c : ℕ) (t : Text) (s : State false D)
      → look body silent_name fuel r (some c) ≡ takes
      → P r (c ∷ t) s (matched t s)
  takes_one r c t s h = see leaf w (action k) (machine_terms k) takes r (c ∷ t) h s

  pub quiet_rule :
      (n : Name) (t : Text) (s : State false D) (o : Outcome (State false D))
      → silent_name n ≡ true
      → P (body n) t s o
      → P (ref n) t s o
  quiet_rule n t s o h m = without_action leaf w (action k) (machine_terms k) n t s o h m

  -- `ignored` in front of anything but a space or a comment, and one space or line feed before that.
  pub no_blank : (t : Text) (s : State false D) → EndsBlanks t → P (ref ignored) t s (matched t s)
  unfolding body silent_name basic_action joining_action
  no_blank t s h = quiet_rule ignored t s _ refl (star_end (fail blank_rule t s h))

  pub one_blank :
      (c : ℕ) (t : Text) (s : State false D)
      → look body silent_name fuel blank_rule (some c) ≡ takes
      → EndsBlanks t
      → P (ref ignored) (c ∷ t) s (matched t s)
  unfolding body silent_name basic_action joining_action
  one_blank c t s g h =
      quiet_rule ignored (c ∷ t) s _ refl
        (star_more (takes_one blank_rule c t s g) (star_end (fail blank_rule t s h)))

  -- A rule with an action of Actions.hpp, beside its event.
  pub joins :
      (n : Name) (e : Event false) (t rest : Text) (s₀ s u : State false D) (b : BasicState false)
      → joining_action false n ≡ some e
      → IsJoin e
      → Like b s.basic
      → perform k e s ≡ some u
      → P (body n) t s₀ (matched rest (with_basic k b s))
      → (b' : BasicState false) × Like b' u.basic
        × P (ref n) t s₀ (matched rest (with_basic k b' u))
  unfolding action
  joins n e t rest s₀ s u b h j l p m =
      let (b', l', g) = perform-Follows k e s u b j l p in
      (
        b',
        l',
        subst (λ o. P (ref n) t s₀ o)
            (ap
                (λ x.
                  acted (basic_or_joining k x (basic_action false n)) t
                    (matched rest (with_basic k b s)))
                h
              ∙ ap (λ x. of_result rest (defined x)) g)
            (named m),
      )
