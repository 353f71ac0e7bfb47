-- ===== src/Parsers/Gains.antt =====
-- Grammar.hpp with Actions.hpp: what a rule adds at least to the heights of the two stacks that the
-- actions pop, and how the outcomes of its parts make it up.
use rdf_parser.Base.{
  ℕ, ◌+◌, ◌≤◌, ◌≢◌, false, [], ◌∷◌, Option, none, some, arith, length, Text, undefined,
}
use rdf_parser.Grammar.Rule.{Rule, ref, ◌then◌}
use rdf_parser.Grammar.Names
use rdf_parser.Grammar.Names.{Name}
use rdf_parser.Grammar.Match.{
  Outcome, matched, failed, raised, without, required, optional, of_leaf,
}
use rdf_parser.States.Machine.{Derived, State}

-- How much a rule adds to the stack of verbs and to the stack of lists, at least.
abbrev pub Gain : Type 0
Gain = ℕ × ℕ

unfoldable pub gain_name : Name → Gain
gain_name (Names.verb p) = (1, 0)
gain_name Names.collection_begin = (0, 1)
gain_name Names.blank_node_property_list_begin = (0, 1)
gain_name _ = (0, 0)

abbrev pub plus_gain : Gain → Gain → Gain
plus_gain (a, b) (c, d) = (a + c, b + d)

unfoldable pub gain : Rule Name → Gain
unfolding gain_name
gain (ref n) = gain_name n
gain (r then r') = plus_gain (gain r) (gain r')
gain _ = (0, 0)

module _ {D : Type 0} (k : Derived false D) where
  abbrev S : Type 0
  S = State false D

  abbrev pub Above : S → Gain → S → Type 0
  Above u g v =
      (length u.verb_stack + g.0 ≤ length v.verb_stack)
      × (length u.bnpl_collection_list_stack + g.1 ≤ length v.bnpl_collection_list_stack)

  -- A match has its gain, a failure loses nothing, and an exception is no undefined behaviour.
  abbrev pub Grows : S → Gain → Outcome S → Type 0
  Grows u g (matched t v) = Above u g v
  Grows u g (failed v) = Above u (0, 0) v
  Grows u g (raised e) = e ≢ undefined

  pub then-Grows :
      (u v : S) (g h : Gain) (o : Outcome S) → Above u g v → Grows v h o → Grows u (plus_gain g h) o
  then-Grows u v g h (matched t x) a b = omega (arith, a.0, a.1, b.0, b.1)
  then-Grows u v g h (failed x) a b = omega (arith, a.0, a.1, b.0, b.1)
  then-Grows u v g h (raised e) a b = b

  pub any-Grows :
      (u v : S) (g : Gain) (o : Outcome S) → Above u (0, 0) v → Grows v g o → Grows u (0, 0) o
  any-Grows u v g (matched t x) a b = omega (arith, a.0, a.1, b.0, b.1)
  any-Grows u v g (failed x) a b = omega (arith, a.0, a.1, b.0, b.1)
  any-Grows u v g (raised e) a b = b

  pub Above-zero : (u v : S) (g : Gain) → Above u g v → Above u (0, 0) v
  Above-zero u v g a = omega (arith, a.0, a.1)

  pub Above-self : (u : S) → Above u (0, 0) u
  Above-self u = omega arith

  pub leaf-Grows : (u : S) (x : Option Text) → Grows u (0, 0) (of_leaf x u)
  leaf-Grows u none = Above-self u
  leaf-Grows u (some t) = Above-self u

  pub optional-Grows :
      (u : S) (g : Gain) (s : Text) (o : Outcome S) → Grows u g o → Grows u (0, 0) (optional s o)
  optional-Grows u g s (matched t v) a = Above-zero u v g a
  optional-Grows u g s (failed v) a = a
  optional-Grows u g s (raised e) a = a

  pub required-Grows :
      (u : S) (g : Gain) (o : Outcome S) → Grows u g o → Grows u (0, 0) (required o)
  required-Grows u g (matched t v) a = Above-zero u v g a
  required-Grows u g (failed v) a = λ e. cc
  required-Grows u g (raised e) a = a

  -- `minus` goes back to the state of its first rule.
  pub without-Grows :
      (u v : S) (g : Gain) (t : Text) (o : Outcome S)
      → Above u (0, 0) v
      → Grows v g o
      → Grows u (0, 0) (without o t v)
  without-Grows u v g t (matched [] x) a b = a
  without-Grows u v g t (matched (c ∷ cs) x) a b = a
  without-Grows u v g t (failed x) a b = a
  without-Grows u v g t (raised e) a b = b
