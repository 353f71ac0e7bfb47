-- ===== src/Parsers/Stacks.antt =====
-- States/State.hpp under Grammar.hpp: the heights of the two stacks that the actions pop, through
-- any match, and that no parse comes to a pop of an empty one.
use rdf_parser.Base.{
  ◌-◌, ◌≡◌, refl, true, false, Option, none, some, length, take, Text, Result, ok, throw, undefined,
  ◌>>=◌,
}
use rdf_parser.Grammar.Rule.{Rule, ref, ◌then◌, star}
use rdf_parser.Grammar.Names
use rdf_parser.Grammar.Names.{Name}
use rdf_parser.Grammar.Body.{body}
use rdf_parser.Grammar.Match.{
  Outcome, matched, failed, raised, is_leaf, of_result, acted, Match, at_leaf, at_eps, named,
  then_on, then_failed, then_raised, or_first, or_second, or_raised, minus_on, minus_failed,
  minus_raised, at_opt, star_more, star_end, star_raised, at_plus, at_must,
}
use rdf_parser.States.Basic.{BasicState}
use rdf_parser.States.Machine.{Derived, State}
use rdf_parser.States.Machine.Events.{Event}
use rdf_parser.Actions.Table.{ActionOn, basic_action, joining_action, basic_or_joining, action}
use rdf_parser.Actions.Defined.{IsDefined, basic_action-IsDefined}
use rdf_parser.Parsers.Gains.{
  gain_name, gain, Above, Grows, then-Grows, any-Grows, Above-zero, Above-self, leaf-Grows,
  optional-Grows, required-Grows, without-Grows,
}
use rdf_parser.Parsers.Keeps.{joining-Keeps}

module _ {D : Type 0} (k : Derived false D) where
  abbrev S : Type 0
  S = State false D

  gain_alone : (n : Name) → joining_action false n ≡ none → gain_name n ≡ (0, 0)
  unfolding joining_action gain_name
  gain_alone (Names.verb p) h = cc
  gain_alone Names.collection_begin h = cc
  gain_alone Names.blank_node_property_list_begin h = cc
  gain_alone _ h = refl

  basic-Keeps :
      (f : S → Result (BasicState false)) (u v : S) (t : Text)
      → IsDefined (f v)
      → Above k u (0, 0) v
      → Grows k u (0, 0) (of_result t (f v >>= (λ b. ok (record v { basic = b }))))
  basic-Keeps f u v t d a = ended (f v) d
    where
      ended :
          (r : Result (BasicState false))
          → IsDefined r
          → Grows k u (0, 0) (of_result t (r >>= (λ b. ok (record v { basic = b }))))
      ended (ok b) d = a
      ended (throw undefined) d = absurd d
      ended (throw e) d = λ x. cc

  acted-Grows :
      (n : Name) (x : Option (Event false)) (y : Option (ActionOn (BasicState false)))
      → joining_action false n ≡ x
      → basic_action false n ≡ y
      → (s : Text) (u : S) (o : Outcome S) → Grows k u (gain (body n)) o
      → Grows k u (gain_name n) (acted (basic_or_joining k x y) s o)
  acted-Grows n none none h g s u o a =
      rw (gain_alone n h) (any-Grows k u u (gain (body n)) o (Above-self k u) a)
  acted-Grows n (some e) y h g s u (matched t v) a = joining-Keeps k n e h u v t a
  acted-Grows n (some e) y h g s u (failed v) a = a
  acted-Grows n (some e) y h g s u (raised x) a = a
  acted-Grows n none (some f) h g s u (matched t v) a =
      let w = take (length s - length t) s in
      rw (gain_alone n h) (
        basic-Keeps (λ v. f w v.basic) u v t (basic_action-IsDefined n f g w v.basic)
          (Above-zero k u v (gain (body n)) a))
  acted-Grows n none (some f) h g s u (failed v) a = a
  acted-Grows n none (some f) h g s u (raised x) a = a

  gain_leaf : (r : Rule Name) → is_leaf r ≡ true → gain r ≡ (0, 0)
  unfolding gain
  gain_leaf (ref n) h = cc
  gain_leaf (r then r') h = cc
  gain_leaf _ h = refl

  -- Through a match of any rule of the grammar, from any state, the two stacks that the actions pop
  -- get no lower, and where an action throws it is no pop of an empty stack.
  pub Match-Grows :
      (leaf : Rule Name → Text → Option Text) {r : Rule Name} {s : Text} {u : S} {o : Outcome S}
      → Match body leaf (action k) r s u o
      → Grows k u (gain r) o
  unfolding gain action
  Match-Grows leaf (at_leaf {r} {s} {u} l) = rw (gain_leaf r l) (leaf-Grows k u (leaf r s))
  Match-Grows leaf (at_eps {u = u}) = Above-self k u
  Match-Grows leaf (named {n} {s} {u} {o} m) =
      acted-Grows n (joining_action false n) (basic_action false n) refl refl s u o
        (Match-Grows leaf m)
  Match-Grows leaf (then_on {u = u} {v = v} {o = o} m k') =
      then-Grows k u v _ _ o (Match-Grows leaf m) (Match-Grows leaf k')
  Match-Grows leaf (then_failed m) = Match-Grows leaf m
  Match-Grows leaf (then_raised m) = Match-Grows leaf m
  Match-Grows leaf (or_first {r} {u = u} {v = v} m) = Above-zero k u v (gain r) (Match-Grows leaf m)
  Match-Grows leaf (or_second {r' = r'} {u = u} {v = v} {o = o} m k') =
      any-Grows k u v (gain r') o (Match-Grows leaf m) (Match-Grows leaf k')
  Match-Grows leaf (or_raised m) = Match-Grows leaf m
  Match-Grows leaf (minus_on {r} {r'} {t = t} {u = u} {v = v} {o = o} m k') =
      without-Grows k u v (gain r') t o (Above-zero k u v (gain r) (Match-Grows leaf m))
        (Match-Grows leaf k')
  Match-Grows leaf (minus_failed m) = Match-Grows leaf m
  Match-Grows leaf (minus_raised m) = Match-Grows leaf m
  Match-Grows leaf (at_opt {r} {s} {u} {o} m) = optional-Grows k u (gain r) s o (Match-Grows leaf m)
  Match-Grows leaf (star_more {r} {u = u} {v = v} {o = o} m k') =
      any-Grows k u v (0, 0) o (Above-zero k u v (gain r) (Match-Grows leaf m))
        (Match-Grows leaf k')
  Match-Grows leaf (star_end m) = Match-Grows leaf m
  Match-Grows leaf (star_raised m) = Match-Grows leaf m
  Match-Grows leaf (at_plus {r} {u = u} {o = o} m) =
      any-Grows k u u (gain (r then star r)) o (Above-self k u) (Match-Grows leaf m)
  Match-Grows leaf (at_must {r} {u = u} {o = o} m) =
      required-Grows k u (gain r) o (Match-Grows leaf m)
