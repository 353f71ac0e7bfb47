-- ===== src/Grammar/Erased.antt =====
-- The relation Match with actions and without.
use rdf_parser.Base.{
  ◌-◌, ◌≡◌, refl, [], ◌∷◌, Option, none, some, length, take, Text, parse_error, Result, ok, throw,
}
use rdf_parser.Grammar.Rule.{Rule, ref, ◌then◌, ◌or◌, minus, opt, star, plus, must}
use rdf_parser.Grammar.Match.{
  Outcome, matched, failed, raised, without, required, optional, of_leaf, of_result, acted, Match,
  at_leaf, at_eps, named, then_on, then_failed, then_raised, or_first, or_second, or_raised,
  minus_on, minus_failed, minus_raised, at_opt, star_more, star_end, star_raised, at_plus, at_must,
}

-- No name has an action.
abbrev pub nothing {ℓ} : {N : Type ℓ} → N → Option {0} (Text → Unit {0} → Result {0} (Unit {0}))
nothing n = none

module _ {N : Type 0} (body : N → Rule N) (leaf : Rule N → Text → Option Text) where
  -- What is left of an outcome without the states.
  abbrev pub SameWithout : {S : Type 0} → Rule N → Text → Outcome S → Type 0
  SameWithout r s (matched t v) = Match body leaf nothing r s tt (matched t tt)
  SameWithout r s (failed v) = Match body leaf nothing r s tt (failed tt)
  SameWithout r s (raised e) = Unit

  module _ {S : Type 0} where
    plain_leaf :
        (r : Rule N) (s : Text) (u : S) (x : Option Text)
        → Match body leaf nothing r s tt (of_leaf x tt)
        → SameWithout r s (of_leaf x u)
    plain_leaf r s u none m = m
    plain_leaf r s u (some t) m = m

    plain_name :
        (n : N) (s : Text) (o : Outcome S) → SameWithout (body n) s o → SameWithout (ref n) s o
    plain_name n s (matched t v) m = named m
    plain_name n s (failed v) m = named m
    plain_name n s (raised e) m = tt

    plain_result :
        (r : Rule N) (s t : Text) (x : Result S)
        → Match body leaf nothing r s tt (matched t tt)
        → SameWithout r s (of_result t x)
    plain_result r s t (ok v) m = m
    plain_result r s t (throw e) m = tt

    plain_acted :
        (r : Rule N) (a : Option (Text → S → Result S)) (s : Text) (o : Outcome S)
        → SameWithout r s o
        → SameWithout r s (acted a s o)
    plain_acted r none s o m = m
    plain_acted r (some f) s (matched t u) m =
        plain_result r s t (f (take (length s - length t) s) u) m
    plain_acted r (some f) s (failed u) m = m
    plain_acted r (some f) s (raised e) m = tt

    plain_then :
        {r : Rule N} (r' : Rule N) {s t : Text} (o : Outcome S)
        → Match body leaf nothing r s tt (matched t tt)
        → SameWithout r' t o
        → SameWithout (r then r') s o
    plain_then r' (matched w v) m k = then_on m k
    plain_then r' (failed v) m k = then_on m k
    plain_then r' (raised e) m k = tt

    plain_or :
        {r : Rule N} (r' : Rule N) {s : Text} (o : Outcome S)
        → Match body leaf nothing r s tt (failed tt)
        → SameWithout r' s o
        → SameWithout (r or r') s o
    plain_or r' (matched w v) m k = or_second m k
    plain_or r' (failed v) m k = or_second m k
    plain_or r' (raised e) m k = tt

    plain_star :
        {r : Rule N} {s t : Text} (o : Outcome S)
        → Match body leaf nothing r s tt (matched t tt)
        → SameWithout (star r) t o
        → SameWithout (star r) s o
    plain_star (matched w v) m k = star_more m k
    plain_star (failed v) m k = star_more m k
    plain_star (raised e) m k = tt

    plain_minus :
        {r : Rule N} (r' : Rule N) {s t : Text} (v : S) (o : Outcome S)
        → Match body leaf nothing r s tt (matched t tt)
        → SameWithout r' (take (length s - length t) s) o
        → SameWithout (minus r r') s (without o t v)
    plain_minus r' v (matched [] w) m k = minus_on m k
    plain_minus r' v (matched (c ∷ cs) w) m k = minus_on m k
    plain_minus r' v (failed w) m k = minus_on m k
    plain_minus r' v (raised e) m k = tt

    plain_opt :
        (r : Rule N) (s : Text) (o : Outcome S)
        → SameWithout r s o
        → SameWithout (opt r) s (optional s o)
    plain_opt r s (matched t v) m = at_opt m
    plain_opt r s (failed v) m = at_opt m
    plain_opt r s (raised e) m = tt

    plain_plus :
        (r : Rule N) (s : Text) (o : Outcome S)
        → SameWithout (r then star r) s o
        → SameWithout (plus r) s o
    plain_plus r s (matched t v) m = at_plus m
    plain_plus r s (failed v) m = at_plus m
    plain_plus r s (raised e) m = tt

    plain_must :
        (r : Rule N) (s : Text) (o : Outcome S)
        → SameWithout r s o
        → SameWithout (must r) s (required o)
    plain_must r s (matched t v) m = at_must m
    plain_must r s (failed v) m = tt
    plain_must r s (raised e) m = tt

    -- Actions do not choose: where a rule matches with actions, or fails with them, it does so
    -- without, and leaves the same text.
    pub Match-SameWithout :
        (act : N → Option (Text → S → Result S)) {r : Rule N} {s : Text} {u : S} {o : Outcome S}
        → Match body leaf act r s u o
        → SameWithout r s o
    Match-SameWithout act (at_leaf {r} {s} {u} l) = plain_leaf r s u (leaf r s) (at_leaf l)
    Match-SameWithout act at_eps = at_eps
    Match-SameWithout act (named {n} {s} {o = o} m) =
        plain_acted (ref n) (act n) s o (plain_name n s o (Match-SameWithout act m))
    Match-SameWithout act (then_on {r' = r'} {o = o} m k) =
        plain_then r' o (Match-SameWithout act m) (Match-SameWithout act k)
    Match-SameWithout act (then_failed m) = then_failed (Match-SameWithout act m)
    Match-SameWithout act (then_raised m) = tt
    Match-SameWithout act (or_first m) = or_first (Match-SameWithout act m)
    Match-SameWithout act (or_second {r' = r'} {o = o} m k) =
        plain_or r' o (Match-SameWithout act m) (Match-SameWithout act k)
    Match-SameWithout act (or_raised m) = tt
    Match-SameWithout act (minus_on {r' = r'} {v = v} {o = o} m k) =
        plain_minus r' v o (Match-SameWithout act m) (Match-SameWithout act k)
    Match-SameWithout act (minus_failed m) = minus_failed (Match-SameWithout act m)
    Match-SameWithout act (minus_raised m) = tt
    Match-SameWithout act (at_opt {r} {s} {o = o} m) = plain_opt r s o (Match-SameWithout act m)
    Match-SameWithout act (star_more {o = o} m k) =
        plain_star o (Match-SameWithout act m) (Match-SameWithout act k)
    Match-SameWithout act (star_end m) = star_end (Match-SameWithout act m)
    Match-SameWithout act (star_raised m) = tt
    Match-SameWithout act (at_plus {r} {s} {o = o} m) = plain_plus r s o (Match-SameWithout act m)
    Match-SameWithout act (at_must {r} {s} {o = o} m) = plain_must r s o (Match-SameWithout act m)

  -- Without actions the only exception is the one that `must` throws.
  abbrev pub OnlyParseError : Outcome Unit → Type 0
  OnlyParseError (matched t v) = Unit
  OnlyParseError (failed v) = Unit
  OnlyParseError (raised e) = e ≡ parse_error

  required-OnlyParseError : (o : Outcome Unit) → OnlyParseError o → OnlyParseError (required o)
  required-OnlyParseError (matched t v) h = tt
  required-OnlyParseError (failed v) h = refl
  required-OnlyParseError (raised e) h = h

  optional-OnlyParseError :
      (s : Text) (o : Outcome Unit) → OnlyParseError o → OnlyParseError (optional s o)
  optional-OnlyParseError s (matched t v) h = tt
  optional-OnlyParseError s (failed v) h = tt
  optional-OnlyParseError s (raised e) h = h

  without-OnlyParseError :
      (o : Outcome Unit) (t : Text) → OnlyParseError o → OnlyParseError (without o t tt)
  without-OnlyParseError (matched [] v) t h = tt
  without-OnlyParseError (matched (c ∷ cs) v) t h = tt
  without-OnlyParseError (failed v) t h = tt
  without-OnlyParseError (raised e) t h = h

  leaf-OnlyParseError : (x : Option Text) → OnlyParseError (of_leaf x tt)
  leaf-OnlyParseError none = tt
  leaf-OnlyParseError (some t) = tt

  pub Match-OnlyParseError :
      {r : Rule N} {s : Text} {u : Unit} {o : Outcome Unit}
      → Match body leaf nothing r s u o
      → OnlyParseError o
  Match-OnlyParseError (at_leaf {r} {s} l) = leaf-OnlyParseError (leaf r s)
  Match-OnlyParseError at_eps = tt
  Match-OnlyParseError (named m) = Match-OnlyParseError m
  Match-OnlyParseError (then_on m k) = Match-OnlyParseError k
  Match-OnlyParseError (then_failed m) = tt
  Match-OnlyParseError (then_raised m) = Match-OnlyParseError m
  Match-OnlyParseError (or_first m) = tt
  Match-OnlyParseError (or_second m k) = Match-OnlyParseError k
  Match-OnlyParseError (or_raised m) = Match-OnlyParseError m
  Match-OnlyParseError (minus_on {t = t} {o = o} m k) =
      without-OnlyParseError o t (Match-OnlyParseError k)
  Match-OnlyParseError (minus_failed m) = tt
  Match-OnlyParseError (minus_raised m) = Match-OnlyParseError m
  Match-OnlyParseError (at_opt {s = s} {o = o} m) =
      optional-OnlyParseError s o (Match-OnlyParseError m)
  Match-OnlyParseError (star_more m k) = Match-OnlyParseError k
  Match-OnlyParseError (star_end m) = tt
  Match-OnlyParseError (star_raised m) = Match-OnlyParseError m
  Match-OnlyParseError (at_plus m) = Match-OnlyParseError m
  Match-OnlyParseError (at_must {o = o} m) = required-OnlyParseError o (Match-OnlyParseError m)
