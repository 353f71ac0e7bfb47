-- ===== src/Grammar/Determined.antt =====
-- The relation Match is a function: what a rule comes to is determined by the text and the state.
use mathlib.Core.Path.{subst}
use rdf_parser.Base.{◌-◌, ◌≡◌, refl, sym, ap, ◌∙◌, true, Option, length, take, Text, Result}
use rdf_parser.Grammar.Rule.{Rule, eps, ref, ◌then◌, ◌or◌, minus, opt, star, plus, must}
use rdf_parser.Grammar.Match.{
  Outcome, matched, failed, raised, is_leaf, without, required, optional, of_leaf, acted, Match,
  at_leaf, at_eps, named, then_on, then_failed, then_raised, or_first, or_second, or_raised,
  minus_on, minus_failed, minus_raised, at_opt, star_more, star_end, star_raised, at_plus, at_must,
}

module _ {N S : Type 0} (body : N → Rule N) (leaf : Rule N → Text → Option Text)
    (act : N → Option (Text → S → Result S)) where
  abbrev M : Rule N → Text → S → Outcome S → Type 0
  M = Match body leaf act

  -- What comes of a rule behind the outcome of its first part.
  abbrev Continues : Rule N → Outcome S → Outcome S → Type 0
  Continues r (matched t v) o = M r t v o
  Continues r (failed v) o = o ≡ failed v
  Continues r (raised e) o = o ≡ raised e

  abbrev Chooses : Rule N → Text → Outcome S → Outcome S → Type 0
  Chooses r s (matched t v) o = o ≡ matched t v
  Chooses r s (failed v) o = M r s v o
  Chooses r s (raised e) o = o ≡ raised e

  abbrev Excepts : Rule N → Text → Outcome S → Outcome S → Type 0
  Excepts r s (matched t v) o =
      (x : Outcome S) × M r (take (length s - length t) s) v x × (o ≡ without x t v)
  Excepts r s (failed v) o = o ≡ failed v
  Excepts r s (raised e) o = o ≡ raised e

  abbrev Repeats : Rule N → Text → Outcome S → Outcome S → Type 0
  Repeats r s (matched t v) o = M (star r) t v o
  Repeats r s (failed v) o = o ≡ matched s v
  Repeats r s (raised e) o = o ≡ raised e

  module _ {r r' : Rule N} {s : Text} {u : S} where
    from_then :
        {o : Outcome S} → M (r then r') s u o → (x : Outcome S) × M r s u x × Continues r' x o
    from_then (then_on {t = t} {v = v} m k) = (matched t v, m, k)
    from_then (then_failed {v = v} m) = (failed v, m, refl)
    from_then (then_raised {e = e} m) = (raised e, m, refl)
    from_then (at_leaf h) = cc

    from_or : {o : Outcome S} → M (r or r') s u o → (x : Outcome S) × M r s u x × Chooses r' s x o
    from_or (or_first {t = t} {v = v} m) = (matched t v, m, refl)
    from_or (or_second {v = v} m k) = (failed v, m, k)
    from_or (or_raised {e = e} m) = (raised e, m, refl)
    from_or (at_leaf h) = cc

    from_minus :
        {o : Outcome S} → M (minus r r') s u o → (x : Outcome S) × M r s u x × Excepts r' s x o
    from_minus (minus_on {t = t} {v = v} {o = x} m k) = (matched t v, m, (x, k, refl))
    from_minus (minus_failed {v = v} m) = (failed v, m, refl)
    from_minus (minus_raised {e = e} m) = (raised e, m, refl)
    from_minus (at_leaf h) = cc

  module _ {r : Rule N} {s : Text} {u : S} where
    from_star : {o : Outcome S} → M (star r) s u o → (x : Outcome S) × M r s u x × Repeats r s x o
    from_star (star_more {t = t} {v = v} m k) = (matched t v, m, k)
    from_star (star_end {v = v} m) = (failed v, m, refl)
    from_star (star_raised {e = e} m) = (raised e, m, refl)
    from_star (at_leaf h) = cc

    from_opt : {o : Outcome S} → M (opt r) s u o → (x : Outcome S) × M r s u x × (o ≡ optional s x)
    from_opt (at_opt {o = x} m) = (x, m, refl)
    from_opt (at_leaf h) = cc

    from_must : {o : Outcome S} → M (must r) s u o → (x : Outcome S) × M r s u x × (o ≡ required x)
    from_must (at_must {o = x} m) = (x, m, refl)
    from_must (at_leaf h) = cc

    from_plus : {o : Outcome S} → M (plus r) s u o → M (r then star r) s u o
    from_plus (at_plus m) = m
    from_plus (at_leaf h) = cc

  from_name :
      {n : N} {s : Text} {u : S} {o : Outcome S}
      → M (ref n) s u o
      → (x : Outcome S) × M (body n) s u x × (o ≡ acted (act n) s x)
  from_name (named {o = x} m) = (x, m, refl)
  from_name (at_leaf h) = cc

  from_eps : {s : Text} {u : S} {o : Outcome S} → M eps s u o → o ≡ matched s u
  from_eps at_eps = refl
  from_eps (at_leaf h) = cc

  from_leaf :
      {r : Rule N} {s : Text} {u : S} {o : Outcome S}
      → is_leaf r ≡ true
      → M r s u o
      → o ≡ of_leaf (leaf r s) u
  from_leaf l (at_leaf h) = refl
  from_leaf l at_eps = cc
  from_leaf l (named m) = cc
  from_leaf l (then_on m k) = cc
  from_leaf l (then_failed m) = cc
  from_leaf l (then_raised m) = cc
  from_leaf l (or_first m) = cc
  from_leaf l (or_second m k) = cc
  from_leaf l (or_raised m) = cc
  from_leaf l (minus_on m k) = cc
  from_leaf l (minus_failed m) = cc
  from_leaf l (minus_raised m) = cc
  from_leaf l (at_opt m) = cc
  from_leaf l (star_more m k) = cc
  from_leaf l (star_end m) = cc
  from_leaf l (star_raised m) = cc
  from_leaf l (at_plus m) = cc
  from_leaf l (at_must m) = cc

  -- Of any rule of any grammar, with any actions, on any text and in any state there is at most one
  -- outcome: whether it matches, what it leaves of the text, the state that the actions leave, and
  -- the exception.
  pub Match-deterministic :
      {r : Rule N} {s : Text} {u : S} {o o' : Outcome S} → M r s u o → M r s u o' → o ≡ o'
  Match-deterministic (at_leaf h) d = sym (from_leaf h d)
  Match-deterministic at_eps d = sym (from_eps d)
  Match-deterministic (named {n} {s} m) d =
      let (x, m', e) = from_name d in ap (acted (act n) s) (Match-deterministic m m') ∙ sym e
  Match-deterministic {o' = o'} (then_on {r' = r'} {o = o} m k) d =
      let (x, m', c) = from_then d in
      Match-deterministic k (subst (λ y. Continues r' y o') (sym (Match-deterministic m m')) c)
  Match-deterministic {o' = o'} (then_failed {r' = r'} m) d =
      let (x, m', c) = from_then d in
      sym (subst (λ y. Continues r' y o') (sym (Match-deterministic m m')) c)
  Match-deterministic {o' = o'} (then_raised {r' = r'} m) d =
      let (x, m', c) = from_then d in
      sym (subst (λ y. Continues r' y o') (sym (Match-deterministic m m')) c)
  Match-deterministic {o' = o'} (or_first {r' = r'} {s = s} m) d =
      let (x, m', c) = from_or d in
      sym (subst (λ y. Chooses r' s y o') (sym (Match-deterministic m m')) c)
  Match-deterministic {o' = o'} (or_second {r' = r'} {s = s} m k) d =
      let (x, m', c) = from_or d in
      Match-deterministic k (subst (λ y. Chooses r' s y o') (sym (Match-deterministic m m')) c)
  Match-deterministic {o' = o'} (or_raised {r' = r'} {s = s} m) d =
      let (x, m', c) = from_or d in
      sym (subst (λ y. Chooses r' s y o') (sym (Match-deterministic m m')) c)
  Match-deterministic {o' = o'} (minus_on {r' = r'} {s = s} {t = t} {v = v} m k) d =
      let (x, m', c) = from_minus d in
      let (y, k', e) = subst (λ z. Excepts r' s z o') (sym (Match-deterministic m m')) c in
      ap (λ z. without z t v) (Match-deterministic k k') ∙ sym e
  Match-deterministic {o' = o'} (minus_failed {r' = r'} {s = s} m) d =
      let (x, m', c) = from_minus d in
      sym (subst (λ y. Excepts r' s y o') (sym (Match-deterministic m m')) c)
  Match-deterministic {o' = o'} (minus_raised {r' = r'} {s = s} m) d =
      let (x, m', c) = from_minus d in
      sym (subst (λ y. Excepts r' s y o') (sym (Match-deterministic m m')) c)
  Match-deterministic (at_opt {s = s} m) d =
      let (x, m', e) = from_opt d in ap (optional s) (Match-deterministic m m') ∙ sym e
  Match-deterministic {o' = o'} (star_more {r = r} {s = s} m k) d =
      let (x, m', c) = from_star d in
      Match-deterministic k (subst (λ y. Repeats r s y o') (sym (Match-deterministic m m')) c)
  Match-deterministic {o' = o'} (star_end {r = r} {s = s} m) d =
      let (x, m', c) = from_star d in
      sym (subst (λ y. Repeats r s y o') (sym (Match-deterministic m m')) c)
  Match-deterministic {o' = o'} (star_raised {r = r} {s = s} m) d =
      let (x, m', c) = from_star d in
      sym (subst (λ y. Repeats r s y o') (sym (Match-deterministic m m')) c)
  Match-deterministic (at_plus m) d = Match-deterministic m (from_plus d)
  Match-deterministic (at_must m) d =
      let (x, m', e) = from_must d in ap required (Match-deterministic m m') ∙ sym e
