-- ===== src/Grammar/Shorter.antt =====
-- What rules leave of a text under the relation Match, for any grammar.
use rdf_parser.Base.{
  ℕ, ◌-◌, ◌≤◌, ◌<◌, ◌≡◌, refl, Bool, true, false, ◌&&◌, ◌||◌, [], ◌∷◌, Option, none, some, arith,
  length, take, Text, Result, ok, throw,
}
use rdf_parser.Grammar.Rule.{Rule}
use rdf_parser.Grammar.Progress.{can_be_empty}
use rdf_parser.Grammar.Match.{
  Outcome, matched, failed, raised, is_leaf, without, required, optional, of_leaf, of_result, acted,
  Leaves, Match, at_leaf, at_eps, named, then_on, then_failed, then_raised, or_first, or_second,
  or_raised, minus_on, minus_failed, minus_raised, at_opt, star_more, star_end, star_raised,
  at_plus, at_must,
}

-- A match leaves no more than the text, and less if the rule cannot be empty.
abbrev pub Shorter : {S : Type 0} → Bool → ℕ → Outcome S → Type 0
Shorter empty m (matched t u) = (length t ≤ m) × (empty ≡ false → length t < m)
Shorter empty m (failed u) = Unit
Shorter empty m (raised e) = Unit

module _ {S : Type 0} where
  then-Shorter :
      (x y : Bool) {m : ℕ} (t : Text) (v : S) (o : Outcome S)
      → Shorter x m (matched t v)
      → Shorter y (length t) o
      → Shorter (x && y) m o
  then-Shorter true y t v (matched w u) h k = ground arith
  then-Shorter false y t v (matched w u) h k = ground arith
  then-Shorter x y t v (failed u) h k = tt
  then-Shorter x y t v (raised e) h k = tt

  first-Shorter :
      (x y : Bool) {m : ℕ} (t : Text) (v : S)
      → Shorter x m (matched t v)
      → Shorter (x || y) m (matched t v)
  first-Shorter true y t v h = ground arith
  first-Shorter false y t v h = ground arith

  second-Shorter : (x y : Bool) (m : ℕ) (o : Outcome S) → Shorter y m o → Shorter (x || y) m o
  second-Shorter true y m (matched t u) h = ground arith
  second-Shorter false y m o h = h
  second-Shorter true y m (failed u) h = tt
  second-Shorter true y m (raised e) h = tt

  without-Shorter :
      (x : Bool) {m : ℕ} (t : Text) (v : S) (o : Outcome S)
      → Shorter x m (matched t v)
      → Shorter x m (without o t v)
  without-Shorter x t v (matched [] u) h = tt
  without-Shorter x t v (matched (c ∷ cs) u) h = h
  without-Shorter x t v (failed u) h = h
  without-Shorter x t v (raised e) h = tt

  optional-Shorter :
      (x : Bool) (s : Text) (o : Outcome S)
      → Shorter x (length s) o
      → Shorter true (length s) (optional s o)
  optional-Shorter x s (matched t u) h = ground arith
  optional-Shorter x s (failed u) h = ground arith
  optional-Shorter x s (raised e) h = tt

  required-Shorter : (x : Bool) (m : ℕ) (o : Outcome S) → Shorter x m o → Shorter x m (required o)
  required-Shorter x m (matched t u) h = h
  required-Shorter x m (failed u) h = tt
  required-Shorter x m (raised e) h = tt

  more-Shorter :
      (x : Bool) {m : ℕ} (t : Text) (v : S) (o : Outcome S)
      → Shorter x m (matched t v)
      → Shorter true (length t) o
      → Shorter true m o
  more-Shorter x t v (matched w u) h k = ground arith
  more-Shorter x t v (failed u) h k = tt
  more-Shorter x t v (raised e) h k = tt

  plus-Shorter : (x : Bool) (m : ℕ) (o : Outcome S) → Shorter (x && true) m o → Shorter x m o
  plus-Shorter true m o h = h
  plus-Shorter false m o h = h

  result-Shorter :
      (x : Bool) (m : ℕ) (t : Text) (v : S) (r : Result S)
      → Shorter x m (matched t v)
      → Shorter x m (of_result t r)
  result-Shorter x m t v (ok u) h = h
  result-Shorter x m t v (throw e) h = tt

  acted-Shorter :
      (x : Bool) (m : ℕ) (a : Option (Text → S → Result S)) (s : Text) (o : Outcome S)
      → Shorter x m o
      → Shorter x m (acted a s o)
  acted-Shorter x m none s o h = h
  acted-Shorter x m (some f) s (matched t u) h =
      result-Shorter x m t u (f (take (length s - length t) s) u) h
  acted-Shorter x m (some f) s (failed u) h = tt
  acted-Shorter x m (some f) s (raised e) h = tt

module _ {N S : Type 0} (body : N → Rule N) (leaf : Rule N → Text → Option Text)
    (act : N → Option (Text → S → Result S)) (b : Leaves leaf) (e : N → Bool)
    (agrees : (n : N) → can_be_empty e (body n) ≡ e n) where
  leaf-Shorter :
      (r : Rule N) (s : Text) (u : S) (o : Option Text)
      → is_leaf r ≡ true
      → leaf r s ≡ o
      → Shorter (can_be_empty e r) (length s) (of_leaf o u)
  leaf-Shorter r s u none l h = tt
  leaf-Shorter r s u (some t) l h = (b.shrinks r s t h, λ c. b.consumes e r s t l c h)

  pub Match-Shorter :
      {r : Rule N} {s : Text} {u : S} {o : Outcome S}
      → Match body leaf act r s u o
      → Shorter (can_be_empty e r) (length s) o
  unfolding can_be_empty
  Match-Shorter (at_leaf {r} {s} {u} l) = leaf-Shorter r s u (leaf r s) l refl
  Match-Shorter at_eps = ground arith
  Match-Shorter (named {n} {s} {o = o} m) =
      acted-Shorter _ _ (act n) s o (rw (agrees n) at (Match-Shorter m))
  Match-Shorter (then_on {t = t} {v = v} {o = o} m k) =
      then-Shorter _ _ t v o (Match-Shorter m) (Match-Shorter k)
  Match-Shorter (then_failed m) = tt
  Match-Shorter (then_raised m) = tt
  Match-Shorter (or_first {t = t} {v = v} m) = first-Shorter _ _ t v (Match-Shorter m)
  Match-Shorter (or_second {o = o} m k) = second-Shorter _ _ _ o (Match-Shorter k)
  Match-Shorter (or_raised m) = tt
  Match-Shorter (minus_on {t = t} {v = v} {o = o} m k) = without-Shorter _ t v o (Match-Shorter m)
  Match-Shorter (minus_failed m) = tt
  Match-Shorter (minus_raised m) = tt
  Match-Shorter (at_opt {s = s} {o = o} m) = optional-Shorter _ s o (Match-Shorter m)
  Match-Shorter (star_more {t = t} {v = v} {o = o} m k) =
      more-Shorter _ t v o (Match-Shorter m) (Match-Shorter k)
  Match-Shorter (star_end m) = ground arith
  Match-Shorter (star_raised m) = tt
  Match-Shorter (at_plus {o = o} m) = plus-Shorter _ _ o (Match-Shorter m)
  Match-Shorter (at_must {o = o} m) = required-Shorter _ _ o (Match-Shorter m)
