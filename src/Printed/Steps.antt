-- ===== src/Printed/Steps.antt =====
-- Grammar.hpp with its actions: rules on a text whose front is known. The state may be any that has
-- a BasicState in it.
use mathlib.Core.Path.{subst}
use rdf_parser.Base.{
  ℕ, ◌-◌, ◌≡◌, refl, sym, ap, ◌∙◌, Bool, true, false, ◌&&◌, [], ◌∷◌, ◌++◌, Option, none, some,
  arith, All, length, length-append, take, take-length_append, Text, Result, ok, throw, ◌>>=◌,
}
use rdf_parser.Grammar.Rule.{Rule, ref, star}
use rdf_parser.Grammar.Names.{Name}
use rdf_parser.Grammar.Body.{body}
use rdf_parser.Grammar.Bytes.{IsByteWise}
use rdf_parser.Grammar.Match.{Outcome, matched, of_result, acted, Match, named, star_more, star_end}
use rdf_parser.Grammar.Sees.{Sees, look-Sees}
use rdf_parser.Grammar.Look.{Look, fails, takes, head, look}
use rdf_parser.States.Basic.{BasicState}
use rdf_parser.Actions.Table.{ActionOn, basic_action, joining_action}

abbrev pub is_none {ℓ} : {A : Type ℓ} → Option A → Bool
is_none none = true
is_none (some a) = false

-- The rules of a document that have no action.
unfoldable pub silent_name : Name → Bool
unfolding basic_action joining_action
silent_name n = is_none (joining_action false n) && is_none (basic_action false n)

-- How a state holds a BasicState, and that the actions on terms act on that alone.
pub record Terms {S : Type 0} (act : Name → Option (ActionOn S)) : Type 0 where
  pub get : S → BasicState false
  pub set : BasicState false → S → S
  pub get_set : (b : BasicState false) (s : S) → get (set b s) ≡ b
  pub set_set : (b c : BasicState false) (s : S) → set b (set c s) ≡ set b s
  pub set_get : (s : S) → set (get s) s ≡ s
  pub silent : (n : Name) → silent_name n ≡ true → act n ≡ none
  pub basic :
      (n : Name) (f : ActionOn (BasicState false))
      → basic_action false n ≡ some f
      → (g : ActionOn S) × (act n ≡ some g)
        × ((w : Text) (s : S) (b : BasicState false) → f w (get s) ≡ ok b → g w s ≡ ok (set b s))

pub ok_bound {ℓ κ} :
    {A : Type ℓ} {B : Type κ} (r : Result A) (f : A → Result B) (x : B)
    → (r >>= f) ≡ ok x
    → (a : A) × (r ≡ ok a) × (f a ≡ ok x)
ok_bound (ok a) f x h = (a, refl, h)
ok_bound (throw e) f x h = cc

consumed : (w rest : Text) → take (length (w ++ rest) - length rest) (w ++ rest) ≡ w
consumed w rest = rw (only w rest) (take-length_append w rest)
  where
    only : (w rest : Text) → length (w ++ rest) - length rest ≡ length w
    only w rest = omega (arith, length-append w rest)

abbrev pub fuel : ℕ
fuel = 16

module _ {S : Type 0} (leaf : Rule Name → Text → Option Text) (w : IsByteWise leaf)
    (act : Name → Option (ActionOn S)) (terms : Terms act) where
  open terms use {get, set, get_set, set_set, silent, basic}

  abbrev pub M : Rule Name → Text → S → Outcome S → Type 0
  M = Match body leaf act

  -- What the first byte decides.
  pub sees :
      (r : Rule Name) (t : Text)
      → Sees body silent_name leaf w act silent (look body silent_name fuel r (head t)) r t
  sees r t = look-Sees body silent_name leaf w act silent fuel r t

  pub see :
      (l : Look) (r : Rule Name) (t : Text)
      → look body silent_name fuel r (head t) ≡ l
      → Sees body silent_name leaf w act silent l r t
  see l r t h = subst (λ x. Sees body silent_name leaf w act silent x r t) h (sees r t)

  -- A loop over bytes that its rule takes one by one.
  pub star_bytes :
      (r : Rule Name) (cs rest : Text) (u : S)
      → All (λ c. look body silent_name fuel r (some c) ≡ takes) cs
      → look body silent_name fuel r (head rest) ≡ fails
      → M (star r) (cs ++ rest) u (matched rest u)
  star_bytes r [] rest u h e = star_end (see fails r rest e u)
  star_bytes r (c ∷ cs) rest u h e =
      star_more (see takes r (c ∷ (cs ++ rest)) h.0 u) (star_bytes r cs rest u h.1 e)

  -- A rule with an action of BasicActions.hpp.
  pub with_action :
      (n : Name) (f : ActionOn (BasicState false)) (t rest : Text) (s s₀ : S)
      (x b : BasicState false)
      → basic_action false n ≡ some f
      → M (body n) (t ++ rest) s₀ (matched rest (set x s))
      → f t x ≡ ok b
      → M (ref n) (t ++ rest) s₀ (matched rest (set b s))
  with_action n f t rest s s₀ x b h m e =
      let (g, p, k) = basic n f h in
      let r : g t (set x s) ≡ ok (set b (set x s)) = k t (set x s) b (ap (f t) (get_set x s) ∙ e) in
      subst (λ o. M (ref n) (t ++ rest) s₀ o)
        (ap (λ a. acted a (t ++ rest) (matched rest (set x s))) p
          ∙ ap (λ y. of_result rest (g y (set x s))) (consumed t rest)
          ∙ ap (of_result rest) r
          ∙ ap (matched rest) (set_set b x s))
        (named m)

  -- A rule without one.
  pub without_action :
      (n : Name) (t : Text) (s : S) (o : Outcome S)
      → silent_name n ≡ true
      → M (body n) t s o
      → M (ref n) t s o
  without_action n t s o h m = subst (λ a. M (ref n) t s (acted a t o)) (silent n h) (named m)

  -- Two texts that are one.
  pub along :
      {r : Rule Name} {t t' : Text} {s : S} {o : Outcome S} → t ≡ t' → M r t' s o → M r t s o
  along {r = r} {s = s} {o = o} h m = subst (λ x. M r x s o) (sym h) m

-- A token is followed by a space, or by nothing.
abbrev pub Ended : Text → Type 0
Ended [] = Unit
Ended (c ∷ s) = c ≡ 32

pub stops :
    (r : Rule Name) (rest : Text)
    → look body silent_name fuel r none ≡ fails
    → look body silent_name fuel r (some 32) ≡ fails
    → Ended rest
    → look body silent_name fuel r (head rest) ≡ fails
stops r [] h g e = h
stops r (c ∷ s) h g e = rw e g
