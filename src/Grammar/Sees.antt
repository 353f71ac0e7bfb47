-- ===== src/Grammar/Sees.antt =====
-- Grammar.hpp: what a look at the first byte sees is what the rule does.
use mathlib.Core.Path.{subst}
use rdf_parser.Base.{
  ℕ, zero, suc, ◌-◌, ◌≡◌, refl, Bool, true, false, [], ◌∷◌, Option, none, some, length, take, Text,
  Result, arith,
}
use rdf_parser.Grammar.Rule.{
  Rule, eps, any, eof, one, none_of, between, code_point, str, ref, ◌then◌, ◌or◌, minus, opt, star,
  plus, must,
}
use rdf_parser.Grammar.Bytes.{IsByteWise, takes_byte, needs_byte}
use rdf_parser.Grammar.Match.{
  matched, failed, is_leaf, without, of_leaf, Match, at_leaf, at_eps, named, then_on, then_failed,
  or_first, or_second, minus_on, minus_failed, at_opt, star_end, at_plus, at_must,
}
use rdf_parser.Grammar.Look.{
  Look, fails, skips, takes, unknown, look, look_leaf, head, tail, of_byte, of_need, of_name,
  of_then, of_or, of_minus, of_opt, of_star, of_plus, of_must,
}

module _ {N : Type 0} (body : N → Rule N) (quiet : N → Bool) {S : Type 0}
    (leaf : Rule N → Text → Option Text) (w : IsByteWise leaf)
    (act : N → Option (Text → S → Result S))
    (silent : (n : N) → quiet n ≡ true → act n ≡ none) where
  -- What the answers say.
  abbrev pub Sees : Look → Rule N → Text → Type 0
  Sees fails r s = (u : S) → Match body leaf act r s u (failed u)
  Sees skips r s = (u : S) → Match body leaf act r s u (matched s u)
  Sees takes r s = (u : S) → Match body leaf act r s u (matched (tail s) u)
  Sees unknown r s = Unit

  pub leaf_match :
      (r : Rule N) (s : Text) (u : S) (x : Option Text)
      → is_leaf r ≡ true
      → leaf r s ≡ x
      → Match body leaf act r s u (of_leaf x u)
  leaf_match r s u x l h = subst (λ y. Match body leaf act r s u (of_leaf y u)) h (at_leaf l)

  need-Sees :
      (r : Rule N) → is_leaf r ≡ true → (x : Bool) → needs_byte r ≡ x → Sees (of_need x) r []
  need-Sees r l false h = tt
  need-Sees r l true h = λ u. leaf_match r [] u none l (w.needs r h)

  byte-Sees :
      (r : Rule N) (c : ℕ) (s : Text)
      → is_leaf r ≡ true
      → (x : Option Bool) → takes_byte r c ≡ x
      → Sees (of_byte x) r (c ∷ s)
  byte-Sees r c s l none h = tt
  byte-Sees r c s l (some true) h = λ u. leaf_match r (c ∷ s) u (some s) l (w.takes r c s h)
  byte-Sees r c s l (some false) h = λ u. leaf_match r (c ∷ s) u none l (w.refuses r c s h)

  leaf-Sees : (r : Rule N) (s : Text) → is_leaf r ≡ true → Sees (look_leaf r (head s)) r s
  unfolding look_leaf
  leaf-Sees r (c ∷ s) l = byte-Sees r c s l (takes_byte r c) refl
  leaf-Sees eof [] l = λ u. leaf_match eof [] u (some []) refl w.ends
  leaf-Sees any [] l = need-Sees any refl _ refl
  leaf-Sees (one cs) [] l = need-Sees (one cs) refl _ refl
  leaf-Sees (none_of cs) [] l = need-Sees (none_of cs) refl _ refl
  leaf-Sees (between ps) [] l = need-Sees (between ps) refl _ refl
  leaf-Sees (code_point ps) [] l = need-Sees (code_point ps) refl _ refl
  leaf-Sees (str cs) [] l = need-Sees (str cs) refl _ refl
  leaf-Sees r [] l = need-Sees r l _ refl

  name-Sees :
      (n : N) (s : Text) (l : Look)
      → Sees l (body n) s
      → (x : Bool) → quiet n ≡ x
      → Sees (of_name x l) (ref n) s
  name-Sees n s fails h x q = λ u. failed_name (act n) u refl (h u)
    where
      failed_name :
          (a : Option (Text → S → Result S)) (u : S)
          → act n ≡ a
          → Match body leaf act (body n) s u (failed u)
          → Match body leaf act (ref n) s u (failed u)
      failed_name none u e m = rw e at (named m)
      failed_name (some f) u e m = rw e at (named m)
  name-Sees n s skips h true q = λ u. rw (silent n q) at (named {n = n} (h u))
  name-Sees n s takes h true q = λ u. rw (silent n q) at (named {n = n} (h u))
  name-Sees n s unknown h true q = tt
  name-Sees n s skips h false q = tt
  name-Sees n s takes h false q = tt
  name-Sees n s unknown h false q = tt

  then-Sees :
      (r r' : Rule N) (s : Text) (l l' : Look)
      → Sees l r s
      → Sees l' r' s
      → Sees (of_then l l') (r then r') s
  then-Sees r r' s fails l' h k = λ u. then_failed (h u)
  then-Sees r r' s skips fails h k = λ u. then_on (h u) (k u)
  then-Sees r r' s skips skips h k = λ u. then_on (h u) (k u)
  then-Sees r r' s skips takes h k = λ u. then_on (h u) (k u)
  then-Sees r r' s skips unknown h k = tt
  then-Sees r r' s takes l' h k = tt
  then-Sees r r' s unknown l' h k = tt

  or-Sees :
      (r r' : Rule N) (s : Text) (l l' : Look)
      → Sees l r s
      → Sees l' r' s
      → Sees (of_or l l') (r or r') s
  or-Sees r r' s fails fails h k = λ u. or_second (h u) (k u)
  or-Sees r r' s fails skips h k = λ u. or_second (h u) (k u)
  or-Sees r r' s fails takes h k = λ u. or_second (h u) (k u)
  or-Sees r r' s fails unknown h k = tt
  or-Sees r r' s skips l' h k = λ u. or_first (h u)
  or-Sees r r' s takes l' h k = λ u. or_first (h u)
  or-Sees r r' s unknown l' h k = tt

  head-taken : (s : Text) → head (take (length s - length (tail s)) s) ≡ head s
  head-taken [] = refl
  head-taken (c ∷ s) = ground arith

  tail-taken : (s : Text) → tail (take (length s - length (tail s)) s) ≡ []
  tail-taken [] = refl
  tail-taken (c ∷ s) = ground arith

  minus-Sees :
      (r r' : Rule N) (s : Text) (l l' : Look)
      → Sees l r s
      → Sees l' r' (take (length s - length (tail s)) s)
      → Sees (of_minus l l') (minus r r') s
  minus-Sees r r' s fails l' h k = λ u. minus_failed (h u)
  minus-Sees r r' s takes fails h k = λ u. minus_on (h u) (k u)
  minus-Sees r r' s takes skips h k = tt
  minus-Sees r r' s takes takes h k = λ u.
      subst (λ t. Match body leaf act (minus r r') s u (without (matched t u) (tail s) u))
        (tail-taken s) (minus_on (h u) (k u))
  minus-Sees r r' s takes unknown h k = tt
  minus-Sees r r' s skips l' h k = tt
  minus-Sees r r' s unknown l' h k = tt

  opt-Sees : (r : Rule N) (s : Text) (l : Look) → Sees l r s → Sees (of_opt l) (opt r) s
  opt-Sees r s fails h = λ u. at_opt (h u)
  opt-Sees r s skips h = λ u. at_opt (h u)
  opt-Sees r s takes h = λ u. at_opt (h u)
  opt-Sees r s unknown h = tt

  star-Sees : (r : Rule N) (s : Text) (l : Look) → Sees l r s → Sees (of_star l) (star r) s
  star-Sees r s fails h = λ u. star_end (h u)
  star-Sees r s skips h = tt
  star-Sees r s takes h = tt
  star-Sees r s unknown h = tt

  plus-Sees : (r : Rule N) (s : Text) (l : Look) → Sees l r s → Sees (of_plus l) (plus r) s
  plus-Sees r s fails h = λ u. at_plus (then_failed (h u))
  plus-Sees r s skips h = tt
  plus-Sees r s takes h = tt
  plus-Sees r s unknown h = tt

  must-Sees : (r : Rule N) (s : Text) (l : Look) → Sees l r s → Sees (of_must l) (must r) s
  must-Sees r s fails h = tt
  must-Sees r s skips h = λ u. at_must (h u)
  must-Sees r s takes h = λ u. at_must (h u)
  must-Sees r s unknown h = tt

  -- What a look body quiet at the first byte sees is what the rule does: it fails, or matches nothing, or
  -- matches that byte, and no action has been called.
  pub look-Sees : (fuel : ℕ) (r : Rule N) (s : Text) → Sees (look body quiet fuel r (head s)) r s
  unfolding look
  look-Sees fuel eps s = λ u. at_eps
  look-Sees zero (ref n) s = tt
  look-Sees (suc fuel) (ref n) s = name-Sees n s _ (look-Sees fuel (body n) s) (quiet n) refl
  look-Sees fuel (r then r') s = then-Sees r r' s _ _ (look-Sees fuel r s) (look-Sees fuel r' s)
  look-Sees fuel (r or r') s = or-Sees r r' s _ _ (look-Sees fuel r s) (look-Sees fuel r' s)
  look-Sees fuel (minus r r') s =
      minus-Sees r r' s _ _ (look-Sees fuel r s)
        (rw (head-taken s) at (look-Sees fuel r' (take (length s - length (tail s)) s)))
  look-Sees fuel (opt r) s = opt-Sees r s _ (look-Sees fuel r s)
  look-Sees fuel (star r) s = star-Sees r s _ (look-Sees fuel r s)
  look-Sees fuel (plus r) s = plus-Sees r s _ (look-Sees fuel r s)
  look-Sees fuel (must r) s = must-Sees r s _ (look-Sees fuel r s)
  look-Sees fuel any s = leaf-Sees any s refl
  look-Sees fuel eof s = leaf-Sees eof s refl
  look-Sees fuel (one cs) s = leaf-Sees (one cs) s refl
  look-Sees fuel (none_of cs) s = leaf-Sees (none_of cs) s refl
  look-Sees fuel (between ps) s = leaf-Sees (between ps) s refl
  look-Sees fuel (code_point ps) s = leaf-Sees (code_point ps) s refl
  look-Sees fuel (str cs) s = leaf-Sees (str cs) s refl
