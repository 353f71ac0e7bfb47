-- ===== src/Grammar/Total.antt =====
-- The outcomes of rules under the relation Match, for any grammar.
use rdf_parser.Base.{
  ℕ, zero, suc, ◌-◌, ◌≤◌, ◌<◌, ◌≡◌, ◌⊎◌, inl, inr, refl, Bool, true, false, [], ◌∷◌, Option, arith,
  length, take, Text, ltb→lt, Result,
}
use rdf_parser.Grammar.Rule.{
  Rule, eps, any, eof, one, none_of, between, code_point, str, ref, ◌then◌, ◌or◌, minus, opt, star,
  plus, must,
}
use rdf_parser.Grammar.Progress.{can_be_empty, loops_consume, starts_below}
use rdf_parser.Grammar.Match.{
  Outcome, matched, failed, raised, without, required, optional, of_leaf, acted, Leaves, Match,
  at_leaf, at_eps, named, then_on, then_failed, then_raised, or_first, or_second, or_raised,
  minus_on, minus_failed, minus_raised, at_opt, star_more, star_end, star_raised, at_plus, at_must,
}
use rdf_parser.Grammar.Shorter.{Shorter, Match-Shorter}

length-take_le : (n : ℕ) (s : Text) → length (take n s) ≤ length s
length-take_le zero s = omega arith
length-take_le (suc n) [] = omega arith
length-take_le (suc n) (c ∷ s) = omega (arith, length-take_le n s)

module _ {N S : Type 0} (body : N → Rule N) (leaf : Rule N → Text → Option Text)
    (act : N → Option (Text → S → Result S)) (b : Leaves leaf) (e : N → Bool)
    (agrees : (n : N) → can_be_empty e (body n) ≡ e n) where
  -- What a rule comes to.
  abbrev pub ComesTo : Rule N → Text → S → Type 0
  ComesTo r s u = (o : Outcome S) × Match body leaf act r s u o

  -- The parts of a rule, put together.
  ends_then :
      {r r' : Rule N} {s : Text} {u : S}
      → ComesTo r s u
      → ((t : Text) (v : S) → Match body leaf act r s u (matched t v) → ComesTo r' t v)
      → ComesTo (r then r') s u
  ends_then (matched t v, a) k = let (o, c) = k t v a in (o, then_on a c)
  ends_then (failed v, a) k = (failed v, then_failed a)
  ends_then (raised e, a) k = (raised e, then_raised a)

  ends_or :
      {r r' : Rule N} {s : Text} {u : S}
      → ComesTo r s u
      → ((v : S) → ComesTo r' s v)
      → ComesTo (r or r') s u
  ends_or (matched t v, a) k = (matched t v, or_first a)
  ends_or (failed v, a) k = let (o, c) = k v in (o, or_second a c)
  ends_or (raised e, a) k = (raised e, or_raised a)

  ends_minus :
      {r r' : Rule N} {s : Text} {u : S}
      → ComesTo r s u
      → ((t : Text) (v : S) → ComesTo r' (take (length s - length t) s) v)
      → ComesTo (minus r r') s u
  ends_minus (matched t v, a) k = let (o, c) = k t v in (without o t v, minus_on a c)
  ends_minus (failed v, a) k = (failed v, minus_failed a)
  ends_minus (raised e, a) k = (raised e, minus_raised a)

  ends_star :
      {r : Rule N} {s : Text} {u : S}
      → ComesTo r s u
      → ((t : Text) (v : S) → Match body leaf act r s u (matched t v) → ComesTo (star r) t v)
      → ComesTo (star r) s u
  ends_star (matched t v, a) k = let (o, c) = k t v a in (o, star_more a c)
  ends_star {s = s} (failed v, a) k = (matched s v, star_end a)
  ends_star (raised e, a) k = (raised e, star_raised a)

  module _ (rank : N → ℕ) where
    -- What is known of names: an outcome on shorter texts, and for smaller ranks.
    abbrev Known : ℕ → ℕ → Type 0
    Known m k =
        (n : N) (s : Text) (u : S)
        → length s ≤ m
        → (length s < m) ⊎ (rank n < k)
        → ComesTo (ref n) s u

    -- Where a rule may be tried.
    abbrev MayStart : ℕ → ℕ → Rule N → Text → Type 0
    MayStart m k r s = (length s ≤ m) × ((length s < m) ⊎ (starts_below e rank k r ≡ true))

    -- A loop, where each round ends and consumes.
    loop_ends :
        (m k : ℕ) (r : Rule N)
        → ((s : Text) (u : S) → MayStart m k r s → ComesTo r s u)
        → can_be_empty e r ≡ false
        → (j : ℕ) (s : Text) (u : S) → length s ≤ j
        → MayStart m k r s
        → ComesTo (star r) s u
    loop_ends m k r each c zero s u q p =
        ends_star (each s u p)
          (λ t v a. absurd (omega (arith, (Match-Shorter body leaf act b e agrees a).1 c)))
    loop_ends m k r each c (suc j) s u q p = ends_star (each s u p) (λ t v a.
        let less = (Match-Shorter body leaf act b e agrees a).1 c in
        loop_ends m k r each c j t v (omega (arith, less))
          (omega (arith, less), inl (omega (arith, less))))

    rank_below :
        (m k : ℕ) (n : N) (s : Text)
        → (length s < m) ⊎ (starts_below e rank k (ref n) ≡ true)
        → (length s < m) ⊎ (rank n < k)
    unfolding starts_below
    rank_below m k n s (inl a) = inl a
    rank_below m k n s (inr a) = inr (ltb→lt _ _ a)

    later_start :
        (m k : ℕ) (r : Rule N) (s t : Text) (v : S)
        → can_be_empty e r ≡ false
        → length s ≤ m
        → Shorter (can_be_empty e r) (length s) (matched t v)
        → MayStart m k r t
    later_start m k r s t v c p less = (omega (arith, less.0), inl (omega (arith, less.1 c)))

    rule_total :
        (m k : ℕ) (r : Rule N) (s : Text) (u : S)
        → Known m k
        → loops_consume e r ≡ true
        → MayStart m k r s
        → ComesTo r s u
    unfolding loops_consume starts_below can_be_empty
    rule_total m k eps s u h l p = (matched s u, at_eps)
    rule_total m k any s u h l p = (of_leaf (leaf any s) u, at_leaf refl)
    rule_total m k eof s u h l p = (of_leaf (leaf eof s) u, at_leaf refl)
    rule_total m k (one cs) s u h l p = (of_leaf (leaf (one cs) s) u, at_leaf refl)
    rule_total m k (none_of cs) s u h l p = (of_leaf (leaf (none_of cs) s) u, at_leaf refl)
    rule_total m k (between ps) s u h l p = (of_leaf (leaf (between ps) s) u, at_leaf refl)
    rule_total m k (code_point ps) s u h l p = (of_leaf (leaf (code_point ps) s) u, at_leaf refl)
    rule_total m k (str cs) s u h l p = (of_leaf (leaf (str cs) s) u, at_leaf refl)
    rule_total m k (ref n) s u h l p = h n s u p.0 (rank_below m k n s p.1)
    rule_total m k (r then r') s u h l p =
        ends_then (rule_total m k r s u h (ground arith) (ground arith)) (λ t v a.
          let less = Match-Shorter body leaf act b e agrees a in
          rule_total m k r' t v h (ground arith) (ground arith))
    rule_total m k (r or r') s u h l p =
        ends_or (rule_total m k r s u h (ground arith) (ground arith))
          (λ v. rule_total m k r' s v h (ground arith) (ground arith))
    rule_total m k (minus r r') s u h l p =
        ends_minus (rule_total m k r s u h (ground arith) (ground arith)) (λ t v.
          rule_total m k r' (take (length s - length t) s) v h (ground arith)
            (ground (arith, length-take_le (length s - length t) s)))
    rule_total m k (opt r) s u h l p =
        let (o, a) = rule_total m k r s u h l p in (optional s o, at_opt a)
    rule_total m k (star r) s u h l p =
        loop_ends m k r (λ t v q. rule_total m k r t v h (ground arith) q) (ground arith) (length s)
          s u (omega arith) p
    rule_total m k (plus r) s u h l p =
        let (o, a) = ends_then (rule_total m k r s u h (ground arith) p) (λ t v a.
          loop_ends m k r (λ w x q. rule_total m k r w x h (ground arith) q) (ground arith)
            (length t) t v (omega arith)
            (later_start m k r s t v (ground arith) p.0
              (Match-Shorter body leaf act b e agrees a))) in
        (o, at_plus a)
    rule_total m k (must r) s u h l p =
        let (o, a) = rule_total m k r s u h l p in (required o, at_must a)

    module _ (loops : (n : N) → loops_consume e (body n) ≡ true)
        (falls : (n : N) → starts_below e rank (rank n) (body n) ≡ true) where
      body_ends :
          (m k : ℕ) (n : N) (s : Text) (u : S)
          → Known m k
          → length s ≤ m
          → rank n ≤ k
          → ComesTo (ref n) s u
      body_ends m k n s u h q below =
          let (o, a) =
            rule_total m (rank n) (body n) s u
              (λ j w x d c. h j w x d (lower_rank m k j n w below c)) (loops n)
              (q, inr (falls n)) in
          (acted (act n) s o, named a)
        where
          lower_rank :
              (m k : ℕ) (j n : N) (w : Text)
              → rank n ≤ k
              → (length w < m) ⊎ (rank j < rank n)
              → (length w < m) ⊎ (rank j < k)
          lower_rank m k j n w below (inl a) = inl a
          lower_rank m k j n w below (inr a) = inr (omega arith)

      names-Known : (m k : ℕ) → Known m k
      names-Known zero k n s u q (inl a) = absurd (omega arith)
      names-Known zero zero n s u q (inr a) = absurd (omega arith)
      names-Known (suc m) zero n s u q (inr a) = absurd (omega arith)
      names-Known (suc m) k n s u q (inl a) =
          names-Known m (suc (rank n)) n s u (omega arith) (inr (omega arith))
      names-Known zero (suc k) n s u q (inr a) =
          body_ends zero k n s u (names-Known zero k) q (omega arith)
      names-Known (suc m) (suc k) n s u q (inr a) =
          body_ends (suc m) k n s u (names-Known (suc m) k) q (omega arith)

      -- Every name of the grammar comes to an outcome on every text.
      pub every_name_ends : (n : N) (s : Text) (u : S) → ComesTo (ref n) s u
      every_name_ends n s u =
          names-Known (length s) (suc (rank n)) n s u (omega arith) (inr (omega arith))
