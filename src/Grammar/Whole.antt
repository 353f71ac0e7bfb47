-- ===== src/Grammar/Whole.antt =====
-- Grammar.hpp: the outcomes of its rules, and of the whole grammar.
use rdf_parser.Base.{
  ◌<◌, ◌≡◌, refl, Bool, true, false, [], Option, none, some, arith, length, Text, Result,
}
use rdf_parser.Grammar.Rule.{Rule, eof, ref, ◌then◌, ◌or◌, must}
use rdf_parser.Grammar.Names.{Name, ignored, grammar, turtle_doc, triples_block}
use rdf_parser.Grammar.Body.{body, grammar_body}
use rdf_parser.Grammar.Progress.{can_be_empty, empty_name, rank, body-progress}
use rdf_parser.Grammar.Match.{
  Outcome, matched, failed, raised, of_leaf, required, Leaves, Match, at_leaf, named, then_on,
  then_failed, then_raised, or_first, or_second, or_raised, at_must,
}
use rdf_parser.Grammar.Shorter.{Match-Shorter}
use rdf_parser.Grammar.Total.{every_name_ends}

-- What can come of a grammar.
abbrev pub WholeText : {S : Type 0} → Text → Outcome S → Type 0
WholeText s (matched t v) = (t ≡ []) × (0 < length s)
WholeText s (failed v) = ⊥
WholeText s (raised e) = Unit

module _ {S : Type 0} (leaf : Rule Name → Text → Option Text)
    (act : Name → Option (Text → S → Result S)) (b : Leaves leaf) where
  -- Whatever the actions do: every rule of the grammar comes to an outcome on every text, which is a
  -- match, a failure or an exception. No rule loops.
  pub grammar_ends :
      (n : Name) (s : Text) (u : S) → (o : Outcome S) × Match body leaf act (ref n) s u o
  grammar_ends =
      every_name_ends body leaf act b empty_name (λ n. (body-progress n).0) rank
        (λ n. (body-progress n).1) (λ n. (body-progress n).2)

  of_leaf-matched : (x : Option Text) (t : Text) (u v : S) → of_leaf x u ≡ matched t v → x ≡ some t
  of_leaf-matched none t u v e = cc
  of_leaf-matched (some w) t u v e = cc

  after_eof :
      (s : Text) (u : S) (o : Outcome S)
      → Match body leaf act eof s u o
      → (t : Text) (v : S) → o ≡ matched t v
      → t ≡ []
  after_eof s u o (at_leaf h) t v e = b.at_end s t (of_leaf-matched (leaf eof s) t u v e)

  -- A rule that consumes, and then the end of the text.
  then_eof :
      (n : Name) (s : Text) (u : S) (o : Outcome S)
      → empty_name n ≡ false
      → Match body leaf act (ref n then eof) s u o
      → (t : Text) (v : S) → o ≡ matched t v
      → (t ≡ []) × (0 < length s)
  unfolding can_be_empty
  then_eof n s u o c (then_on m k) t v e =
      let shorter = Match-Shorter body leaf act b empty_name (λ j. (body-progress j).0) m in
      (after_eof _ _ o k t v e, omega (arith, shorter.1 c))
  then_eof n s u o c (at_leaf h) t v e = cc
  then_eof n s u o c (then_failed m) t v e = cc
  then_eof n s u o c (then_raised m) t v e = cc

  required-WholeText :
      (n : Name) (s : Text) (u : S) (o : Outcome S)
      → empty_name n ≡ false
      → Match body leaf act (ref n then eof) s u o
      → WholeText s (required o)
  required-WholeText n s u (matched t v) c m = then_eof n s u (matched t v) c m t v refl
  required-WholeText n s u (failed v) c m = tt
  required-WholeText n s u (raised e) c m = tt

  must-WholeText :
      (n : Name) (s : Text) (u : S) (o : Outcome S)
      → empty_name n ≡ false
      → Match body leaf act (must (ref n then eof)) s u o
      → WholeText s o
  must-WholeText n s u o c (at_must {o = o'} m) = required-WholeText n s u o' c m
  must-WholeText n s u o c (at_leaf h) = cc

  -- The second alternative is never tried.
  or_WholeText :
      (n : Name) (r : Rule Name) (s : Text) (u : S) (o : Outcome S)
      → empty_name n ≡ false
      → Match body leaf act (must (ref n then eof) or r) s u o
      → WholeText s o
  or_WholeText n r s u o c (or_first m) = must-WholeText n s u o c m
  or_WholeText n r s u o c (or_raised m) = tt
  or_WholeText n r s u o c (or_second {v = v} m k) = absurd (must-WholeText n s u (failed v) c m)
  or_WholeText n r s u o c (at_leaf h) = cc

  -- What comes of the whole grammar, of a document or of a query, on any text, where no action is
  -- attached to the grammar itself: a match that leaves nothing of the text, or an exception; never a
  -- failure. The empty text is never matched, although the grammar of a document has an alternative
  -- for it.
  pub grammar_whole :
      (q : Bool) (s : Text) (u : S) (o : Outcome S)
      → act (grammar q) ≡ none
      → Match body leaf act (ref (grammar q)) s u o
      → WholeText s o
  unfolding body grammar_body empty_name
  grammar_whole true s u _ a (named {o = o} m) = rw a (must-WholeText triples_block s u o refl m)
  grammar_whole false s u _ a (named {o = o} m) =
      rw a (or_WholeText turtle_doc (ref ignored then eof) s u o refl m)
  grammar_whole q s u o a (at_leaf h) = cc
