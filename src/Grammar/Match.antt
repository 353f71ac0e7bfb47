-- ===== src/Grammar/Match.antt =====
-- What the documentation of PEGTL says of the rules that the grammar is made of, as a relation
-- between a rule, the text that is left, the state of the actions, and what comes of it. How a single
-- character is matched and the actions are parameters.
use rdf_parser.Base.{
  ◌-◌, ◌≤◌, ◌<◌, ◌≡◌, Bool, true, false, [], ◌∷◌, Option, none, some, length, take, Text, Exception,
  parse_error, Result, ok, throw,
}
use rdf_parser.Grammar.Rule.{
  Rule, eps, any, eof, one, none_of, between, code_point, str, ref, ◌then◌, ◌or◌, minus, opt, star,
  plus, must,
}
use rdf_parser.Grammar.Progress.{can_be_empty}

-- A match with what is left and the state that the actions leave; a failure, behind which the next
-- alternative is tried in the state that is left, since no action is undone; or an exception.
pub data Outcome (S : Type 0) : Type 0 where
  matched : Text → S → Outcome S
  failed : S → Outcome S
  raised : Exception → Outcome S

abbrev pub is_leaf : {N : Type 0} → Rule N → Bool
is_leaf any = true
is_leaf eof = true
is_leaf (one cs) = true
is_leaf (none_of cs) = true
is_leaf (between ps) = true
is_leaf (code_point ps) = true
is_leaf (str cs) = true
is_leaf _ = false

module _ {S : Type 0} where
  -- What `minus` makes of its second rule's outcome on the text that the first has matched.
  abbrev pub without : Outcome S → Text → S → Outcome S
  without (matched [] v) t u = failed u
  without (matched (c ∷ cs) v) t u = matched t u
  without (failed v) t u = matched t u
  without (raised e) t u = raised e

  -- What `must` makes of an outcome.
  abbrev pub required : Outcome S → Outcome S
  required (matched t u) = matched t u
  required (failed u) = raised parse_error
  required (raised e) = raised e

  -- What `opt` makes of an outcome.
  abbrev pub optional : Text → Outcome S → Outcome S
  optional s (matched t u) = matched t u
  optional s (failed u) = matched s u
  optional s (raised e) = raised e

  abbrev pub of_leaf : Option Text → S → Outcome S
  of_leaf none u = failed u
  of_leaf (some t) u = matched t u

  -- What the action of a name makes of a match: it takes the text that was matched. An exception of
  -- the action leaves the parse.
  abbrev pub of_result : Text → Result S → Outcome S
  of_result t (ok u) = matched t u
  of_result t (throw e) = raised e

  abbrev pub acted : Option (Text → S → Result S) → Text → Outcome S → Outcome S
  acted none s o = o
  acted (some f) s (matched t u) = of_result t (f (take (length s - length t) s) u)
  acted (some f) s (failed u) = failed u
  acted (some f) s (raised e) = raised e

-- The documented behaviour of the rules for characters that is relied on.
pub record Leaves {N : Type 0} (leaf : Rule N → Text → Option Text) : Type 0 where
  pub shrinks : (r : Rule N) (s t : Text) → leaf r s ≡ some t → length t ≤ length s
  pub consumes :
      (e : N → Bool) (r : Rule N) (s t : Text)
      → is_leaf r ≡ true
      → can_be_empty e r ≡ false
      → leaf r s ≡ some t
      → length t < length s
  pub at_end : (s t : Text) → leaf eof s ≡ some t → t ≡ []

module _ {N S : Type 0} (body : N → Rule N) (leaf : Rule N → Text → Option Text)
    (act : N → Option (Text → S → Result S)) where
  pub data Match : Rule N → Text → S → Outcome S → Type 0 where
    at_leaf :
        {r : Rule N} {s : Text} {u : S} → is_leaf r ≡ true → Match r s u (of_leaf (leaf r s) u)
    at_eps : {s : Text} {u : S} → Match eps s u (matched s u)
    named :
        {n : N} {s : Text} {u : S} {o : Outcome S}
        → Match (body n) s u o
        → Match (ref n) s u (acted (act n) s o)
    then_on :
        {r r' : Rule N} {s t : Text} {u v : S} {o : Outcome S}
        → Match r s u (matched t v)
        → Match r' t v o
        → Match (r then r') s u o
    then_failed :
        {r r' : Rule N} {s : Text} {u v : S}
        → Match r s u (failed v)
        → Match (r then r') s u (failed v)
    then_raised :
        {r r' : Rule N} {s : Text} {u : S} {e : Exception}
        → Match r s u (raised e)
        → Match (r then r') s u (raised e)
    or_first :
        {r r' : Rule N} {s t : Text} {u v : S}
        → Match r s u (matched t v)
        → Match (r or r') s u (matched t v)
    or_second :
        {r r' : Rule N} {s : Text} {u v : S} {o : Outcome S}
        → Match r s u (failed v)
        → Match r' s v o
        → Match (r or r') s u o
    or_raised :
        {r r' : Rule N} {s : Text} {u : S} {e : Exception}
        → Match r s u (raised e)
        → Match (r or r') s u (raised e)
    minus_on :
        {r r' : Rule N} {s t : Text} {u v : S} {o : Outcome S}
        → Match r s u (matched t v)
        → Match r' (take (length s - length t) s) v o
        → Match (minus r r') s u (without o t v)
    minus_failed :
        {r r' : Rule N} {s : Text} {u v : S}
        → Match r s u (failed v)
        → Match (minus r r') s u (failed v)
    minus_raised :
        {r r' : Rule N} {s : Text} {u : S} {e : Exception}
        → Match r s u (raised e)
        → Match (minus r r') s u (raised e)
    at_opt :
        {r : Rule N} {s : Text} {u : S} {o : Outcome S}
        → Match r s u o
        → Match (opt r) s u (optional s o)
    star_more :
        {r : Rule N} {s t : Text} {u v : S} {o : Outcome S}
        → Match r s u (matched t v)
        → Match (star r) t v o
        → Match (star r) s u o
    star_end :
        {r : Rule N} {s : Text} {u v : S}
        → Match r s u (failed v)
        → Match (star r) s u (matched s v)
    star_raised :
        {r : Rule N} {s : Text} {u : S} {e : Exception}
        → Match r s u (raised e)
        → Match (star r) s u (raised e)
    at_plus :
        {r : Rule N} {s : Text} {u : S} {o : Outcome S}
        → Match (r then star r) s u o
        → Match (plus r) s u o
    at_must :
        {r : Rule N} {s : Text} {u : S} {o : Outcome S}
        → Match r s u o
        → Match (must r) s u (required o)
