-- ===== src/Grammar/Bytes.antt =====
-- What the documentation of PEGTL says of the rules for characters on single bytes, as far as it is
-- relied on: the ASCII rules look at one byte, the utf8 rules at one where it is below 128.
use rdf_parser.Base.{
  ℕ, ◌≡◌, Bool, true, false, not, ◌&&◌, ◌||◌, List, [], ◌∷◌, ◌++◌, Option, none, some, ltb, leb,
  ◌==◌, if◌then◌else◌, Text,
}
use rdf_parser.Grammar.Rule.{Rule, any, eof, one, none_of, between, code_point, str}

abbrev pub member : ℕ → Text → Bool
member c [] = false
member c (d ∷ ds) = (c == d) || member c ds

abbrev pub within : ℕ → List (ℕ × ℕ) → Bool
within c [] = false
within c ((a, z) ∷ ps) = (leb a c && leb c z) || within c ps

module _ {N : Type 0} where
  -- Whether a rule takes a byte, where that byte decides it.
  unfoldable pub takes_byte : Rule N → ℕ → Option Bool
  takes_byte any c = some true
  takes_byte eof c = some false
  takes_byte (one cs) c = some (member c cs)
  takes_byte (none_of cs) c = some (not (member c cs))
  takes_byte (between ps) c = some (within c ps)
  takes_byte (code_point ps) c = if ltb c 128 then some (within c ps) else none
  takes_byte (str (d ∷ ds)) c = if c == d then none else some false
  takes_byte _ c = none

  -- The rules that need a byte.
  unfoldable pub needs_byte : Rule N → Bool
  needs_byte any = true
  needs_byte (one cs) = true
  needs_byte (none_of cs) = true
  needs_byte (between ps) = true
  needs_byte (code_point ps) = true
  needs_byte (str (d ∷ ds)) = true
  needs_byte _ = false

  pub record IsByteWise (leaf : Rule N → Text → Option Text) : Type 0 where
    pub takes :
        (r : Rule N) (c : ℕ) (s : Text) → takes_byte r c ≡ some true → leaf r (c ∷ s) ≡ some s
    pub refuses :
        (r : Rule N) (c : ℕ) (s : Text) → takes_byte r c ≡ some false → leaf r (c ∷ s) ≡ none
    pub needs : (r : Rule N) → needs_byte r ≡ true → leaf r [] ≡ none
    pub ends : leaf eof [] ≡ some []
    pub reads : (cs s : Text) → leaf (str cs) (cs ++ s) ≡ some s
