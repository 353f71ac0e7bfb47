-- ===== src/Tests/Bytes.antt =====
-- A matcher of single bytes, which the examples of the grammar use.
use rdf_parser.Base.{
  ℕ, ◌≤◌, ◌<◌, ◌≡◌, ◌⊎◌, refl, Bool, true, false, not, List, [], ◌∷◌, ◌++◌, Option, none, some,
  arith, length, Text, ltb, ◌==◌, ==_refl, if◌then◌else◌,
}
use rdf_parser.Grammar.Rule.{
  Rule, eps, any, eof, one, none_of, between, code_point, str, ref, ◌then◌, ◌or◌, minus, opt, star,
  plus, must,
}
use rdf_parser.Grammar.Names.{Name}
use rdf_parser.Grammar.Progress.{can_be_empty}
use rdf_parser.Grammar.Match.{is_leaf, Leaves}
use rdf_parser.Grammar.Bytes.{member, within, takes_byte, needs_byte, IsByteWise}

abbrev byte_where : (ℕ → Bool) → Text → Option Text
byte_where f [] = none
byte_where f (c ∷ s) = if f c then some s else none

abbrev behind_text : Text → Text → Option Text
behind_text [] s = some s
behind_text (c ∷ cs) [] = none
behind_text (c ∷ cs) (d ∷ s) = if c == d then behind_text cs s else none

abbrev at_eof : Text → Option Text
at_eof [] = some []
at_eof (c ∷ s) = none

abbrev pub bytes : Rule Name → Text → Option Text
bytes any = byte_where (λ c. true)
bytes eof = at_eof
bytes (one cs) = byte_where (λ c. member c cs)
bytes (none_of cs) = byte_where (λ c. not (member c cs))
bytes (between ps) = byte_where (λ c. within c ps)
bytes (code_point ps) = byte_where (λ c. within c ps)
bytes (str cs) = behind_text cs
bytes _ = λ s. none

byte_where-shorter : (f : ℕ → Bool) (s t : Text) → byte_where f s ≡ some t → length t < length s
byte_where-shorter f [] t h = cc
byte_where-shorter f (c ∷ s) t h = ground arith

behind_text-shorter :
    (cs s t : Text)
    → behind_text cs s ≡ some t
    → (length t ≤ length s) × (cs ≡ [] ⊎ (length t < length s))
behind_text-shorter [] s t h = ground arith
behind_text-shorter (c ∷ cs) [] t h = cc
behind_text-shorter (c ∷ cs) (d ∷ s) t h = ground (arith, behind_text-shorter cs s t)

at_eof-shorter : (s t : Text) → at_eof s ≡ some t → (length t ≤ length s) × (t ≡ [])
at_eof-shorter [] t h = ground arith
at_eof-shorter (c ∷ s) t h = cc

bytes-shrinks : (r : Rule Name) (s t : Text) → bytes r s ≡ some t → length t ≤ length s
bytes-shrinks any s t h = omega (arith, byte_where-shorter (λ c. true) s t h)
bytes-shrinks eof s t h = (at_eof-shorter s t h).0
bytes-shrinks (one cs) s t h = omega (arith, byte_where-shorter _ s t h)
bytes-shrinks (none_of cs) s t h = omega (arith, byte_where-shorter _ s t h)
bytes-shrinks (between ps) s t h = omega (arith, byte_where-shorter _ s t h)
bytes-shrinks (code_point ps) s t h = omega (arith, byte_where-shorter _ s t h)
bytes-shrinks (str cs) s t h = (behind_text-shorter cs s t h).0
bytes-shrinks eps s t h = cc
bytes-shrinks (ref n) s t h = cc
bytes-shrinks (r then r') s t h = cc
bytes-shrinks (r or r') s t h = cc
bytes-shrinks (minus r r') s t h = cc
bytes-shrinks (opt r) s t h = cc
bytes-shrinks (star r) s t h = cc
bytes-shrinks (plus r) s t h = cc
bytes-shrinks (must r) s t h = cc

bytes-consumes :
    (e : Name → Bool) (r : Rule Name) (s t : Text)
    → is_leaf r ≡ true
    → can_be_empty e r ≡ false
    → bytes r s ≡ some t
    → length t < length s
unfolding can_be_empty
bytes-consumes e any s t l c h = byte_where-shorter (λ x. true) s t h
bytes-consumes e eof s t l c h = cc
bytes-consumes e (one cs) s t l c h = byte_where-shorter _ s t h
bytes-consumes e (none_of cs) s t l c h = byte_where-shorter _ s t h
bytes-consumes e (between ps) s t l c h = byte_where-shorter _ s t h
bytes-consumes e (code_point ps) s t l c h = byte_where-shorter _ s t h
bytes-consumes e (str []) s t l c h = cc
bytes-consumes e (str (d ∷ ds)) s t l c h = ground (arith, behind_text-shorter (d ∷ ds) s t h)
bytes-consumes e eps s t l c h = cc
bytes-consumes e (ref n) s t l c h = cc
bytes-consumes e (r then r') s t l c h = cc
bytes-consumes e (r or r') s t l c h = cc
bytes-consumes e (minus r r') s t l c h = cc
bytes-consumes e (opt r) s t l c h = cc
bytes-consumes e (star r) s t l c h = cc
bytes-consumes e (plus r) s t l c h = cc
bytes-consumes e (must r) s t l c h = cc

pub bytes-Leaves : Leaves bytes
bytes-Leaves = record {
  shrinks = bytes-shrinks;
  consumes = bytes-consumes;
  at_end = λ s t h. (at_eof-shorter s t h).1;
}

byte_where-takes :
    (f : ℕ → Bool) (c : ℕ) (s : Text) → some (f c) ≡ some true → byte_where f (c ∷ s) ≡ some s
byte_where-takes f c s h = ground arith

byte_where-refuses :
    (f : ℕ → Bool) (c : ℕ) (s : Text) → some (f c) ≡ some false → byte_where f (c ∷ s) ≡ none
byte_where-refuses f c s h = ground arith

code_point-takes :
    (ps : List (ℕ × ℕ)) (c : ℕ) (s : Text) (x : Bool)
    → (if ltb c 128 then some (within c ps) else none) ≡ some x
    → some (within c ps) ≡ some x
code_point-takes ps c s x h = ground arith

bytes-takes :
    (r : Rule Name) (c : ℕ) (s : Text) → takes_byte r c ≡ some true → bytes r (c ∷ s) ≡ some s
unfolding takes_byte
bytes-takes any c s h = refl
bytes-takes eof c s h = cc
bytes-takes (one cs) c s h = byte_where-takes (λ x. member x cs) c s h
bytes-takes (none_of cs) c s h = byte_where-takes (λ x. not (member x cs)) c s h
bytes-takes (between ps) c s h = byte_where-takes (λ x. within x ps) c s h
bytes-takes (code_point ps) c s h =
    byte_where-takes (λ x. within x ps) c s (code_point-takes ps c s true h)
bytes-takes (str (d ∷ ds)) c s h = ground arith
bytes-takes _ c s h = cc

bytes-refuses :
    (r : Rule Name) (c : ℕ) (s : Text) → takes_byte r c ≡ some false → bytes r (c ∷ s) ≡ none
unfolding takes_byte
bytes-refuses any c s h = cc
bytes-refuses eof c s h = refl
bytes-refuses (one cs) c s h = byte_where-refuses (λ x. member x cs) c s h
bytes-refuses (none_of cs) c s h = byte_where-refuses (λ x. not (member x cs)) c s h
bytes-refuses (between ps) c s h = byte_where-refuses (λ x. within x ps) c s h
bytes-refuses (code_point ps) c s h =
    byte_where-refuses (λ x. within x ps) c s (code_point-takes ps c s false h)
bytes-refuses (str (d ∷ ds)) c s h = ground arith
bytes-refuses _ c s h = cc

bytes-needs : (r : Rule Name) → needs_byte r ≡ true → bytes r [] ≡ none
unfolding needs_byte
bytes-needs any h = refl
bytes-needs (one cs) h = refl
bytes-needs (none_of cs) h = refl
bytes-needs (between ps) h = refl
bytes-needs (code_point ps) h = refl
bytes-needs (str (d ∷ ds)) h = refl
bytes-needs _ h = cc

bytes-reads : (cs s : Text) → bytes (str cs) (cs ++ s) ≡ some s
bytes-reads [] s = refl
bytes-reads (c ∷ cs) s = rw (==_refl c) (bytes-reads cs s)

pub bytes-IsByteWise : IsByteWise bytes
bytes-IsByteWise = record {
  takes = bytes-takes;
  refuses = bytes-refuses;
  needs = bytes-needs;
  ends = refl;
  reads = bytes-reads;
}
