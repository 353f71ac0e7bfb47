-- ===== src/Rdf/Term/Equality.antt =====
-- Term.hpp: operator== compares identifiers, and what that says of the terms.
use mathlib.Core.Path.{ap₂}
use mathlib.Core.List.{append_cancel_right}
use rdf_parser.Base.{
  ℕ, ◌≡◌, ◌≢◌, ◌↔◌, refl, ap, true, [], ◌∷◌, ◌++◌, none, some, arith, All, All-append, Text,
  text_eq_iff, text_eq_refl,
}
use rdf_parser.Rdf.Term.{Term, term_eq, uri_ref, bnode, literal, xsd_string}

-- An RDF term with no representation: what the constructors are called with.
pub data Tag : Type 0 where
  plain : Tag
  language : Text → Tag
  typed : Text → Tag

pub data RdfTerm : Type 0 where
  iri : Text → RdfTerm
  blank : Text → RdfTerm
  lit : Text → Tag → RdfTerm

-- The term that stands for it.
unfoldable pub represent : RdfTerm → Term
represent (iri u) = uri_ref u
represent (blank b) = bnode b
represent (lit v plain) = literal v none none
represent (lit v (language l)) = literal v (some l) none
represent (lit v (typed t)) = literal v none (some t)

-- Languages and data types hold no quotation mark, and xsd:string is written as no tag.
abbrev pub NoQuote : Text → Type 0
NoQuote = All (λ c. c ≢ b'"')

abbrev pub IsNormal : RdfTerm → Type 0
IsNormal (iri u) = Unit
IsNormal (blank b) = Unit
IsNormal (lit v plain) = Unit
IsNormal (lit v (language l)) = NoQuote l
IsNormal (lit v (typed t)) = NoQuote t × (t ≢ xsd_string)

abbrev pub suffix : Tag → Text
suffix plain = []
suffix (language l) = b'@' ∷ l
suffix (typed t) = b'^' ∷ b'^' ∷ b'<' ∷ (t ++ b'>' ∷ [])

abbrev pub shown : RdfTerm → Text
shown (iri u) = b'<' ∷ (u ++ b'>' ∷ [])
shown (blank b) = b'_' ∷ b':' ∷ b
shown (lit v tag) = b'"' ∷ (v ++ b'"' ∷ suffix tag)

pub represent-shown : (a : RdfTerm) → IsNormal a → (represent a).identifier ≡ shown a
unfolding represent uri_ref bnode literal
represent-shown (iri u) n = refl
represent-shown (blank b) n = refl
represent-shown (lit v plain) n = refl
represent-shown (lit v (language l)) n = refl
represent-shown (lit v (typed t)) n = ground (arith, text_eq_iff t xsd_string)

-- Where a mark stands last, both what precedes and what follows it are determined.
no_mark : (c : ℕ) (ys t : Text) → All (λ x. x ≢ c) (ys ++ c ∷ t) → ⊥
no_mark c [] t h = h.0 refl
no_mark c (y ∷ ys) t h = no_mark c ys t h.1

split_at_last :
    (c : ℕ) (xs ys s t : Text)
    → All (λ x. x ≢ c) s
    → All (λ x. x ≢ c) t
    → xs ++ c ∷ s ≡ ys ++ c ∷ t
    → (xs ≡ ys) × (s ≡ t)
split_at_last c [] [] s t hs ht e = (refl, cc)
split_at_last c [] (y ∷ ys) s t hs ht e =
    let tails : s ≡ ys ++ c ∷ t = cc in absurd (no_mark c ys t (rw tails at hs))
split_at_last c (x ∷ xs) [] s t hs ht e =
    let tails : xs ++ c ∷ s ≡ t = cc in absurd (no_mark c xs s (rw (← tails) at ht))
split_at_last c (x ∷ xs) (y ∷ ys) s t hs ht e =
    let (p, q) = split_at_last c xs ys s t hs ht cc in (cc, q)

suffix-NoQuote : (tag : Tag) (v : Text) → IsNormal (lit v tag) → NoQuote (suffix tag)
suffix-NoQuote plain v n = tt
suffix-NoQuote (language l) v n = (omega arith, n)
suffix-NoQuote (typed t) v n =
    (omega arith, (omega arith, (omega arith, All-append _ t (b'>' ∷ []) n.0 (omega arith, tt))))

last_eq : (s t : Text) (c : ℕ) → s ++ c ∷ [] ≡ t ++ c ∷ [] → s ≡ t
last_eq s t c e = append_cancel_right s t (c ∷ []) e

suffix_injective : (a b : Tag) → suffix a ≡ suffix b → a ≡ b
suffix_injective plain plain e = refl
suffix_injective plain (language l) e = cc
suffix_injective plain (typed t) e = cc
suffix_injective (language l) plain e = cc
suffix_injective (language l) (language m) e = cc
suffix_injective (language l) (typed t) e = ground arith
suffix_injective (typed t) plain e = cc
suffix_injective (typed t) (language l) e = ground arith
suffix_injective (typed t) (typed u) e = ap typed (last_eq t u b'>' cc)

shown_injective : (a b : RdfTerm) → IsNormal a → IsNormal b → shown a ≡ shown b → a ≡ b
shown_injective (iri u) (iri w) n m e = ap iri (last_eq u w b'>' cc)
shown_injective (iri u) (blank b) n m e = ground arith
shown_injective (iri u) (lit v tag) n m e = ground arith
shown_injective (blank b) (iri u) n m e = ground arith
shown_injective (blank b) (blank c) n m e = cc
shown_injective (blank b) (lit v tag) n m e = ground arith
shown_injective (lit v tag) (iri u) n m e = ground arith
shown_injective (lit v tag) (blank b) n m e = ground arith
shown_injective (lit v a) (lit w b) n m e =
    let (p, q) =
      split_at_last b'"' v w (suffix a) (suffix b) (suffix-NoQuote a v n) (suffix-NoQuote b w m)
        cc in
    ap₂ lit p (suffix_injective a b q)

-- For RDF terms whose language and data type hold no quotation mark and whose data type is not
-- xsd:string, operator== on the terms that represent them holds exactly when they are the same RDF
-- term: the same kind, value, language and data type.
pub term_eq-represent :
    (a b : RdfTerm)
    → IsNormal a
    → IsNormal b
    → (term_eq (represent a) (represent b) ≡ true) ↔ (a ≡ b)
unfolding term_eq
term_eq-represent a b n m = (
  λ h.
      shown_injective a b n m
        (rw (← represent-shown a n, ← represent-shown b m) ((text_eq_iff _ _).0 h)),
  λ e. rw e (text_eq_refl _),
)
