-- ===== src/Rdf/Term/Order.antt =====
-- Term.hpp: operator< and operator> order terms by their identifiers.
use rdf_parser.Base.{
  ◌≡◌, refl, true, false, not, ◌⊎◌, inl, inr, [], ◌∷◌, arith, Text, text_eq, text_lt,
}
use rdf_parser.Rdf.Term.{Term, term_eq, term_ne, term_lt, term_gt}

compared :
    (s t : Text)
    → ((text_eq s t ≡ true) × (text_lt s t ≡ false) × (text_lt t s ≡ false))
      ⊎ (((text_eq s t ≡ false) × (text_lt s t ≡ true) × (text_lt t s ≡ false))
          ⊎ ((text_eq s t ≡ false) × (text_lt s t ≡ false) × (text_lt t s ≡ true)))
unfolding text_lt text_eq
compared [] [] = inl (refl, refl, refl)
compared [] (b ∷ t) = inr (inl (refl, refl, refl))
compared (a ∷ s) [] = inr (inr (refl, refl, refl))
compared (a ∷ s) (b ∷ t) = ground (arith, compared s t)

-- Of any two terms, either == holds, or exactly one is below the other, as < and > both say; and
-- != is the negation of ==.
pub term_lt_trichotomy :
    (s t : Term)
    → (((term_eq s t ≡ true) × (term_lt s t ≡ false) × (term_gt s t ≡ false))
        ⊎ (((term_eq s t ≡ false) × (term_lt s t ≡ true) × (term_gt s t ≡ false))
            ⊎ ((term_eq s t ≡ false) × (term_lt s t ≡ false) × (term_gt s t ≡ true))))
      × (term_ne s t ≡ not (term_eq s t))
unfolding term_lt term_eq term_ne term_gt
term_lt_trichotomy s t = (compared s.identifier t.identifier, refl)
