-- ===== src/Rdf/Term/Views.antt =====
-- Term.hpp: the views value(), lang() and dataType() into the identifier of a term.
use rdf_parser.Base.{
  ℕ, ◌+◌, ◌≡◌, refl, true, false, not, [], ◌∷◌, ◌++◌, Option, none, some, ◌==◌, if◌then◌else◌,
  arith, length, take, drop, take-length_append, take-drop_middle, length-append, append-nil,
  append_assoc, Bool-cases, inl, inr, Text, text_eq,
}
use rdf_parser.Rdf.Term.{
  value, lang, data_type, has_lang, has_data_type, uri_ref, bnode, literal, is_uri_ref, is_bnode,
  xsd_string,
}

take-all : (xs : Text) → take (length xs) xs ≡ xs
take-all xs = rw append-nil at (take-length_append xs [])

-- A window whose offset is the length of what stands before it.
window :
    (n : ℕ) (pre mid post whole : Text)
    → n ≡ length pre
    → whole ≡ pre ++ (mid ++ post)
    → take (length mid) (drop n whole) ≡ mid
window n pre mid post whole e f = rw (e, f) (take-drop_middle pre mid post)

-- The view of an IRI is the IRI, and the term says that it is one.
pub uri_ref-value : (u : Text) → (value (uri_ref u) ≡ u) × (is_uri_ref (uri_ref u) ≡ true)
unfolding value uri_ref is_uri_ref
uri_ref-value u = (take-length_append u _, refl)

-- The view of a blank node is its label, and the term says that it is one.
pub bnode-value : (b : Text) → (value (bnode b) ≡ b) × (is_bnode (bnode b) ≡ true)
unfolding value bnode is_bnode
bnode-value b = (take-all b, refl)

-- What lang() and dataType() of a literal are to give, by the arguments of its constructor.
abbrev pub lang_of : Option Text → Text
lang_of (some l) = l
lang_of none = []

abbrev pub data_type_of : Option Text → Option Text → Text
data_type_of (some l) t = []
data_type_of none none = []
data_type_of none (some t) = if text_eq t xsd_string then [] else t

lang_literal-lang :
    (v l : Text)
    → take (length l) (drop (1 + length v + 1 + 1) (b'"' ∷ (v ++ (b'"' ∷ b'@' ∷ l)))) ≡ l
lang_literal-lang v l =
    window (1 + length v + 1 + 1) (b'"' ∷ (v ++ b'"' ∷ b'@' ∷ [])) l []
      (b'"' ∷ (v ++ (b'"' ∷ b'@' ∷ l))) (omega (arith, length-append v (b'"' ∷ b'@' ∷ [])))
      (simp (append-nil, append_assoc))

typed_literal-data_type :
    (v t : Text)
    → take (length t) (
        drop
          (1 + length v + 1 + 2 + 1)
          (b'"' ∷ (v ++ (b'"' ∷ b'^' ∷ b'^' ∷ b'<' ∷ (t ++ b'>' ∷ [])))))
      ≡ t
typed_literal-data_type v t =
    window (1 + length v + 1 + 2 + 1) (b'"' ∷ (v ++ b'"' ∷ b'^' ∷ b'^' ∷ b'<' ∷ [])) t (b'>' ∷ [])
      (b'"' ∷ (v ++ (b'"' ∷ b'^' ∷ b'^' ∷ b'<' ∷ (t ++ b'>' ∷ []))))
      (omega (arith, length-append v (b'"' ∷ b'^' ∷ b'^' ∷ b'<' ∷ []))) (simp append_assoc)

literal_typed_views :
    (v t : Text)
    → (value (literal v none (some t)) ≡ v)
      × (lang (literal v none (some t)) ≡ [])
      × (data_type (literal v none (some t)) ≡ data_type_of none (some t))
      × (has_lang (literal v none (some t)) ≡ false)
      × (has_data_type (literal v none (some t)) ≡ not (length (data_type_of none (some t)) == 0))
unfolding value lang data_type has_lang has_data_type literal
literal_typed_views v t = elim (Bool-cases (text_eq t xsd_string)) [
  | inl e ↦ rw e (take-length_append v _, refl, refl, refl, refl)
  | inr e ↦ rw e (take-length_append v _, refl, typed_literal-data_type v t, refl, refl)
]

-- For every value, language and data type, the three views of a literal give back what its
-- constructor was called with: the value; the language, if there is one; and the data type, if
-- there is no language and it is not xsd:string. hasLang() and hasDataType() hold exactly when
-- that text is not empty.
pub literal_views :
    (v : Text) (l t : Option Text)
    → (value (literal v l t) ≡ v)
      × (lang (literal v l t) ≡ lang_of l)
      × (data_type (literal v l t) ≡ data_type_of l t)
      × (has_lang (literal v l t) ≡ not (length (lang_of l) == 0))
      × (has_data_type (literal v l t) ≡ not (length (data_type_of l t) == 0))
unfolding value lang data_type has_lang has_data_type literal
literal_views v (some l) t = (take-length_append v _, lang_literal-lang v l, refl, refl, refl)
literal_views v none none = (take-length_append v _, refl, refl, refl, refl)
literal_views v none (some t) = literal_typed_views v t
