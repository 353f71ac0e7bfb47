-- ===== src/Rdf/Format.antt =====
-- The formatters at the ends of include/Dice/RDF/Term.hpp and Triple.hpp, over the two functions of
-- fmt that they call.
use rdf_parser.Base.{[], List, ◌∷◌, Option, none, some, Text, codes, Result, ok, ◌>>=◌}
use rdf_parser.Rdf.Term.{Term}
use rdf_parser.Rdf.Triple.{AbstractTriple, Triple, entries}

-- `format_to` takes a format string and its arguments, each as it is printed; `join` takes the printed
-- elements of a range and a separator.
pub record Fmt : Type 0 where
  pub format_to : Text → List Text → Result Text
  pub join : List Text → Text → Text

-- Elements printed in order; the first that throws ends it.
unfoldable pub print_all : {A : Type 0} → (A → Result Text) → List A → Result (List Text)
print_all print [] = ok []
print_all print (x ∷ xs) = print x >>= (λ t. print_all print xs >>= (λ ts. ok (t ∷ ts)))

module _ (fmt : Fmt) where
  open fmt use {format_to, join}

  -- The identifier is the format string itself, and it has no argument.
  unfoldable pub format_term : Term → Result Text
  format_term p = format_to p.identifier []

  -- A pointer to a term; none is nullptr.
  unfoldable pub format_term_pointer : Option Term → Result Text
  format_term_pointer (some p) = format_to p.identifier []
  format_term_pointer none = format_to [] []

  unfoldable pub format_entries : {A : Type 0} → (A → Result Text) → AbstractTriple A → Result Text
  unfolding print_all entries
  format_entries print p =
      print_all print (entries p) >>= (λ ts. format_to (codes "({})") (join ts (codes ", ") ∷ []))

  unfoldable pub format_triple : Triple → Result Text
  unfolding format_entries format_term
  format_triple p = format_entries format_term p
