-- ===== src/Rdf/Triple.antt =====
-- include/Dice/RDF/internal/AbstractTriple.hpp and include/Dice/RDF/Triple.hpp: three entries,
-- with the accessors by position and by role. The class is generic in the element.
use rdf_parser.Base.{ℕ, zero, suc, Bool, ◌&&◌, List, [], ◌∷◌, Option, none, some}
use rdf_parser.Rdf.Term.{Term}

pub record AbstractTriple {ℓ} (A : Type ℓ) : Type ℓ where
  pub entry0 : A
  pub entry1 : A
  pub entry2 : A

module _ {ℓ} {A : Type ℓ} where
  unfoldable pub triple : A → A → A → AbstractTriple A
  triple subject predicate object = record { entry0 = subject; entry1 = predicate; entry2 = object }

  unfoldable pub subject : AbstractTriple A → A
  subject t = t.entry0

  unfoldable pub predicate : AbstractTriple A → A
  predicate t = t.entry1

  unfoldable pub object : AbstractTriple A → A
  object t = t.entry2

  -- `operator[]`; an index of three or more is undefined behaviour in the source.
  unfoldable pub entry_at : AbstractTriple A → ℕ → Option A
  entry_at t zero = some t.entry0
  entry_at t (suc zero) = some t.entry1
  entry_at t (suc (suc zero)) = some t.entry2
  entry_at t (suc (suc (suc n))) = none

  unfoldable pub set_subject : A → AbstractTriple A → AbstractTriple A
  set_subject subject t = record t { entry0 = subject }

  unfoldable pub set_predicate : A → AbstractTriple A → AbstractTriple A
  set_predicate predicate t = record t { entry1 = predicate }

  unfoldable pub set_object : A → AbstractTriple A → AbstractTriple A
  set_object object t = record t { entry2 = object }

  -- What `begin()` to `end()` runs through.
  unfoldable pub entries : AbstractTriple A → List A
  entries t = t.entry0 ∷ t.entry1 ∷ t.entry2 ∷ []

  -- operator==, with the element's own comparison.
  unfoldable pub triple_eq : (A → A → Bool) → AbstractTriple A → AbstractTriple A → Bool
  unfolding subject predicate object
  triple_eq eq t u =
      eq (subject t) (subject u) && (eq (predicate t) (predicate u) && eq (object t) (object u))

abbrev pub Triple : Type 0
Triple = AbstractTriple Term
