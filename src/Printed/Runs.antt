-- ===== src/Printed/Runs.antt =====
-- Actions/Actions.hpp: a run of events, taken apart.
use rdf_parser.Base.{◌≡◌, refl, sym, ◌∙◌, false, List, ◌∷◌, ◌++◌, Option, none, some}
use rdf_parser.States.Machine.{Derived, State}
use rdf_parser.States.Machine.Events.{Event, and_then, perform, run, run-append}

pub some_injective {ℓ} : {A : Type ℓ} (a b : A) → some a ≡ some b → a ≡ b
some_injective a b h = cc

module _ {D : Type 0} (k : Derived false D) where
  -- The events one by one.
  pub run_first :
      (e : Event false) (es : List (Event false)) (s u : State false D)
      → run k (e ∷ es) s ≡ some u
      → (t : State false D) × (perform k e s ≡ some t) × (run k es t ≡ some u)
  unfolding run
  run_first e es s u h = some_first (perform k e s) h
    where
      some_first :
          (o : Option (State false D))
          → and_then o (run k es) ≡ some u
          → (t : State false D) × (o ≡ some t) × (run k es t ≡ some u)
      some_first none g = cc
      some_first (some t) g = (t, refl, g)

  pub run_parts :
      (xs ys : List (Event false)) (s u : State false D)
      → run k (xs ++ ys) s ≡ some u
      → (t : State false D) × (run k xs s ≡ some t) × (run k ys t ≡ some u)
  run_parts xs ys s u h = some_parts (run k xs s) (sym (run-append k xs ys s) ∙ h)
    where
      some_parts :
          (o : Option (State false D))
          → and_then o (run k ys) ≡ some u
          → (t : State false D) × (o ≡ some t) × (run k ys t ≡ some u)
      some_parts none g = cc
      some_parts (some t) g = (t, refl, g)
