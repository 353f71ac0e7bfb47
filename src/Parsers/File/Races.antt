-- ===== src/Parsers/File/Races.antt =====
-- TurtleFileParser.hpp, hasNextTriple_impl: particular orders of the threads' steps at the end of a
-- document.
use rdf_parser.Base.{ℕ, ◌<◌, ◌≡◌, refl, List, [], ◌∷◌, Option, none, some}
use rdf_parser.States.Machine.Events.{and_then}
use rdf_parser.Parsers.File.{
  SpscQueue, Thresholds, FileParser, Thread, step, Reaches, later, run_threads,
}
use rdf_parser.Parsers.File.Bounded.{IsBounded}

and_then-some :
    {S : Type 0} (r : Option S) (f : S → Option S) {u : S}
    → and_then r f ≡ some u
    → (s : S) × (r ≡ some s) × (f s ≡ some u)
and_then-some none f h = cc
and_then-some (some s) f h = (s, refl, h)

module _ {A Q : Type 0} (o : SpscQueue A Q) (l : Thresholds) where
  pub run_threads-Reaches :
      (is : List (Thread)) {s t u : FileParser A Q}
      → Reaches o l s t
      → run_threads o l is t ≡ some u
      → Reaches o l s u
  unfolding run_threads
  run_threads-Reaches [] {s} {t} {u} r h = let same : t ≡ u = cc in rw same at r
  run_threads-Reaches (i ∷ is) {t = t} r h =
      let (v, e, g) = and_then-some (step o l i t) (run_threads o l is) h in
      run_threads-Reaches is (later i r e) g

module _ {A Q : Type 0} (o : SpscQueue A Q) (l : Thresholds) (capacity : ℕ) (contents : Q → List A)
    (b : IsBounded o capacity contents) (room : 0 < capacity) (c t : A) where
  -- The state behind the insertion, which the client has taken, where the queue is empty.
  abbrev drained : Q
  drained = (o.pop c (o.push t o.empty)).1
