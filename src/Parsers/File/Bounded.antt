-- ===== src/Parsers/File/Bounded.antt =====
-- What the file parser relies on of boost::lockfree::spsc_queue: a queue of a fixed capacity. A push
-- on a full queue changes nothing, and a pop of an empty one leaves the variable as it was.
use rdf_parser.Base.{
  ℕ, ◌≡◌, refl, List, [], ◌∷◌, ◌++◌, ltb, if◌then◌else◌, length, ◌+◌, ◌≤◌, arith, length-append,
}
use rdf_parser.Parsers.File.{SpscQueue}

abbrev pub popped : {A : Type 0} → A → List A → A × List A
popped t [] = (t, [])
popped t (h ∷ rest) = (h, rest)

abbrev pub pushed : {A : Type 0} → ℕ → A → List A → List A
pushed capacity t xs = if ltb (length xs) capacity then xs ++ t ∷ [] else xs

pub record IsBounded {A Q : Type 0} (o : SpscQueue A Q) (capacity : ℕ) (contents : Q → List A)
    : Type 0 where
  pub contents-empty : contents o.empty ≡ []
  pub read_available-contents : (x : Q) → o.read_available x ≡ length (contents x)
  pub contents-push : (t : A) (x : Q) → contents (o.push t x) ≡ pushed capacity t (contents x)
  pub pop-contents : (t : A) (x : Q) → (o.pop t x).0 ≡ (popped t (contents x)).0
  pub contents-pop : (t : A) (x : Q) → contents (o.pop t x).1 ≡ (popped t (contents x)).1

-- A queue that behaves so.
abbrev pub list_queue : {A : Type 0} → ℕ → SpscQueue A (List A)
list_queue capacity = record {
  empty = [];
  push = pushed capacity;
  pop = popped;
  read_available = length;
}

pub list_queue-IsBounded :
    {A : Type 0} (capacity : ℕ) → IsBounded {A = A} (list_queue capacity) capacity (λ xs. xs)
list_queue-IsBounded capacity = record {
  contents-empty = refl;
  read_available-contents = λ x. refl;
  contents-push = λ t x. refl;
  pop-contents = λ t x. refl;
  contents-pop = λ t x. refl;
}

pub length-popped : {A : Type 0} (t : A) (xs : List A) → length (popped t xs).1 ≤ length xs
length-popped t [] = omega arith
length-popped t (x ∷ xs) = omega arith

pub length-pushed :
    {A : Type 0} (capacity : ℕ) (t : A) (xs : List A)
    → length (pushed capacity t xs) ≤ length xs + 1
length-pushed capacity t xs = ground (arith, length-append xs (t ∷ []))
