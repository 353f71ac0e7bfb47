-- ===== src/Parsers/Strings.antt =====
-- Parsers/BaseStringParser.hpp: a parser whose triples lie in a queue.
use rdf_parser.Base.{
  ℕ, zero, suc, ◌≤◌, ◌≡◌, arith, refl, Bool, true, false, not, List, [], ◌∷◌, some, length, Result,
  ok, throw, ◌>>=◌, undefined,
}
use rdf_parser.States.Element.{TripleOf}
use rdf_parser.States.Sequential.{Queue}
use rdf_parser.Parsers.Iterator.{
  AbstractParser, increment, make_iterator, is_valid, dereference, consume,
}

pub record BaseStringParser (q : Bool) : Type 0 where
  pub parsed_terms : Queue q
  pub current_triple : TripleOf q

abbrev pub is_empty {ℓ} : {A : Type ℓ} → List A → Bool
is_empty [] = true
is_empty (x ∷ xs) = false

unfoldable pub pop_front : {q : Bool} → Queue q → BaseStringParser q → Result (BaseStringParser q)
pop_front [] p = throw undefined
pop_front (t ∷ ts) p = ok (record { parsed_terms = ts; current_triple = t })

unfoldable pub string_parser : (q : Bool) → AbstractParser (BaseStringParser q) (TripleOf q)
unfolding pop_front
string_parser q = record {
  has_next_triple = λ p. ok (not (is_empty p.parsed_terms), p);
  next_triple = λ p. pop_front p.parsed_terms p;
  get_current_triple = λ p. p.current_triple;
}

consume_from :
    (q : Bool) (ts : Queue q) (t : TripleOf q) (fuel : ℕ)
    → length ts ≤ fuel
    → consume (string_parser q) (suc (suc fuel)) (record {
      done = false;
      parser_done = is_empty ts;
      triples_parser = record { parsed_terms = ts; current_triple = t };
    })
      ≡ ok (some (t ∷ ts))
unfolding consume increment is_valid dereference string_parser
consume_from q [] t fuel h = refl
consume_from q (u ∷ ts) t zero h = absurd (omega arith)
consume_from q (u ∷ []) t (suc fuel) h = refl
consume_from q (u ∷ v ∷ ts) t (suc fuel) h = rw (consume_from q (v ∷ ts) u fuel (omega arith))

-- What a client's loop reads: the queue; but where that is empty, the current triple once.
abbrev pub read_of {ℓ} : {A : Type ℓ} → List A → A → List A
read_of [] current = current ∷ []
read_of (t ∷ ts) current = t ∷ ts

iterate :
    (q : Bool) (queue : Queue q) (current : TripleOf q) (fuel : ℕ)
    → length queue ≤ fuel
    → (make_iterator (string_parser q) (record { parsed_terms = queue; current_triple = current })
        >>= consume (string_parser q) (suc (suc fuel)))
      ≡ ok (some (read_of queue current))
unfolding make_iterator consume increment is_valid dereference string_parser
iterate q [] current fuel h = refl
iterate q (t ∷ []) current fuel h = refl
iterate q (t ∷ u ∷ ts) current fuel h = consume_from q (u ∷ ts) t fuel (omega arith)

-- A loop over the iterator of a string parser ends, without an exception, within two rounds more
-- than the queue has triples. It reads the triples of the queue, each once and in order, if there
-- are any; from an empty queue it reads one triple, which is the parser's current one.
pub iterate_reads :
    {q : Bool} (p : BaseStringParser q) (fuel : ℕ)
    → length p.parsed_terms ≤ fuel
    → (make_iterator (string_parser q) p >>= consume (string_parser q) (suc (suc fuel)))
      ≡ ok (some (read_of p.parsed_terms p.current_triple))
iterate_reads {q} p fuel h = iterate q p.parsed_terms p.current_triple fuel h
