-- ===== src/Parsers/Iterator.antt =====
-- Parsers/AbstractParser.hpp: the interface of a parser, and the iterator over its triples.
use mathlib.Core.Option
use rdf_parser.Base.{
  ℕ, zero, suc, Bool, true, false, not, List, [], ◌∷◌, Option, none, some, Result, ok, ◌>>=◌,
  if◌then◌else◌,
}

-- What a parser implements: `hasNextTriple`, which may wait and may throw; `nextTriple`; and
-- `getCurrentTriple`.
pub record AbstractParser (P T : Type 0) : Type 0 where
  pub has_next_triple : P → Result (Bool × P)
  pub next_triple : P → Result P
  pub get_current_triple : P → T

-- `Iterator`, with the parser that it points to.
pub record Iterator (P : Type 0) : Type 0 where
  pub done : Bool
  pub parser_done : Bool
  pub triples_parser : P

module _ {P T : Type 0} (a : AbstractParser P T) where
  open a use {has_next_triple, next_triple, get_current_triple}

  -- operator++.
  unfoldable pub increment : Iterator P → Result (Iterator P)
  increment it =
      let stopped = record it { done = true } in
      let moved = next_triple it.triples_parser >>= (λ p. has_next_triple p >>= (λ (more, p').
        ok (record { done = it.done; parser_done = not more; triples_parser = p' }))) in
      if it.parser_done then ok stopped else moved

  -- The constructor.
  unfoldable pub make_iterator : P → Result (Iterator P)
  make_iterator p = do
    (more, p') ← has_next_triple p
    let it : Iterator P = record { done = false; parser_done = false; triples_parser = p' }
    if more then increment it else ok (record it { parser_done = true })

  -- operator bool and operator*.
  unfoldable pub is_valid : Iterator P → Bool
  is_valid it = not it.done

  unfoldable pub dereference : Iterator P → T
  dereference it = get_current_triple it.triples_parser

  -- A client's loop, `for (; it; ++it)`, which keeps what it reads. `none`: the fuel ran out.
  unfoldable pub consume : ℕ → Iterator P → Result (Option (List T))
  consume zero it = ok none
  consume (suc fuel) it =
      let rest =
        increment it
        >>= (λ it'. consume fuel it' >>= (λ ts. ok (Option.map (λ l. dereference it ∷ l) ts))) in
      if is_valid it then rest else ok (some [])
