-- ===== src/Parsers/File/Overflow.antt =====
-- TurtleFileParser.hpp: a parse that the client does not read, with thresholds above the capacity.
use rdf_parser.Base.{
  ℕ, ◌≤◌, ◌≡◌, refl, sym, ◌∙◌, ap, Bool, true, false, List, [], ◌∷◌, ◌++◌, arith, length, take,
  take_of_le, take-length_append, append_assoc, append-nil, length-append, ltb, Bool-cases, inl,
  inr,
}
use rdf_parser.States.Concurrent.{Call, insert, sync, finish, inserted}
use rdf_parser.Parsers.File.{
  SpscQueue, Thresholds, ask, next, FileParser, parsing, step, Reaches, here, later, start_parsing,
  holds_m2, parser_at,
}
use rdf_parser.Parsers.File.Bounded.{IsBounded, pushed}

not_below : {m n : ℕ} → ltb m n ≡ false → n ≤ m
not_below e = ground arith

full :
    {A : Type 0} (capacity : ℕ) (xs ts : List A)
    → length xs ≡ capacity
    → take capacity (xs ++ ts) ≡ xs
full capacity xs ts e = rw (← e) (take-length_append xs ts)

take-pushed :
    {A : Type 0} (capacity : ℕ) (t : A) (xs ts : List A)
    → length xs ≤ capacity
    → take capacity (pushed capacity t xs ++ ts) ≡ take capacity (xs ++ t ∷ ts)
take-pushed capacity t xs ts h = elim (Bool-cases (ltb (length xs) capacity)) [
  | inl e ↦ rw e (ap (take capacity) (append_assoc xs (t ∷ []) ts))
  | inr e ↦ rw e (
      full capacity xs ts (omega (arith, not_below e))
      ∙ sym (full capacity xs (t ∷ ts) (omega (arith, not_below e))))
]

length-pushed_le :
    {A : Type 0} (capacity : ℕ) (t : A) (xs : List A)
    → length xs ≤ capacity
    → length (pushed capacity t xs) ≤ capacity
length-pushed_le capacity t xs h = ground (arith, length-append xs (t ∷ []))

module _ {A Q : Type 0} (o : SpscQueue A Q) (l : Thresholds) (capacity : ℕ) (contents : Q → List A)
    (b : IsBounded o capacity contents) (never : capacity ≤ l.upper_threshold) (c : A)
    (start : FileParser A Q) where
  -- The client has not looked at the queue.
  abbrev alone : List (Call A) → Q → Bool → Bool → FileParser A Q
  alone p q flag done = record {
    parsed_terms = q;
    term_count_within_thresholds = false;
    terms_count_is_not_empty = flag;
    parsing_is_done = done;
    parser = next p;
    client = ask;
    current_triple = c;
    taken = [];
  }

  insert_runs :
      (flag : Bool) {done : Bool} (t : A) (p : List (Call A)) (q : Q)
      → Reaches o l start (alone (insert t ∷ p) q flag done)
      → Reaches o l start (alone p (o.push t q) true done)
  unfolding step parser_at holds_m2
  insert_runs true t p q r = later parsing (later parsing r refl) refl
  insert_runs false t p q r = later parsing (later parsing (later parsing r refl) refl) refl

  sync_runs :
      {flag done : Bool} (p : List (Call A)) (q : Q)
      → length (contents q) ≤ capacity
      → Reaches o l start (alone (sync ∷ p) q flag done)
      → Reaches o l start (alone p q flag done)
  unfolding step parser_at
  sync_runs p q h r = later parsing r (rw not_above refl)
    where
      not_above : ltb l.upper_threshold (o.read_available q) ≡ false
      not_above = ground (arith, b.read_available-contents q)

  finish_runs :
      (flag : Bool) {done : Bool} (p : List (Call A)) (q : Q)
      → Reaches o l start (alone (finish ∷ p) q flag done)
      → Reaches o l start (alone p q true true)
  unfolding step parser_at holds_m2
  finish_runs true p q r = later parsing (later parsing r refl) refl
  finish_runs false p q r = later parsing (later parsing (later parsing r refl) refl) refl

  abbrev Filled : List A → FileParser A Q → Type 0
  Filled ts s =
      (s.parser ≡ next [])
      × (s.client ≡ ask)
      × (s.taken ≡ [])
      × (contents s.parsed_terms ≡ take capacity ts)

  parse_runs :
      (p : List (Call A)) (q : Q) (flag done : Bool)
      → length (contents q) ≤ capacity
      → Reaches o l start (alone p q flag done)
      → (s : FileParser A Q) × Reaches o l start s × Filled (contents q ++ inserted p) s
  unfolding inserted
  parse_runs [] q flag done h r = (
    alone [] q flag done,
    r,
    (refl, refl, refl, rw append-nil (sym (take_of_le capacity (contents q) h))),
  )
  parse_runs (insert t ∷ p) q flag done h r =
      let (s, r', (e, f, g, k)) =
        parse_runs p (o.push t q) true done
          (rw b.contents-push (length-pushed_le capacity t (contents q) h))
          (insert_runs flag t p q r) in
      (
        s,
        r',
        (e, f, g, k ∙ rw b.contents-push (take-pushed capacity t (contents q) (inserted p) h)),
      )
  parse_runs (sync ∷ p) q flag done h r = parse_runs p q flag done h (sync_runs p q h r)
  parse_runs (finish ∷ p) q flag done h r = parse_runs p q true true h (finish_runs flag p q r)

module _ {A Q : Type 0} (o : SpscQueue A Q) (l : Thresholds) (capacity : ℕ) (contents : Q → List A)
    (b : IsBounded o capacity contents) where
  -- Where the upper threshold is the capacity of the queue or above it, as it is by default, and the
  -- client has not begun to read: the parse runs to its end, and what the queue then holds is the
  -- first triples, as many as it has room for. The others are nowhere.
  pub unread_overflows :
      (p : List (Call A)) (c : A)
      → capacity ≤ l.upper_threshold
      → (s : FileParser A Q) × Reaches o l (start_parsing o l c p) s
        × (s.parser ≡ next [])
        × (s.taken ≡ [])
        × (contents s.parsed_terms ≡ take capacity (inserted p))
  unfolding start_parsing
  unread_overflows p c never =
      let (s, r, (e, f, g, k)) =
        parse_runs o l capacity contents b never c (start_parsing o l c p) p o.empty false false
          (rw b.contents-empty (omega arith)) here in
      (s, r, e, g, rw b.contents-empty at k)
