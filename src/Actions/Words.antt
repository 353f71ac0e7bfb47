-- ===== src/Actions/Words.antt =====
-- The stream extractions and searches of the actions on texts of a known shape.
use mathlib.Core.List.{append-nil}
use rdf_parser.Base.{
  ℕ, ◌+◌, ◌≤◌, ◌≡◌, ◌≢◌, refl, ap, true, false, [], ◌∷◌, ◌++◌, arith, All, length, take_of_le, drop,
  take-length_append, length-append, Text, is_space, skip_space, token, after_token, read_word,
  find_from, substr, ok,
}

-- Words hold no space, gaps nothing else; what follows a word is nothing or begins with a space.
abbrev pub NoSpace : Text → Type 0
NoSpace = All (λ c. is_space c ≡ false)

abbrev pub AllSpace : Text → Type 0
AllSpace = All (λ c. is_space c ≡ true)

abbrev pub Ends : Text → Type 0
Ends [] = Unit
Ends (c ∷ s) = is_space c ≡ true

token-append : (w rest : Text) → NoSpace w → Ends rest → token (w ++ rest) ≡ w
unfolding token
token-append [] [] h e = refl
token-append [] (c ∷ rest) h e = rw e
token-append (c ∷ w) rest h e = rw h.0 (ap (λ t. c ∷ t) (token-append w rest h.1 e))

after_token-append : (w rest : Text) → NoSpace w → Ends rest → after_token (w ++ rest) ≡ rest
unfolding after_token
after_token-append [] [] h e = refl
after_token-append [] (c ∷ rest) h e = rw e
after_token-append (c ∷ w) rest h e = rw h.0 (after_token-append w rest h.1 e)

skip_space-append :
    (gap : Text) (c : ℕ) (rest : Text)
    → AllSpace gap
    → is_space c ≡ false
    → skip_space (gap ++ c ∷ rest) ≡ c ∷ rest
unfolding skip_space
skip_space-append [] c rest g h = rw h
skip_space-append (d ∷ gap) c rest g h = rw g.0 (skip_space-append gap c rest g.1 h)

-- A word behind a gap.
pub read_word-append :
    (gap : Text) (c : ℕ) (w rest : Text)
    → AllSpace gap
    → NoSpace (c ∷ w)
    → Ends rest
    → read_word (gap ++ ((c ∷ w) ++ rest)) ≡ (c ∷ w, rest)
unfolding read_word
read_word-append gap c w rest g h e = rw (
  skip_space-append gap c (w ++ rest) g h.0,
  token-append (c ∷ w) rest h e,
  after_token-append (c ∷ w) rest h e,
)

pub read_word-behind :
    (gap w rest : Text)
    → AllSpace gap
    → NoSpace w
    → w ≢ []
    → Ends rest
    → read_word (gap ++ (w ++ rest)) ≡ (w, rest)
read_word-behind gap [] rest g h n e = absurd (n refl)
read_word-behind gap (c ∷ w) rest g h n e = read_word-append gap c w rest g h e

-- A gap that is not empty ends a word.
pub Ends-gap : (gap rest : Text) → AllSpace gap → gap ≢ [] → Ends (gap ++ rest)
Ends-gap [] rest g n = absurd (n refl)
Ends-gap (c ∷ gap) rest g n = g.0

pub read_word_alone : (w : Text) → NoSpace w → read_word w ≡ (w, [])
unfolding read_word skip_space token after_token
read_word_alone [] h = refl
read_word_alone (c ∷ w) h = rw append-nil at (read_word-append [] c w [] tt h tt)

pub find_from-append :
    (c : ℕ) (p rest : Text) (i : ℕ)
    → All (λ x. x ≢ c) p
    → find_from c (p ++ c ∷ rest) i ≡ i + length p
unfolding find_from
find_from-append c [] rest i h = ground arith
find_from-append c (x ∷ p) rest i h = ground (arith, find_from-append c p rest (i + 1) h.1)

-- The parts of a name around its colon, as `substr` cuts them.
pub substr-prefix : (p local : Text) (c : ℕ) → substr (p ++ c ∷ local) 0 (length p) ≡ ok p
unfolding substr
substr-prefix p local c = ground (arith, take-length_append p (c ∷ local))

pub drop-behind : (p local : Text) (c : ℕ) → drop (length p + 1) (p ++ c ∷ local) ≡ local
drop-behind [] local c = refl
drop-behind (x ∷ p) local c = ground (arith, drop-behind p local c)

pub substr-local :
    (p local : Text) (c n : ℕ)
    → length local ≤ n
    → substr (p ++ c ∷ local) (length p + 1) n ≡ ok local
unfolding substr
substr-local p local c n h =
    ground (arith, drop-behind p local c, take_of_le n local, length-append p (c ∷ local))

-- A text between two bytes, without them.
abbrev pub quoted : ℕ → Text → ℕ → Text
quoted a s b = a ∷ (s ++ b ∷ [])
