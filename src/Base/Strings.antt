-- ===== src/Base/Strings.antt =====
-- std::string as a list of bytes, with the members of std::string and std::stringstream that the
-- program calls. A size_t is a number below 2 ^ 64.
use Prim.Native.Nat.{ℕ, ◌+◌, ◌-◌, ◌^◌}
use Prim.Native.Char.{code}
use Prim.Native.String.{String}
use mathlib.Core.Path.{◌≡◌, refl}
use mathlib.Core.Logic.{◌↔◌}
use mathlib.Core.Bool.{Bool, true, false, ◌&&◌, ◌||◌}
use mathlib.Core.List.{List, [], ◌∷◌, ◌++◌}
use native.Mathlib.Omega.{arith}
use rdf_parser.Base.Tests.{◌==◌, leb, ltb, if◌then◌else◌}
use rdf_parser.Base.Lists.{length, take, drop, length-append, take-length_append}
use rdf_parser.Base.Exceptions.{Result, ok, throw, out_of_range}

abbrev pub Text : Type 0
Text = List ℕ

-- The bytes of an ASCII literal.
abbrev pub codes : String → Text
codes String.[] = []
codes (String.◌∷◌ c s) = code c ∷ codes s

-- operator== on std::string.
unfoldable pub text_eq : Text → Text → Bool
text_eq [] [] = true
text_eq (a ∷ s) (b ∷ t) = (a == b) && text_eq s t
text_eq _ _ = false

pub text_eq_iff : (s t : Text) → (text_eq s t ≡ true) ↔ (s ≡ t)
unfolding text_eq
text_eq_iff [] [] = (λ _. refl, λ _. refl)
text_eq_iff [] (b ∷ t) = (λ h. cc, λ h. cc)
text_eq_iff (a ∷ s) [] = (λ h. cc, λ h. cc)
text_eq_iff (a ∷ s) (b ∷ t) = ground (arith, text_eq_iff s t)

pub text_eq_refl : (s : Text) → text_eq s s ≡ true
text_eq_refl s = (text_eq_iff s s).1 refl

-- operator< on std::string: the bytes in lexicographic order.
unfoldable pub text_lt : Text → Text → Bool
text_lt [] [] = false
text_lt [] (b ∷ t) = true
text_lt (a ∷ s) [] = false
text_lt (a ∷ s) (b ∷ t) = ltb a b || ((a == b) && text_lt s t)

-- `a - b` on size_t.
abbrev pub size_sub : ℕ → ℕ → ℕ
size_sub a b = if leb b a then a - b else a + 2 ^ 64 - b

-- `npos`, the largest size_t.
abbrev pub npos : ℕ
npos = 2 ^ 64 - 1

-- s.substr(pos, n) and s.substr(pos).
unfoldable pub substr : Text → ℕ → ℕ → Result Text
substr s pos n = if ltb (length s) pos then throw out_of_range else ok (take n (drop pos s))

unfoldable pub substr_from : Text → ℕ → Result Text
substr_from s pos = if ltb (length s) pos then throw out_of_range else ok (drop pos s)

-- s.erase(pos, n).
unfoldable pub erase_at : Text → ℕ → ℕ → Result Text
erase_at s pos n =
    if ltb (length s) pos then throw out_of_range else ok (take pos s ++ drop (pos + n) s)

-- s.insert(pos, t).
unfoldable pub insert_at : Text → ℕ → Text → Result Text
insert_at s pos t =
    if ltb (length s) pos then throw out_of_range else ok (take pos s ++ (t ++ drop pos s))

-- s.find(c), from `i` bytes into the text.
unfoldable pub find_from : ℕ → Text → ℕ → ℕ
find_from c [] i = npos
find_from c (x ∷ s) i = if x == c then i else find_from c s (i + 1)

abbrev pub find : Text → ℕ → ℕ
find s c = find_from c s 0

-- std::isspace in the C locale.
abbrev pub is_space : ℕ → Bool
is_space c = (c == 32) || (leb 9 c && leb c 13)

unfoldable pub skip_space : Text → Text
skip_space [] = []
skip_space (c ∷ s) = if is_space c then skip_space s else c ∷ s

unfoldable pub token : Text → Text
token [] = []
token (c ∷ s) = if is_space c then [] else c ∷ token s

unfoldable pub after_token : Text → Text
after_token [] = []
after_token (c ∷ s) = if is_space c then c ∷ s else after_token s

-- `ss >> s` into an empty `s`: the next run of bytes that are no space, and what is left. At the
-- end of the stream the target keeps its value, which is empty.
unfoldable pub read_word : Text → Text × Text
unfolding skip_space token after_token
read_word s = (token (skip_space s), after_token (skip_space s))

-- A text in quotes of one byte on each side loses them by substr(1, size - 2).
pub substr-strip :
    (a b : ℕ) (s : Text)
    → substr (a ∷ (s ++ b ∷ [])) 1 (size_sub (length (a ∷ (s ++ b ∷ []))) 2) ≡ ok s
unfolding substr
substr-strip a b s = ground (arith, length-append s (b ∷ []), take-length_append s (b ∷ []))
