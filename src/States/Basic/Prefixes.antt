-- ===== src/States/Basic/Prefixes.antt =====
-- BasicState.hpp, addPrefix and getPrefixValue.
use rdf_parser.Base.{
  ◌≡◌, refl, Bool, List, [], ◌∷◌, Option, none, some, arith, Text, text_eq, text_eq_iff,
  if◌then◌else◌,
}
use rdf_parser.States.Basic.{BasicState, find_prefix, emplace, add_prefix, get_prefix_value}

-- The first value wins.
abbrev pub or_else : Option Text → Text → Option Text
or_else (some old) v = some old
or_else none v = some v

find_prefix-emplace :
    (k j v : Text) (m : List (Text × Text))
    → find_prefix j (emplace k v m)
      ≡ (if text_eq k j then or_else (find_prefix j m) v else find_prefix j m)
unfolding find_prefix emplace
find_prefix-emplace k j v [] = refl
find_prefix-emplace k j v ((i, w) ∷ m) =
    ground (arith, text_eq_iff k j, text_eq_iff i k, text_eq_iff i j, find_prefix-emplace k j v m)

-- After a prefix is added, every other prefix has the value that it had; the prefix itself has the
-- value that it had before, if it had one, and the new value only if it had none.
pub get_prefix_value-add_prefix :
    {q : Bool} (k j v : Text) (s : BasicState q)
    → get_prefix_value j (add_prefix k v s)
      ≡ (if text_eq k j then or_else (get_prefix_value j s) v else get_prefix_value j s)
unfolding get_prefix_value add_prefix
get_prefix_value-add_prefix k j v s = find_prefix-emplace k j v s.prefix_map
