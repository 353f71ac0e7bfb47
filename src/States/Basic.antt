-- ===== src/States/Basic.antt =====
-- States/BasicState.hpp: what the actions on a single term read and write.
pub mod Prefixes
use rdf_parser.Base.{
  ℕ, zero, suc, ◌+◌, ◌-◌, ◌/◌, ◌%◌, ◌^◌, ◌≡◌, refl, Bool, true, false, List, [], ◌∷◌, ◌++◌, Option,
  none, some, ltb, if◌then◌else◌, Text, text_eq,
}
use rdf_parser.States.Element.{Element, default_element}

pub record BasicState (q : Bool) : Type 0 where
  pub element : Element q
  pub type_tag_found : Bool
  pub lang_tag_found : Bool
  pub iri_is_iriref : Bool
  pub lang_tag : Text
  pub type_tag : Text
  pub literal_string : Text
  pub blank_node_string : Text
  pub base : Text
  pub latest_bn_label : ℕ
  pub prefix_map : List (Text × Text)

unfoldable pub initial_basic : (q : Bool) → BasicState q
unfolding default_element
initial_basic q = record {
  element = default_element q;
  type_tag_found = false;
  lang_tag_found = false;
  iri_is_iriref = false;
  lang_tag = [];
  type_tag = [];
  literal_string = [];
  blank_node_string = [];
  base = [];
  latest_bn_label = 1;
  prefix_map = [];
}

-- The map: `find` of a key, and `emplace`, which keeps the value of a key that is there.
unfoldable pub find_prefix : Text → List (Text × Text) → Option Text
find_prefix k [] = none
find_prefix k ((j, v) ∷ m) = if text_eq j k then some v else find_prefix k m

unfoldable pub emplace : Text → Text → List (Text × Text) → List (Text × Text)
emplace k v [] = (k, v) ∷ []
emplace k v ((j, w) ∷ m) = if text_eq j k then (j, w) ∷ m else (j, w) ∷ emplace k v m

-- The digits of a number, the least last. The fuel is the number itself, and one more.
unfoldable pub decimal_digits : ℕ → ℕ → Text
decimal_digits zero n = []
decimal_digits (suc f) n =
    let rest = decimal_digits f (n / 10) ++ (48 + n % 10) ∷ [] in
    if ltb n 10 then (48 + n) ∷ [] else rest

abbrev pub decimal : ℕ → Text
decimal n = decimal_digits (suc n) n

-- The counter is an int, here by its 32 bits; from 2 ^ 31 on it is negative. It wraps around.
unfoldable pub next_int : ℕ → ℕ
next_int n = (n + 1) % 2 ^ 32

-- "{}" of an int.
unfoldable pub print_int : ℕ → Text
print_int n = if ltb n (2 ^ 31) then decimal n else b'-' ∷ decimal (2 ^ 32 - n)

module _ {q : Bool} where
  abbrev pub set_element : Element q → BasicState q → BasicState q
  set_element e s = record s { element = e }

  unfoldable pub add_prefix : Text → Text → BasicState q → BasicState q
  add_prefix prefix value s = record s { prefix_map = emplace prefix value s.prefix_map }

  unfoldable pub get_prefix_value : Text → BasicState q → Option Text
  get_prefix_value prefix s = find_prefix prefix s.prefix_map

  abbrev pub set_base : Text → BasicState q → BasicState q
  set_base base s = record s { base = base }

  abbrev pub set_lan_tag : Text → BasicState q → BasicState q
  set_lan_tag lan_tag s = record s { lang_tag = lan_tag }

  abbrev pub set_type_tag : Text → BasicState q → BasicState q
  set_type_tag type_tag s = record s { type_tag = type_tag }

  abbrev pub set_type_tag_found : Bool → BasicState q → BasicState q
  set_type_tag_found found s = record s { type_tag_found = found }

  abbrev pub set_lang_tag_found : Bool → BasicState q → BasicState q
  set_lang_tag_found found s = record s { lang_tag_found = found }

  abbrev pub set_iri_is_iriref : Bool → BasicState q → BasicState q
  set_iri_is_iriref found s = record s { iri_is_iriref = found }

  abbrev pub set_literal_string : Text → BasicState q → BasicState q
  set_literal_string literal_string s = record s { literal_string = literal_string }

  abbrev pub set_blank_node_string : Text → BasicState q → BasicState q
  set_blank_node_string blank_node_string s = record s { blank_node_string = blank_node_string }

  -- "b{}" of the counter, which is then the next int.
  unfoldable pub create_blank_node_label : BasicState q → Text × BasicState q
  create_blank_node_label s = (
    b'b' ∷ print_int s.latest_bn_label,
    record s { latest_bn_label = next_int s.latest_bn_label },
  )
