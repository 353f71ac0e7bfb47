-- ===== src/Actions/Names.antt =====
-- BasicActions.hpp: IRIs, prefixed names, the keyword `a` and blank nodes.
use Prim.Native.Nat.add
use rdf_parser.Base.{
  ℕ, ◌+◌, ◌%◌, ◌^◌, ◌≤◌, ◌<◌, ◌≡◌, ◌≢◌, refl, Bool, true, false, [], ◌∷◌, ◌++◌, Option, none, some,
  arith, All, All-append, length, length-append, Text, codes, text_eq, substr_from, substr-strip,
  size_sub, insert_at, Result, ok, throw, ◌>>=◌, out_of_range, runtime_error,
}
use rdf_parser.Rdf.Term.{uri_ref, term_eq}
use rdf_parser.States.Element.{of_term, blank_element}
use rdf_parser.States.Basic.{
  BasicState, set_element, set_iri_is_iriref, get_prefix_value, set_blank_node_string,
  set_literal_string, next_int, print_int, create_blank_node_label,
}
use rdf_parser.Actions.{
  apply_iriref, with_base, apply_prefixed_name, resolve, through_int, apply_verb_a,
  apply_blank_node_label, apply_blank_node, apply_anon,
}
use rdf_parser.Actions.Words.{
  NoSpace, read_word_alone, find_from-append, substr-prefix, substr-local, quoted,
}

-- The IRI that `<u>` stands for in the code.
abbrev pub iri_meaning : Text → Text → Result Text
iri_meaning [] u = ok u
iri_meaning (b ∷ base) [] = throw out_of_range
iri_meaning (b ∷ base) (c ∷ u) = ok (c ∷ ((b ∷ base) ++ u))

with_base_lem : (base u : Text) → with_base base u ≡ iri_meaning base u
unfolding with_base insert_at
with_base_lem [] u = refl
with_base_lem (b ∷ base) [] = refl
with_base_lem (b ∷ base) (c ∷ u) = ground arith

through_int_small : (n : ℕ) → n < 2 ^ 31 → through_int n ≡ n
unfolding through_int
through_int_small n h = ground arith

mod_size : (n : ℕ) → n < 2 ^ 31 → (n + 1) % 2 ^ 64 ≡ n + 1
mod_size n h = omega arith

local_length : (p local : Text) → length local ≤ size_sub (length (p ++ b':' ∷ local)) (length p)
local_length p local = ground (arith, length-append p (b':' ∷ local))

module _ {q : Bool} where
  abbrev pub with_iri : Bool → Text → BasicState q → BasicState q
  with_iri flag u s = set_iri_is_iriref flag (set_element (of_term q (uri_ref u)) s)

  -- `<u>` in a state with any base: without a base the element is the IRI u. With one, the base is
  -- inserted behind the first byte of u, and the empty IRI makes the action throw out_of_range.
  pub apply_iriref_lem :
      (u : Text) (s : BasicState q)
      → apply_iriref (quoted b'<' u b'>') s ≡ (iri_meaning s.base u >>= λ v. ok (with_iri true v s))
  unfolding apply_iriref
  apply_iriref_lem u s = rw (substr-strip b'<' b'>' u) (rw (with_base_lem s.base u))

  -- What a prefixed name stands for.
  abbrev pub name_meaning : Option Text → Text → BasicState q → Result (BasicState q)
  name_meaning none local s = throw runtime_error
  name_meaning (some namespace) local s = ok (with_iri false (namespace ++ local) s)

  resolve_lem :
      (o : Option Text) (p local : Text) (s : BasicState q)
      → length p < 2 ^ 31
      → resolve o (p ++ b':' ∷ local) (length p) p s ≡ name_meaning o local s
  unfolding resolve
  resolve_lem none p local s h = refl
  resolve_lem (some ns) p local s h =
      rw (mod_size (length p) h, substr-local p local b':' _ (local_length p local))

  -- `p:local`, where p has no colon and fewer than 2^31 bytes and neither has a space: the element
  -- is the IRI that the value of p and local make together, if p is defined; if it is not, the
  -- action throws.
  pub apply_prefixed_name_lem :
      (p local : Text) (s : BasicState q)
      → NoSpace p
      → NoSpace local
      → All (λ c. c ≢ b':') p
      → length p < 2 ^ 31
      → apply_prefixed_name (p ++ b':' ∷ local) s ≡ name_meaning (get_prefix_value p s) local s
  unfolding apply_prefixed_name
  apply_prefixed_name_lem p local s hp hl hc h =
      rw
        (
          read_word_alone (p ++ b':' ∷ local) (All-append _ p (b':' ∷ local) hp (refl, hl)),
          find_from-append b':' p local 0 hc,
          add.zero (length p),
          through_int_small (length p) h,
          substr-prefix p local b':',
        )
        (resolve_lem (get_prefix_value p s) p local s h)

abbrev rdf_type : Text
rdf_type = codes "http://www.w3.org/1999/02/22-rdf-syntax-ns#type"

-- In every state of a document without a base, the keyword `a` and the IRI of rdf:type written out
-- both have an element, and operator== tells the two elements apart.
pub verb_a-ne-rdf_type :
    (s : BasicState false)
    → s.base ≡ []
    → (t : BasicState false) × (u : BasicState false) × (apply_verb_a (codes "a") s ≡ ok t)
      × (apply_iriref (quoted b'<' rdf_type b'>') s ≡ ok u)
      × (term_eq t.element u.element ≡ false)
unfolding apply_verb_a term_eq uri_ref text_eq of_term
verb_a-ne-rdf_type s h = (_, with_iri true rdf_type s, refl, simp (apply_iriref_lem, h), refl)

module _ {q : Bool} where
  -- `_:l`, and then the rule BlankNode.
  unfoldable pub read_blank_label : Text → BasicState q → Result (BasicState q)
  read_blank_label l s =
      apply_blank_node_label (b'_' ∷ b':' ∷ l) s >>= apply_blank_node (b'_' ∷ b':' ∷ l)

  -- `[]`, and then the rule BlankNode.
  unfoldable pub read_anon : BasicState q → Result (BasicState q)
  read_anon s = apply_anon (codes "[]") s >>= apply_blank_node (codes "[]")

  abbrev pub labelled : Text → BasicState q → BasicState q
  labelled l s = set_element (blank_element q l) (set_blank_node_string l (set_literal_string l s))

  pub read_blank_label_lem :
      (l : Text) (s : BasicState q) → read_blank_label l s ≡ ok (labelled l s)
  unfolding read_blank_label apply_blank_node_label apply_blank_node substr_from
  read_blank_label_lem l s = ground arith

  -- A blank node with the label l has the node l for its element. One without a label has a node
  -- whose label is `b` and the counter, and the counter goes on to the next int. Neither changes the
  -- prefixes or the base.
  pub blank_nodes_read :
      (l : Text) (s : BasicState q)
      → (t : BasicState q) × (u : BasicState q) × (read_blank_label l s ≡ ok t)
        × (read_anon s ≡ ok u)
        × (t.element ≡ blank_element q l)
        × (u.element ≡ blank_element q (b'b' ∷ print_int s.latest_bn_label))
        × (t.latest_bn_label ≡ s.latest_bn_label)
        × (u.latest_bn_label ≡ next_int s.latest_bn_label)
        × ((t.prefix_map ≡ s.prefix_map) × (u.prefix_map ≡ s.prefix_map))
        × ((t.base ≡ s.base) × (u.base ≡ s.base))
  unfolding read_anon apply_blank_node apply_anon create_blank_node_label
  blank_nodes_read l s = (
    labelled l s,
    _,
    read_blank_label_lem l s,
    refl,
    refl,
    refl,
    refl,
    refl,
    (refl, refl),
    (refl, refl),
  )
