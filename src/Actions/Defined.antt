-- ===== src/Actions/Defined.antt =====
-- BasicActions.hpp: the exceptions of the actions on terms and directives. None of them calls
-- anything whose behaviour is undefined.
use mathlib.Core.Path.{subst}
use rdf_parser.Base.{
  ℕ, ◌+◌, ◌%◌, ◌^◌, ◌≡◌, not, Bool, true, false, [], ◌∷◌, Option, none, some, Text, ltb, size_sub,
  length, if◌then◌else◌, substr, substr_from, erase_at, insert_at, Result, ok, throw, ◌>>=◌,
  undefined, out_of_range, find,
}
use rdf_parser.Grammar.Names.{
  Name, anon, integer, decimal, double, langtag, blank_node_label, iriref, numeric_literal,
  turtle_string, blank_node, prefixed_name, prefix_id, sparql_prefix, base, sparql_base,
  rdf_literal_type_tag, rdf_literal, boolean_literal, verb_a,
}
use rdf_parser.States.Basic.{BasicState, get_prefix_value, add_prefix, set_base, set_type_tag_found}
use rdf_parser.Actions.{
  erase_ends, with_base, expand, tag_of, resolve, resolve_type_tag, set_typed_literal, apply_base,
  apply_prefix_id, apply_sparql_prefix, apply_sparql_base, apply_prefixed_name, apply_iriref,
  apply_anon, apply_boolean_literal, apply_double, apply_decimal, apply_integer,
  apply_numeric_literal, apply_rdf_literal, apply_rdf_literal_type_tag, apply_langtag,
  apply_turtle_string, apply_blank_node, apply_verb_a, apply_blank_node_label,
}
use rdf_parser.Actions.Table.{ActionOn, basic_action}

-- A result that is no undefined behaviour.
abbrev pub IsDefined {ℓ} : {A : Type ℓ} → Result A → Type 0
IsDefined (ok a) = Unit
IsDefined (throw undefined) = ⊥
IsDefined (throw e) = Unit

bind-IsDefined {ℓ κ} :
    {A : Type ℓ} {B : Type κ} (r : Result A) (f : A → Result B)
    → IsDefined r
    → ((a : A) → IsDefined (f a))
    → IsDefined (r >>= f)
bind-IsDefined (ok a) f h g = g a
bind-IsDefined (throw e) f h g = h

test-IsDefined : (c : Bool) (t : Text) → IsDefined (if c then throw out_of_range else ok t)
test-IsDefined true t = tt
test-IsDefined false t = tt

if-IsDefined {ℓ} :
    {A : Type ℓ} (c : Bool) (x y : Result A)
    → IsDefined x
    → IsDefined y
    → IsDefined (if c then x else y)
if-IsDefined true x y h g = h
if-IsDefined false x y h g = g

substr-IsDefined : (s : Text) (pos n : ℕ) → IsDefined (substr s pos n)
unfolding substr
substr-IsDefined s pos n = test-IsDefined (ltb (length s) pos) _

substr_from-IsDefined : (s : Text) (pos : ℕ) → IsDefined (substr_from s pos)
unfolding substr_from
substr_from-IsDefined s pos = test-IsDefined (ltb (length s) pos) _

erase_at-IsDefined : (s : Text) (pos n : ℕ) → IsDefined (erase_at s pos n)
unfolding erase_at
erase_at-IsDefined s pos n = test-IsDefined (ltb (length s) pos) _

erase_ends-IsDefined : (s : Text) → IsDefined (erase_ends s)
unfolding erase_ends
erase_ends-IsDefined s =
    bind-IsDefined (erase_at s 0 1) _ (erase_at-IsDefined s 0 1)
      (λ t. erase_at-IsDefined t (size_sub (length t) 1) 1)

with_base-IsDefined : (b s : Text) → IsDefined (with_base b s)
unfolding with_base insert_at
with_base-IsDefined [] s = tt
with_base-IsDefined (b ∷ bs) s = test-IsDefined (ltb (length s) 1) _

expand-IsDefined : (o : Option Text) (t : Text) (pos : ℕ) → IsDefined (expand o t pos)
unfolding expand
expand-IsDefined none t pos = tt
expand-IsDefined (some m) t pos =
    bind-IsDefined (substr t (pos + 1) (length t)) _ (substr-IsDefined t (pos + 1) (length t))
      (λ l. tt)

tag_of-IsDefined : (x : Bool) (t : Text) → IsDefined (tag_of x t)
unfolding tag_of
tag_of-IsDefined true t = substr-IsDefined t 3 _
tag_of-IsDefined false t = substr_from-IsDefined t 2

module _ {q : Bool} where
  resolve-IsDefined :
      (o : Option Text) (t : Text) (pos : ℕ) (p : Text) (s : BasicState q)
      → IsDefined (resolve o t pos p s)
  unfolding resolve
  resolve-IsDefined none t pos p s = tt
  resolve-IsDefined (some m) t pos p s =
      bind-IsDefined (substr t ((pos + 1) % 2 ^ 64) (size_sub (length t) (length p))) _
        (substr-IsDefined t _ _) (λ l. tt)

  resolve_type_tag-IsDefined : (s : BasicState q) → IsDefined (resolve_type_tag s)
  unfolding resolve_type_tag
  resolve_type_tag-IsDefined s =
      let pos = find s.type_tag b':' in
      if-IsDefined (not s.iri_is_iriref) _ _
        (bind-IsDefined (substr s.type_tag 0 pos) _ (substr-IsDefined s.type_tag 0 pos)
          (λ p. expand-IsDefined (get_prefix_value p s) s.type_tag pos))
        tt

  typed-IsDefined : (s : BasicState q) → IsDefined (set_typed_literal s)
  unfolding set_typed_literal
  typed-IsDefined s =
      bind-IsDefined (resolve_type_tag (set_type_tag_found false s)) _
        (resolve_type_tag-IsDefined (set_type_tag_found false s)) (λ t. tt)

  rdf_literal-IsDefined : (t : Text) (s : BasicState q) → IsDefined (apply_rdf_literal t s)
  unfolding apply_rdf_literal
  rdf_literal-IsDefined t s =
      if-IsDefined s.type_tag_found _ _ (typed-IsDefined s)
        (if-IsDefined s.lang_tag_found _ _ tt tt)

at_action :
    {g f : ActionOn (BasicState false)} (t : Text) (s : BasicState false)
    → some g ≡ some f
    → IsDefined (g t s)
    → IsDefined (f t s)
at_action {g} {f} t s h d = subst (λ x. IsDefined (x t s)) (option_injective g f h) d
  where
    option_injective : (x y : ActionOn (BasicState false)) → some x ≡ some y → x ≡ y
    option_injective x y e = cc

-- A directive with a prefix, and one without.
prefix-IsDefined :
    (p v : Text) (s : BasicState false)
    → IsDefined (
        erase_at p (size_sub (length p) 1) 1
        >>= (λ p'. erase_ends v >>= (λ v'. ok (add_prefix p' v' s))))
prefix-IsDefined p v s =
    bind-IsDefined (erase_at p (size_sub (length p) 1) 1) _ (erase_at-IsDefined p _ 1)
      (λ p'. bind-IsDefined (erase_ends v) _ (erase_ends-IsDefined v) (λ v'. tt))

base-IsDefined :
    (v : Text) (s : BasicState false) → IsDefined (erase_ends v >>= (λ v'. ok (set_base v' s)))
base-IsDefined v s = bind-IsDefined (erase_ends v) _ (erase_ends-IsDefined v) (λ v'. tt)

-- No action on a term or a directive comes to undefined behaviour, whatever it is given.
pub basic_action-IsDefined :
    (n : Name) (f : ActionOn (BasicState false))
    → basic_action false n ≡ some f
    → (t : Text) (s : BasicState false) → IsDefined (f t s)
unfolding basic_action apply_base apply_prefix_id apply_sparql_prefix apply_sparql_base
    apply_prefixed_name apply_iriref apply_anon apply_boolean_literal apply_double apply_decimal
    apply_integer apply_numeric_literal apply_rdf_literal_type_tag apply_langtag apply_turtle_string
    apply_blank_node apply_verb_a apply_blank_node_label
basic_action-IsDefined base f h t s = at_action t s h (base-IsDefined _ s)
basic_action-IsDefined sparql_base f h t s = at_action t s h (base-IsDefined _ s)
basic_action-IsDefined prefix_id f h t s = at_action t s h (prefix-IsDefined _ _ s)
basic_action-IsDefined sparql_prefix f h t s = at_action t s h (prefix-IsDefined _ _ s)
basic_action-IsDefined prefixed_name f h t s =
    at_action t s h
      (bind-IsDefined (substr _ 0 _) _ (substr-IsDefined _ 0 _) (λ p. resolve-IsDefined _ _ _ p s))
basic_action-IsDefined iriref f h t s = at_action t s h (
    bind-IsDefined (substr t 1 _) _ (substr-IsDefined t 1 _)
      (λ u. bind-IsDefined (with_base s.base u) _ (with_base-IsDefined s.base u) (λ v. tt)))
basic_action-IsDefined anon f h t s = at_action t s h (tt)
basic_action-IsDefined boolean_literal f h t s = at_action t s h (tt)
basic_action-IsDefined double f h t s = at_action t s h (tt)
basic_action-IsDefined decimal f h t s = at_action t s h (tt)
basic_action-IsDefined integer f h t s = at_action t s h (tt)
basic_action-IsDefined numeric_literal f h t s = at_action t s h (tt)
basic_action-IsDefined rdf_literal f h t s = at_action t s h (rdf_literal-IsDefined t s)
basic_action-IsDefined rdf_literal_type_tag f h t s =
    at_action t s h (bind-IsDefined (tag_of _ t) _ (tag_of-IsDefined _ t) (λ x. tt))
basic_action-IsDefined langtag f h t s =
    at_action t s h (bind-IsDefined (substr_from t 1) _ (substr_from-IsDefined t 1) (λ x. tt))
basic_action-IsDefined turtle_string f h t s =
    at_action t s h (bind-IsDefined (substr t 1 _) _ (substr-IsDefined t 1 _) (λ x. tt))
basic_action-IsDefined blank_node f h t s = at_action t s h (tt)
basic_action-IsDefined verb_a f h t s = at_action t s h (tt)
basic_action-IsDefined blank_node_label f h t s =
    at_action t s h (bind-IsDefined (substr_from t 2) _ (substr_from-IsDefined t 2) (λ x. tt))
basic_action-IsDefined _ f h t s = cc
