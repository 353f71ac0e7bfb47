-- ===== src/Printed/States.antt =====
-- The two states that the grammar is matched with: a BasicState by parse_term, the State of a parser
-- by the constructors.
use rdf_parser.Base.{
  ◌≡◌, ◌⊎◌, inl, inr, refl, Bool, true, false, ◌&&◌, Option, none, some, Text, ok,
}
use rdf_parser.Grammar.Names.{
  Name, anon, integer, decimal, double, langtag, blank_node_label, iriref, numeric_literal,
  turtle_string, blank_node, prefixed_name, prefix_id, sparql_prefix, base, sparql_base,
  rdf_literal_type_tag, rdf_literal, boolean_literal, verb_a,
}
use rdf_parser.States.Basic.{BasicState}
use rdf_parser.States.Machine.{Derived, State}
use rdf_parser.Actions.Table.{ActionOn, basic_action, joining_action, on_basic, action}
use rdf_parser.Printed.Steps.{silent_name, Terms, is_none}

both_true : (a b : Bool) → a && b ≡ true → (a ≡ true) × (b ≡ true)
both_true true true h = (refl, refl)
both_true true false h = cc
both_true false b h = cc

none_of_is_none {ℓ} : {A : Type ℓ} (o : Option A) → is_none o ≡ true → o ≡ none
none_of_is_none none h = refl
none_of_is_none (some a) h = cc

-- No rule has an action of both kinds.
not_both : (n : Name) → (basic_action false n ≡ none) ⊎ (joining_action false n ≡ none)
unfolding basic_action joining_action
not_both base = inr refl
not_both prefix_id = inr refl
not_both sparql_prefix = inr refl
not_both sparql_base = inr refl
not_both prefixed_name = inr refl
not_both iriref = inr refl
not_both anon = inr refl
not_both boolean_literal = inr refl
not_both double = inr refl
not_both decimal = inr refl
not_both integer = inr refl
not_both numeric_literal = inr refl
not_both rdf_literal = inr refl
not_both rdf_literal_type_tag = inr refl
not_both langtag = inr refl
not_both turtle_string = inr refl
not_both blank_node = inr refl
not_both verb_a = inr refl
not_both blank_node_label = inr refl
not_both _ = inl refl

pub silent_basic : (n : Name) → silent_name n ≡ true → basic_action false n ≡ none
unfolding silent_name
silent_basic n h = none_of_is_none _ (both_true _ _ h).1

unfoldable pub basic_terms : Terms (basic_action false)
basic_terms = record {
  get = λ b. b;
  set = λ b s. b;
  get_set = λ b s. refl;
  set_set = λ b c s. refl;
  set_get = λ s. refl;
  silent = silent_basic;
  basic = λ n f h. (f, h, λ w s b e. e);
}

module _ {D : Type 0} (k : Derived false D) where
  pub silent_action : (n : Name) → silent_name n ≡ true → action k n ≡ none
  unfolding silent_name action
  silent_action n h =
      let (a, b) = both_true _ _ h in
      rw (none_of_is_none (joining_action false n) a, none_of_is_none (basic_action false n) b) refl

  pub lifted_action :
      (n : Name) (f : ActionOn (BasicState false))
      → basic_action false n ≡ some f
      → action k n ≡ some (on_basic k f)
  unfolding action
  lifted_action n f h = elim (not_both n) [ inl e ↦ cc | inr e ↦ rw (e, h) refl ]

  pub on_basic_lem :
      (f : ActionOn (BasicState false)) (w : Text) (s : State false D) (b : BasicState false)
      → f w s.basic ≡ ok b
      → on_basic k f w s ≡ ok (record s { basic = b })
  on_basic_lem f w s b e = rw e refl

  unfoldable pub machine_terms : Terms (action k)
  machine_terms = record {
    get = λ s. s.basic;
    set = λ b s. record s { basic = b };
    get_set = λ b s. refl;
    set_set = λ b c s. refl;
    set_get = λ s. refl;
    silent = silent_action;
    basic = λ n f h. (on_basic k f, lifted_action n f h, on_basic_lem f);
  }
