-- ===== src/Printed/Leaves.antt =====
-- Grammar.hpp: terms, IRIs, `[]`, and the term that does not begin at a property list, in a parse
-- that is beside its events.
use mathlib.Core.Path.{subst}
use rdf_parser.Base.{
  ◌≡◌, refl, sym, ap, ◌∙◌, true, false, ◌∷◌, ◌++◌, Option, none, some, Text, codes, Result, ok,
}
use rdf_parser.Rdf.Term.{Term, uri_ref, literal}
use rdf_parser.Rdf.Term.Equality.{
  plain, language, typed, RdfTerm, iri, blank, lit, shown, represent, IsNormal, represent-shown,
}
use rdf_parser.Rdf.ParseTerm.{term_actions}
use rdf_parser.Grammar.Rule.{Rule, one, ref}
use rdf_parser.Grammar.Names.{
  Name, term, blank_node, blank_node_label, anon, anon_ws, subject, collection,
}
use rdf_parser.Grammar.Names
use rdf_parser.Grammar.Body.{body}
use rdf_parser.Grammar.Bytes.{IsByteWise}
use rdf_parser.Grammar.Match.{
  matched, failed, acted, named, then_on, or_second, star_more, star_end,
}
use rdf_parser.Grammar.Look.{head, look}
use rdf_parser.States.Element.{of_term, blank_element}
use rdf_parser.States.Basic.{
  BasicState, create_blank_node_label, set_element, set_blank_node_string,
}
use rdf_parser.States.Machine.{Derived, State, set_machine_element}
use rdf_parser.States.Machine.Events.{take_anon}
use rdf_parser.Actions.{apply_anon, apply_blank_node}
use rdf_parser.Actions.Names.{read_blank_label_lem, labelled, apply_iriref_lem, with_iri}
use rdf_parser.Actions.Literals.{read_plain-Gives, read_lang-Gives, read_typed-Gives}
use rdf_parser.Actions.Table.{basic_action, joining_action, action}
use rdf_parser.Printed.Steps.{silent_name, with_action, along, Ended}
use rdf_parser.Printed.Tokens.{LabelText, iriref_read}
use rdf_parser.Printed.Terms.{blank_read, term_read}
use rdf_parser.Printed.States.{machine_terms}
use rdf_parser.Printed.Like.{Like, with_basic}
use rdf_parser.Printed.Syntax.{IsWrittenTerm, IsIri}
use rdf_parser.Printed.Blanks.{P, fail, takes_one}

-- The actions of a term, between two terms and without a base.
pub term_actions-Like :
    (a : RdfTerm) (b m : BasicState false)
    → Like b m
    → (c : BasicState false) × (term_actions a b ≡ ok c)
      × Like c (record m { element = represent a })
unfolding term_actions represent literal of_term blank_element
term_actions-Like (iri u) b m l = (
  with_iri true u b,
  apply_iriref_lem u b ∙ rw l.no_base refl,
  record {
    element = refl;
    label = l.label;
    no_tag = record { no_type = l.no_tag.no_type; no_lang = l.no_tag.no_lang };
    no_base = l.no_base;
  },
)
term_actions-Like (blank x) b m l = (
  labelled x b,
  read_blank_label_lem x b,
  record {
    element = refl;
    label = l.label;
    no_tag = record { no_type = l.no_tag.no_type; no_lang = l.no_tag.no_lang };
    no_base = l.no_base;
  },
)
term_actions-Like (lit v plain) b m l =
    let (c, e, r) = read_plain-Gives v b l.no_tag in
    (
      c,
      e,
      record {
        element = r.element;
        label = r.label ∙ l.label;
        no_tag = r.no_tag;
        no_base = r.base ∙ l.no_base;
      },
    )
term_actions-Like (lit v (language x)) b m l =
    let (c, e, r) = read_lang-Gives v x b l.no_tag in
    (
      c,
      e,
      record {
        element = r.element;
        label = r.label ∙ l.label;
        no_tag = r.no_tag;
        no_base = r.base ∙ l.no_base;
      },
    )
term_actions-Like (lit v (typed t)) b m l =
    let (c, e, r) = read_typed-Gives v t b l.no_tag l.no_base in
    (
      c,
      e,
      record {
        element = r.element;
        label = r.label ∙ l.label;
        no_tag = r.no_tag;
        no_base = r.base ∙ l.no_base;
      },
    )

pub identifier-shown :
    (a : RdfTerm) (e : Term) (rest : Text)
    → represent a ≡ e
    → IsNormal a
    → e.identifier ++ rest ≡ shown a ++ rest
identifier-shown a e rest h n =
    ap (λ x. x.identifier ++ rest) (sym h) ∙ ap (λ t. t ++ rest) (represent-shown a n)

module _ {D : Type 0} (k : Derived false D) (leaf : Rule Name → Text → Option Text)
    (w : IsByteWise leaf) where
  -- The rules that leave an element.
  abbrev pub Reads :
      Rule Name → Text → Text → State false D → BasicState false → State false D → Type 0
  Reads r t rest s b u =
      (b' : BasicState false) × Like b' u.basic
      × P k leaf w r t (with_basic k b s) (matched rest (with_basic k b' u))

  pub term_Reads :
      (e : Term) (rest : Text) (s : State false D) (b : BasicState false)
      → IsWrittenTerm e
      → Ended rest
      → Like b s.basic
      → Reads (ref Names.term) (e.identifier ++ rest) rest s b (set_machine_element k e s)
  unfolding machine_terms
  term_Reads e rest s b (a, h, g, n) end l =
      let (c, p, l') = term_actions-Like a b s.basic l in
      let m = term_read leaf w (action k) (machine_terms k) a rest s b c g end p in
      (
        c,
        subst (λ x. Like c (record (s.basic) { element = x })) h l',
        along leaf w (action k) (machine_terms k) (identifier-shown a e rest h n) m,
      )

  pub iri_Reads :
      (e : Term) (rest : Text) (s : State false D) (b : BasicState false)
      → IsIri e
      → Like b s.basic
      → Reads (ref Names.iri) (e.identifier ++ rest) rest s b (set_machine_element k e s)
  unfolding machine_terms represent term_actions uri_ref
  iri_Reads e rest s b (v, h, g) l =
      let (c, p, l') = term_actions-Like (iri v) b s.basic l in
      let m = iriref_read leaf w (action k) (machine_terms k) v rest s b c g p in
      (
        c,
        subst (λ x. Like c (record (s.basic) { element = x })) h l',
        along leaf w (action k) (machine_terms k) (identifier-shown (iri v) e rest h tt) m,
      )

  pub blank_Reads :
      (e : Term) (rest : Text) (s : State false D) (b : BasicState false)
      → (l : Text) → represent (blank l) ≡ e
      → LabelText l
      → Ended rest
      → Like b s.basic
      → Reads (ref blank_node) (e.identifier ++ rest) rest s b (set_machine_element k e s)
  unfolding machine_terms
  blank_Reads e rest s b x h g end l =
      let (c, p, l') = term_actions-Like (blank x) b s.basic l in
      let m = blank_read leaf w (action k) (machine_terms k) x rest s b c g end p in
      (
        c,
        subst (λ y. Like c (record (s.basic) { element = y })) h l',
        along leaf w (action k) (machine_terms k) (identifier-shown (blank x) e rest h tt) m,
      )

  -- `[]`
  pub anon_Reads :
      (rest : Text) (s : State false D) (b : BasicState false)
      → Like b s.basic
      → Reads (ref blank_node) (codes "[]" ++ rest) rest s b (take_anon k s)
  unfolding machine_terms look body silent_name basic_action joining_action apply_anon
      apply_blank_node take_anon create_blank_node_label blank_element
  anon_Reads rest s b l =
      let (label, b₁) = create_blank_node_label b in
      let b₂ = set_blank_node_string label b₁ in
      let b₃ = set_element (blank_element false label) b₂ in
      (
        b₃,
        record {
          element = rw l.label refl;
          label = rw l.label refl;
          no_tag = record { no_type = l.no_tag.no_type; no_lang = l.no_tag.no_lang };
          no_base = l.no_base;
        },
        with_action leaf w (action k) (machine_terms k) blank_node apply_blank_node (codes "[]")
            rest s _ b₂ b₃ refl
            (or_second (fail k leaf w (ref blank_node_label) _ _ refl) (
              with_action leaf w (action k) (machine_terms k) anon apply_anon (codes "[]") rest s _
                b b₂ refl
                (then_on (takes_one k leaf w _ _ _ _ refl) (
                  then_on (star_end (fail k leaf w _ (b']' ∷ rest) _ refl))
                    (takes_one k leaf w _ _ _ _ refl)))
                refl))
            refl,
      )

  -- A rule fails where its body does, whatever its action.
  pub named_failed :
      (n : Name) (t : Text) (s v : State false D)
      → P k leaf w (body n) t s (failed v)
      → P k leaf w (ref n) t s (failed v)
  named_failed n t s v m =
      subst (λ o. P k leaf w (ref n) t s o) (none_or_some (action k n)) (named m)
    where
      none_or_some :
          (a : Option (Text → State false D → Result (State false D)))
          → acted a t (failed v) ≡ failed v
      none_or_some none = refl
      none_or_some (some f) = refl

  -- `[ <` begins no blank node and no term.
  pub bracket_blank_node :
      (t : Text) (s : State false D)
      → head t ≡ some b'<'
      → P k leaf w (ref blank_node) (b'[' ∷ 32 ∷ t) s (failed s)
  unfolding look body silent_name basic_action joining_action
  bracket_blank_node t s h = named_failed blank_node _ s s (
      or_second (fail k leaf w (ref blank_node_label) _ s refl) (
        named_failed anon _ s s (
          then_on (takes_one k leaf w _ _ _ s refl) (
            then_on
              (star_more (takes_one k leaf w (ref anon_ws) 32 t s refl)
                (star_end (fail k leaf w (ref anon_ws) t s (rw h refl))))
              (fail k leaf w (one (codes "]")) t s (rw h refl))))))

  pub bracket_term :
      (t : Text) (s : State false D)
      → head t ≡ some b'<'
      → P k leaf w (ref Names.term) (b'[' ∷ 32 ∷ t) s (failed s)
  unfolding look body silent_name basic_action joining_action
  bracket_term t s h = named_failed Names.term _ s s (
      or_second (fail k leaf w (ref Names.literal) _ s refl)
        (or_second (bracket_blank_node t s h) (fail k leaf w (ref Names.iri) _ s refl)))
