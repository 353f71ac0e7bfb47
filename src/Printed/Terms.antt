-- ===== src/Printed/Terms.antt =====
-- Grammar.hpp with BasicActions.hpp: the rule `term` on the text of a term, which is also its
-- identifier; and RDF/ParseTerm.hpp on identifiers.
use rdf_parser.Base.{
  ◌≡◌, refl, sym, ap, false, [], ◌∷◌, ◌++◌, Option, append_assoc, append-nil, Text, ok,
}
use rdf_parser.Rdf.Term.Equality.{
  Tag, plain, language, typed, RdfTerm, iri, blank, lit, suffix, shown,
}
use rdf_parser.Rdf.ParseTerm.{term_actions}
use rdf_parser.Grammar.Rule.{Rule, one, ref, ◌or◌, opt}
use rdf_parser.Grammar.Names.{
  Name, langtag, rdf_literal_type_tag, rdf_literal, literal, blank_node, term,
}
use rdf_parser.Grammar.Body.{body}
use rdf_parser.Grammar.Bytes.{IsByteWise}
use rdf_parser.Grammar.Match.{Outcome, matched, failed, Match, then_on, or_first, or_second, at_opt}
use rdf_parser.Grammar.Look.{fails, head, look}
use rdf_parser.States.Basic.{BasicState}
use rdf_parser.Actions.{
  apply_rdf_literal, apply_blank_node, apply_turtle_string, apply_langtag, apply_iriref,
  apply_rdf_literal_type_tag, apply_blank_node_label,
}
use rdf_parser.Actions.Words.{quoted}
use rdf_parser.Actions.Names.{read_blank_label}
use rdf_parser.Actions.Literals.{read_plain, read_lang, read_typed}
use rdf_parser.Actions.Table.{ActionOn, basic_action, joining_action}
use rdf_parser.Printed.Steps.{
  silent_name, Terms, ok_bound, fuel, see, with_action, without_action, along, Ended, stops,
}
use rdf_parser.Printed.Tokens.{
  IriText, StringText, LangText, LabelText, quoted-append, iriref_read, string_read, langtag_read,
  type_tag_read, blank_label_read,
}

-- Terms whose identifier the grammar reads byte by byte: no escapes, labels of single-byte label
-- characters and without dots, and languages of ASCII letters alone.
abbrev pub IsWritten : RdfTerm → Type 0
IsWritten (iri u) = IriText u
IsWritten (blank b) = LabelText b
IsWritten (lit v plain) = StringText v
IsWritten (lit v (language l)) = StringText v × LangText l
IsWritten (lit v (typed t)) = StringText v × IriText t

module _ {S : Type 0} (leaf : Rule Name → Text → Option Text) (w : IsByteWise leaf)
    (act : Name → Option (ActionOn S)) (terms : Terms act) where
  open terms use {get, set}

  abbrev R : Rule Name → Text → S → Outcome S → Type 0
  R = Match body leaf act

  abbrev fail :
      (r : Rule Name) (t : Text) (s : S)
      → look body silent_name fuel r (head t) ≡ fails
      → R r t s (failed s)
  fail r t s h = see leaf w act terms fails r t h s

  abbrev tag_rule : Rule Name
  tag_rule = ref langtag or ref rdf_literal_type_tag

  -- A literal, from the action on its string on: the tag, and the action on the whole.
  literal_read :
      (v tag rest : Text) (s : S) (x y z b : BasicState false)
      → StringText v
      → look body silent_name fuel (one (b'"' ∷ [])) (head (tag ++ rest)) ≡ fails
      → apply_turtle_string (quoted b'"' v b'"') x ≡ ok y
      → R (opt tag_rule) (tag ++ rest) (set y s) (matched rest (set z s))
      → apply_rdf_literal (quoted b'"' v b'"' ++ tag) z ≡ ok b
      → R (ref term) ((quoted b'"' v b'"' ++ tag) ++ rest) (set x s) (matched rest (set b s))
  unfolding body silent_name basic_action joining_action
  literal_read v tag rest s x y z b h n e m p = without_action leaf w act terms term _ _ _ refl (
      or_first (
        without_action leaf w act terms literal _ _ _ refl (
          or_first (
            with_action leaf w act terms rdf_literal apply_rdf_literal (quoted b'"' v b'"' ++ tag)
              rest s _ z b refl
              (along leaf w act terms (append_assoc (quoted b'"' v b'"') tag rest)
                (then_on (string_read leaf w act terms v (tag ++ rest) s x y h n e) m))
              p))))

  no_mark :
      (rest : Text) → Ended rest → look body silent_name fuel (one (b'"' ∷ [])) (head rest) ≡ fails
  unfolding look
  no_mark rest e = stops (one (b'"' ∷ [])) rest refl refl e

  no_tag : (rest : Text) (s : S) → Ended rest → R (opt tag_rule) rest s (matched rest s)
  unfolding look body silent_name
  no_tag rest s e = at_opt (fail tag_rule rest s (stops tag_rule rest refl refl e))

  shown_lit : (v : Text) (tag : Tag) → shown (lit v tag) ≡ quoted b'"' v b'"' ++ suffix tag
  shown_lit v tag = sym (quoted-append b'"' v b'"' (suffix tag))

  -- `_:l` as a blank node.
  pub blank_read :
      (l rest : Text) (s : S) (x b : BasicState false)
      → LabelText l
      → Ended rest
      → term_actions (blank l) x ≡ ok b
      → R (ref blank_node) (shown (blank l) ++ rest) (set x s) (matched rest (set b s))
  unfolding body basic_action term_actions read_blank_label
  blank_read l rest s x b h e p =
      let (y, p₁, p₂) = ok_bound (apply_blank_node_label (b'_' ∷ b':' ∷ l) x) _ b p in
      with_action leaf w act terms blank_node apply_blank_node (b'_' ∷ b':' ∷ l) rest s _ y b refl
        (or_first (blank_label_read leaf w act terms l rest s x y h e p₁)) p₂

  -- The rule `term` on a term that IsWritten allows, with a space or nothing behind it:
  -- it matches exactly the term and leaves what the term's actions leave.
  pub term_read :
      (a : RdfTerm) (rest : Text) (s : S) (x b : BasicState false)
      → IsWritten a
      → Ended rest
      → term_actions a x ≡ ok b
      → R (ref term) (shown a ++ rest) (set x s) (matched rest (set b s))
  unfolding look body silent_name basic_action joining_action term_actions read_plain read_lang
      read_typed
  term_read (iri u) rest s x b h e p = without_action leaf w act terms term _ _ _ refl (
      or_second (fail (ref literal) _ (set x s) refl) (
        or_second (fail (ref blank_node) _ (set x s) refl)
          (iriref_read leaf w act terms u rest s x b h p)))
  term_read (blank l) rest s x b h e p =
      without_action leaf w act terms term _ _ _ refl
        (or_second (fail (ref literal) _ (set x s) refl) (or_first (blank_read l rest s x b h e p)))
  term_read (lit v plain) rest s x b h e p =
      let (y, p₁, p₂) = ok_bound (apply_turtle_string (quoted b'"' v b'"') x) _ b p in
      along leaf w act terms (ap (λ t. t ++ rest) (shown_lit v plain)) (
        literal_read v [] rest s x y y b h (no_mark rest e) p₁ (no_tag rest (set y s) e)
          (rw (append-nil (quoted b'"' v b'"')) p₂))
  term_read (lit v (language l)) rest s x b h e p =
      let (y, p₁, p₂) = ok_bound (apply_turtle_string (quoted b'"' v b'"') x) _ b p in
      let (z, p₃, p₄) = ok_bound (apply_langtag (b'@' ∷ l) y) _ b p₂ in
      along leaf w act terms (ap (λ t. t ++ rest) (shown_lit v (language l))) (
        literal_read v (b'@' ∷ l) rest s x y z b h.0 refl p₁
          (at_opt (or_first (langtag_read leaf w act terms l rest s y z h.1 e p₃))) p₄)
  term_read (lit v (typed t)) rest s x b h e p =
      let (y, p₁, p₂) = ok_bound (apply_turtle_string (quoted b'"' v b'"') x) _ b p in
      let (z, p₃, p₄) = ok_bound (apply_iriref (quoted b'<' t b'>') y) _ b p₂ in
      let (z', p₅, p₆) =
        ok_bound (apply_rdf_literal_type_tag (b'^' ∷ b'^' ∷ quoted b'<' t b'>') z) _ b p₄ in
      along leaf w act terms (ap (λ t. t ++ rest) (shown_lit v (typed t))) (
        literal_read v (b'^' ∷ b'^' ∷ quoted b'<' t b'>') rest s x y z' b h.0 refl p₁
          (at_opt (
            or_second (fail (ref langtag) _ (set y s) refl)
              (type_tag_read leaf w act terms t rest s y z z' h.1 p₃ p₅)))
          p₆)
