-- ===== src/Printed/Tokens.antt =====
-- Grammar.hpp with BasicActions.hpp: IRIREF, strings, language tags, data types and blank nodes.
use rdf_parser.Base.{
  ℕ, ◌≡◌, refl, ap, true, false, [], ◌∷◌, ◌++◌, Option, some, arith, All, append_assoc, Text, codes,
  ok,
}
use rdf_parser.Grammar.Rule.{Rule, one, str, ref, ◌then◌, plus, alpha, alnum}
use rdf_parser.Grammar.Names.{
  Name, string_literal_long_quote, string_literal_long_single_quote, string_literal_single_quote,
  string_literal_quote, turtle_string, langtag, rdf_literal_type_tag, iriref, iri, blank_node_label,
}
use rdf_parser.Grammar.Body.{body}
use rdf_parser.Grammar.Bytes.{IsByteWise}
use rdf_parser.Grammar.Match.{
  Outcome, matched, failed, Match, then_on, then_failed, or_first, or_second, at_plus, star_end,
}
use rdf_parser.Grammar.Sees.{leaf_match}
use rdf_parser.Grammar.Look.{fails, takes, head, look}
use rdf_parser.States.Basic.{BasicState}
use rdf_parser.Actions.{
  apply_iriref, apply_turtle_string, apply_langtag, apply_rdf_literal_type_tag,
  apply_blank_node_label,
}
use rdf_parser.Actions.Words.{quoted}
use rdf_parser.Actions.Table.{ActionOn, basic_action, joining_action}
use rdf_parser.Printed.Steps.{
  silent_name, Terms, fuel, see, star_bytes, with_action, without_action, along, Ended, stops,
}
use rdf_parser.Printed.Bytes.{
  at_byte, iri_char, string_char, label_start, label_char, iri_byte, string_byte, iri_byte-takes,
  string_byte-takes,
}

map-All : {P Q : ℕ → Type 0} (cs : Text) → ((c : ℕ) → P c → Q c) → All P cs → All Q cs
map-All [] f h = tt
map-All (c ∷ cs) f h = (f c h.0, map-All cs f h.1)

abbrev pub IriText : Text → Type 0
IriText = All (λ c. iri_byte c ≡ true)

abbrev pub StringText : Text → Type 0
StringText = All (λ c. string_byte c ≡ true)

-- A language tag of letters.
abbrev pub LangText : Text → Type 0
LangText [] = ⊥
LangText (c ∷ l) = All (λ d. at_byte alpha d ≡ takes) (c ∷ l)

-- A label whose bytes each are characters of a label, the first one of a first.
abbrev pub LabelText : Text → Type 0
LabelText [] = ⊥
LabelText (c ∷ l) = (at_byte label_start c ≡ takes) × All (λ d. at_byte label_char d ≡ takes) l

pub quoted-append :
    (a : ℕ) (v : Text) (b : ℕ) (rest : Text) → quoted a v b ++ rest ≡ a ∷ (v ++ b ∷ rest)
quoted-append a v b rest = ap (λ t. a ∷ t) (append_assoc v (b ∷ []) rest)

no_mark-fails : (c : ℕ) → string_byte c ≡ true → at_byte (one (b'"' ∷ [])) c ≡ fails
unfolding look
no_mark-fails c h = ground arith

module _ {S : Type 0} (leaf : Rule Name → Text → Option Text) (w : IsByteWise leaf)
    (act : Name → Option (ActionOn S)) (terms : Terms act) where
  open terms use {get, set}

  abbrev R : Rule Name → Text → S → Outcome S → Type 0
  R = Match body leaf act

  abbrev fail :
      (r : Rule Name) (t : Text) (s : S)
      → look body silent_name fuel r (head t) ≡ fails
      → R r t s (failed s)
  fail r t s h = see leaf w act terms fails r t h s

  iriref_body :
      (u rest : Text) (s : S)
      → IriText u
      → R (body iriref) (b'<' ∷ (u ++ b'>' ∷ rest)) s (matched rest s)
  unfolding look body silent_name
  iriref_body u rest s h = then_on (see leaf w act terms takes _ _ refl s) (
      then_on
        (star_bytes leaf w act terms iri_char u (b'>' ∷ rest) s (map-All u iri_byte-takes h) refl)
        (see leaf w act terms takes _ _ refl s))

  -- `<u>` as IRIREF, and as an iri.
  pub iriref_read :
      (u rest : Text) (s : S) (x b : BasicState false)
      → IriText u
      → apply_iriref (quoted b'<' u b'>') x ≡ ok b
      → R (ref iri) (quoted b'<' u b'>' ++ rest) (set x s) (matched rest (set b s))
  unfolding body silent_name basic_action joining_action
  iriref_read u rest s x b h e = without_action leaf w act terms iri _ _ _ refl (
      or_first (
        with_action leaf w act terms iriref apply_iriref (quoted b'<' u b'>') rest s _ x b refl
          (along leaf w act terms (quoted-append b'<' u b'>' rest) (iriref_body u rest (set x s) h))
          e))

  -- A string in two marks is no long string.
  long_string-fails :
      (v rest : Text) (s : S)
      → StringText v
      → look body silent_name fuel (one (b'"' ∷ [])) (head rest) ≡ fails
      → R (body string_literal_long_quote) (b'"' ∷ (v ++ b'"' ∷ rest)) s (failed s)
  unfolding look body silent_name
  long_string-fails [] rest s h e =
      then_on (see leaf w act terms takes _ _ refl s)
        (then_on (see leaf w act terms takes _ _ refl s) (then_failed (fail _ rest s e)))
  long_string-fails (c ∷ v) rest s h e =
      then_on (see leaf w act terms takes _ _ refl s)
        (then_failed (fail _ (c ∷ (v ++ b'"' ∷ rest)) s (no_mark-fails c h.0)))

  short_string_body :
      (v rest : Text) (s : S)
      → StringText v
      → R (body string_literal_quote) (b'"' ∷ (v ++ b'"' ∷ rest)) s (matched rest s)
  unfolding look body silent_name
  short_string_body v rest s h = then_on (see leaf w act terms takes _ _ refl s) (
      then_on
        (star_bytes leaf w act terms string_char v (b'"' ∷ rest) s (map-All v string_byte-takes h)
          refl)
        (see leaf w act terms takes _ _ refl s))

  string_body :
      (v rest : Text) (s : S)
      → StringText v
      → look body silent_name fuel (one (b'"' ∷ [])) (head rest) ≡ fails
      → R (body turtle_string) (b'"' ∷ (v ++ b'"' ∷ rest)) s (matched rest s)
  unfolding look body silent_name basic_action joining_action
  string_body v rest s h e =
      or_second
        (without_action leaf w act terms string_literal_long_quote _ _ _ refl
          (long_string-fails v rest s h e))
        (or_second (fail (ref string_literal_long_single_quote) _ s refl) (
          or_second (fail (ref string_literal_single_quote) _ s refl) (
            without_action leaf w act terms string_literal_quote _ _ _ refl
              (short_string_body v rest s h))))

  -- `"v"`
  pub string_read :
      (v rest : Text) (s : S) (x b : BasicState false)
      → StringText v
      → look body silent_name fuel (one (b'"' ∷ [])) (head rest) ≡ fails
      → apply_turtle_string (quoted b'"' v b'"') x ≡ ok b
      → R (ref turtle_string) (quoted b'"' v b'"' ++ rest) (set x s) (matched rest (set b s))
  unfolding basic_action
  string_read v rest s x b h e p =
      with_action leaf w act terms turtle_string apply_turtle_string (quoted b'"' v b'"') rest s _ x
        b refl
        (along leaf w act terms (quoted-append b'"' v b'"' rest) (string_body v rest (set x s) h e))
        p

  -- `@l`
  pub langtag_read :
      (l rest : Text) (s : S) (x b : BasicState false)
      → LangText l
      → Ended rest
      → apply_langtag (b'@' ∷ l) x ≡ ok b
      → R (ref langtag) ((b'@' ∷ l) ++ rest) (set x s) (matched rest (set b s))
  unfolding look body silent_name basic_action
  langtag_read [] rest s x b h e p = absurd h
  langtag_read (c ∷ l) rest s x b h e p =
      with_action leaf w act terms langtag apply_langtag (b'@' ∷ c ∷ l) rest s _ x b refl
        (then_on (see leaf w act terms takes _ _ refl (set x s)) (
          then_on
            (at_plus (
              then_on (see leaf w act terms takes alpha _ h.0 (set x s)) (
                star_bytes leaf w act terms alpha l rest (set x s) h.1
                  (stops alpha rest refl refl e))))
            (star_end
              (fail _ rest (set x s) (stops (one (codes "-") then plus alnum) rest refl refl e)))))
        p

  -- `^^<t>`
  pub type_tag_read :
      (t rest : Text) (s : S) (x y b : BasicState false)
      → IriText t
      → apply_iriref (quoted b'<' t b'>') x ≡ ok y
      → apply_rdf_literal_type_tag (b'^' ∷ b'^' ∷ quoted b'<' t b'>') y ≡ ok b
      → R
          (ref rdf_literal_type_tag)
          ((b'^' ∷ b'^' ∷ quoted b'<' t b'>') ++ rest)
          (set x s)
          (matched rest (set b s))
  unfolding body basic_action
  type_tag_read t rest s x y b h e p =
      with_action leaf w act terms rdf_literal_type_tag apply_rdf_literal_type_tag
        (b'^' ∷ b'^' ∷ quoted b'<' t b'>') rest s _ y b refl
        (then_on
          (leaf_match body silent_name leaf w act (terms.silent) (str (codes "^^")) _ (set x s)
            (some (quoted b'<' t b'>' ++ rest)) refl (w.reads (codes "^^") _))
          (iriref_read t rest s x y h e))
        p

  -- `_:l`
  pub blank_label_read :
      (l rest : Text) (s : S) (x b : BasicState false)
      → LabelText l
      → Ended rest
      → apply_blank_node_label (b'_' ∷ b':' ∷ l) x ≡ ok b
      → R (ref blank_node_label) ((b'_' ∷ b':' ∷ l) ++ rest) (set x s) (matched rest (set b s))
  unfolding look body silent_name basic_action
  blank_label_read [] rest s x b h e p = absurd h
  blank_label_read (c ∷ l) rest s x b h e p =
      with_action leaf w act terms blank_node_label apply_blank_node_label (b'_' ∷ b':' ∷ c ∷ l)
        rest s _ x b refl
        (then_on (see leaf w act terms takes _ _ refl (set x s)) (
          then_on (see leaf w act terms takes _ _ refl (set x s)) (
            then_on (see leaf w act terms takes label_start _ h.0 (set x s)) (
              star_bytes leaf w act terms label_char l rest (set x s) h.1
                (stops label_char rest refl refl e)))))
        p
