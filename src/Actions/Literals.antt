-- ===== src/Actions/Literals.antt =====
-- BasicActions.hpp: literals. The actions on the parts of a literal leave the parts in the state, and
-- the action on the whole puts them together.
use Prim.Native.Nat.add
use rdf_parser.Base.{
  ℕ, ◌≤◌, ◌<◌, ◌^◌, ◌≡◌, ◌≢◌, refl, sym, ap, ◌∙◌, append_assoc, Bool, true, false, [], ◌∷◌, ◌++◌,
  none, some, arith, All, length, length-append, take-length_append, Text, codes, size_sub, substr,
  substr_from, substr-strip, Result, ok, ◌>>=◌,
}
use rdf_parser.Rdf.Term.{Term, literal, value}
use rdf_parser.Rdf.Term.Views.{literal_views}
use rdf_parser.States.Element.{of_term}
use rdf_parser.States.Basic.{
  BasicState, get_prefix_value, set_literal_string, set_element, set_lan_tag, set_lang_tag_found,
  set_type_tag, set_type_tag_found,
}
use rdf_parser.Actions.{
  apply_turtle_string, apply_langtag, apply_iriref, apply_prefixed_name, apply_rdf_literal_type_tag,
  apply_rdf_literal, set_typed_literal, set_lang_literal, resolve_type_tag, expand, tag_of,
}
use rdf_parser.Actions.Names.{with_iri, apply_iriref_lem, apply_prefixed_name_lem}
use rdf_parser.Actions.Words.{NoSpace, find_from-append, substr-prefix, substr-local, quoted}

-- The tag of a full IRI, and of a prefixed name.
tag_of-full : (t : Text) → tag_of true (b'^' ∷ b'^' ∷ quoted b'<' t b'>') ≡ ok t
unfolding tag_of substr
tag_of-full t = ground (arith, length-append t (b'>' ∷ []), take-length_append t (b'>' ∷ []))

tag_of-name : (t : Text) → tag_of false (b'^' ∷ b'^' ∷ t) ≡ ok t
unfolding tag_of substr_from
tag_of-name t = ground arith

module _ {q : Bool} where
  -- The actions of the rule RdfLiteral in its four forms, in the order in which its parts match.
  unfoldable pub read_plain : Text → BasicState q → Result (BasicState q)
  read_plain v s = do
    s₁ ← apply_turtle_string (quoted b'"' v b'"') s
    apply_rdf_literal (quoted b'"' v b'"') s₁

  unfoldable pub read_lang : Text → Text → BasicState q → Result (BasicState q)
  read_lang v l s = do
    s₁ ← apply_turtle_string (quoted b'"' v b'"') s
    s₂ ← apply_langtag (b'@' ∷ l) s₁
    apply_rdf_literal (quoted b'"' v b'"' ++ b'@' ∷ l) s₂

  unfoldable pub read_typed : Text → Text → BasicState q → Result (BasicState q)
  read_typed v t s = do
    s₁ ← apply_turtle_string (quoted b'"' v b'"') s
    s₂ ← apply_iriref (quoted b'<' t b'>') s₁
    s₃ ← apply_rdf_literal_type_tag (b'^' ∷ b'^' ∷ quoted b'<' t b'>') s₂
    apply_rdf_literal (quoted b'"' v b'"' ++ b'^' ∷ b'^' ∷ quoted b'<' t b'>') s₃

  unfoldable pub read_typed_name : Text → Text → Text → BasicState q → Result (BasicState q)
  read_typed_name v p local s = do
    s₁ ← apply_turtle_string (quoted b'"' v b'"') s
    s₂ ← apply_prefixed_name (p ++ b':' ∷ local) s₁
    s₃ ← apply_rdf_literal_type_tag (b'^' ∷ b'^' ∷ (p ++ b':' ∷ local)) s₂
    apply_rdf_literal (quoted b'"' v b'"' ++ b'^' ∷ b'^' ∷ (p ++ b':' ∷ local)) s₃

  -- Between two literals no tag is found.
  pub record NoTag (s : BasicState q) : Type 0 where
    pub no_type : s.type_tag_found ≡ false
    pub no_lang : s.lang_tag_found ≡ false

  -- What a literal leaves: its element, no tag, and the rest of the state that later terms read.
  pub record Reads (s t : BasicState q) (e : Term) : Type 0 where
    pub element : t.element ≡ of_term q e
    pub no_tag : NoTag t
    pub base : t.base ≡ s.base
    pub prefixes : t.prefix_map ≡ s.prefix_map
    pub label : t.latest_bn_label ≡ s.latest_bn_label

  apply_turtle_string_lem :
      (a : ℕ) (v : Text) (b : ℕ) (s : BasicState q)
      → apply_turtle_string (quoted a v b) s ≡ ok (set_literal_string v s)
  unfolding apply_turtle_string
  apply_turtle_string_lem a v b s = rw (two_less v, substr-strip a b v)
    where
      two_less :
          (v : Text)
          → size_sub (size_sub (length (quoted a v b)) 1) 1 ≡ size_sub (length (quoted a v b)) 2
      two_less v = ground arith

  -- The actions succeed and leave the literal.
  abbrev pub Gives : Result (BasicState q) → BasicState q → Term → Type 0
  Gives r s e = (t : BasicState q) × (r ≡ ok t) × Reads s t e

  pub read_plain-Gives :
      (v : Text) (s : BasicState q) → NoTag s → Gives (read_plain v s) s (literal v none none)
  unfolding read_plain apply_rdf_literal
  read_plain-Gives v s n = (
    set_element (of_term q (literal v none none)) (set_literal_string v s),
    rw (apply_turtle_string_lem b'"' v b'"' s, n.no_type, n.no_lang),
    ground arith,
  )

  apply_langtag_lem :
      (l : Text) (s : BasicState q)
      → apply_langtag (b'@' ∷ l) s ≡ ok (set_lan_tag l (set_lang_tag_found true s))
  unfolding apply_langtag substr_from
  apply_langtag_lem l s = ground arith

  pub read_lang-Gives :
      (v l : Text) (s : BasicState q)
      → NoTag s
      → Gives (read_lang v l s) s (literal v (some l) none)
  unfolding read_lang apply_rdf_literal set_lang_literal
  read_lang-Gives v l s n = (
    set_element (of_term q (literal v (some l) none))
        (set_lang_tag_found false (set_lan_tag l (set_literal_string v s))),
    rw (apply_turtle_string_lem b'"' v b'"' s, apply_langtag_lem l, n.no_type),
    ground arith,
  )

  pub read_typed-Gives :
      (v t : Text) (s : BasicState q)
      → NoTag s
      → s.base ≡ []
      → Gives (read_typed v t s) s (literal v none (some t))
  unfolding read_typed apply_rdf_literal apply_rdf_literal_type_tag set_typed_literal
      resolve_type_tag
  read_typed-Gives v t s n b = (
    set_element (of_term q (literal v none (some t))) (
        set_type_tag_found false
          (set_type_tag t (set_type_tag_found true (with_iri true t (set_literal_string v s))))),
    rw (
      apply_turtle_string_lem b'"' v b'"' s,
      apply_iriref_lem t (set_literal_string v s),
      b,
      tag_of-full t,
    ),
    ground arith,
  )

  resolve_named :
      (p local namespace : Text) (s : BasicState q)
      → All (λ c. c ≢ b':') p
      → get_prefix_value p s ≡ some namespace
      → s.type_tag ≡ p ++ b':' ∷ local
      → s.iri_is_iriref ≡ false
      → resolve_type_tag s ≡ ok (namespace ++ local)
  unfolding resolve_type_tag expand
  resolve_named p local namespace s hc d e f = simp (
    f,
    e,
    find_from-append b':' p local 0 hc,
    add.zero (length p),
    substr-prefix p local b':',
    d,
    substr-local p local b':' (length (p ++ b':' ∷ local)) (behind p local),
  )
    where
      behind : (p local : Text) → length local ≤ length (p ++ b':' ∷ local)
      behind p local = omega (arith, length-append p (b':' ∷ local))

  read_typed_name-Gives :
      (v p local namespace : Text) (s : BasicState q)
      → NoTag s
      → NoSpace p
      → NoSpace local
      → All (λ c. c ≢ b':') p
      → length p < 2 ^ 31
      → get_prefix_value p s ≡ some namespace
      → Gives (read_typed_name v p local s) s (literal v none (some (namespace ++ local)))
  unfolding read_typed_name apply_rdf_literal apply_rdf_literal_type_tag set_typed_literal
      get_prefix_value
  read_typed_name-Gives v p local namespace s n hp hl hc h d =
      let tagged =
        set_type_tag (p ++ b':' ∷ local) (
          set_type_tag_found true (with_iri false (namespace ++ local) (set_literal_string v s))) in
      let found = set_type_tag_found false tagged in
      (
        set_element (of_term q (literal v none (some (namespace ++ local)))) found,
        rw (
          apply_turtle_string_lem b'"' v b'"' s,
          apply_prefixed_name_lem p local (set_literal_string v s) hp hl hc h,
          d,
          tag_of-name (p ++ b':' ∷ local),
          resolve_named p local namespace found hc d refl refl,
        ),
        ground arith,
      )

  -- In a state without a base and between two literals, where the prefix p has the value n and p and
  -- the local name hold no space and p no colon: `"v"`, `"v"@l`, `"v"^^<t>` and `"v"^^p:local` leave
  -- the plain literal v, the literal v with the language l, and the literals v with the data types t
  -- and n followed by local. Each leaves the state between two literals again, with the same base,
  -- prefixes and label counter.
  pub literal_forms :
      (v l t p local n : Text) (s : BasicState q)
      → NoTag s
      → s.base ≡ []
      → NoSpace p
      → NoSpace local
      → All (λ c. c ≢ b':') p
      → length p < 2 ^ 31
      → get_prefix_value p s ≡ some n
      → Gives (read_plain v s) s (literal v none none)
        × Gives (read_lang v l s) s (literal v (some l) none)
        × Gives (read_typed v t s) s (literal v none (some t))
        × Gives (read_typed_name v p local s) s (literal v none (some (n ++ local)))
  literal_forms v l t p local n s i b hp hl hc h d = (
    read_plain-Gives v s i,
    read_lang-Gives v l s i,
    read_typed-Gives v t s i b,
    read_typed_name-Gives v p local n s i hp hl hc h d,
  )

  -- A literal in three quotation marks, between two literals: the actions succeed, and the value of
  -- the literal that they leave is the text with two quotation marks on each side, never the text.
  pub long_string_value :
      (v : Text) (s : BasicState q)
      → NoTag s
      → (t : BasicState q) × (e : Term) × ((apply_turtle_string
              (codes "\"\"\"" ++ (v ++ codes "\"\"\""))
              s
            >>= apply_rdf_literal (codes "\"\"\"" ++ (v ++ codes "\"\"\"")))
          ≡ ok t)
        × (t.element ≡ of_term q e)
        × (value e ≡ codes "\"\"" ++ (v ++ codes "\"\""))
        × (value e ≢ v)
  unfolding read_plain
  long_string_value v s n =
      let w = codes "\"\"" ++ (v ++ codes "\"\"") in
      let (t, r, f) = read_plain-Gives w s n in
      let e = (literal_views w none none).0 in
      (
        t,
        literal w none none,
        rw inner_quotes at r,
        f.element,
        e,
        λ same. absurd (omega (arith, ap length (sym e ∙ same), length-append v (codes "\"\""))),
      )
    where
      inner_quotes :
          quoted b'"' (codes "\"\"" ++ (v ++ codes "\"\"")) b'"'
          ≡ codes "\"\"\"" ++ (v ++ codes "\"\"\"")
      inner_quotes = simp append_assoc
