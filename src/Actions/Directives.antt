-- ===== src/Actions/Directives.antt =====
-- BasicActions.hpp: the directives. Their actions cut the matched text at spaces.
use mathlib.Core.List.{cons-ne-nil, concat-ne-nil}
use rdf_parser.Base.{
  ℕ, ◌≡◌, ◌≢◌, refl, ap, Bool, false, [], ◌∷◌, ◌++◌, none, some, arith, All-append, length,
  take-length_append, append-nil, append_assoc, length-append, Text, codes, is_space, erase_at,
  size_sub, ok, text_eq, text_eq_refl, if◌then◌else◌,
}
use rdf_parser.States.Basic.{BasicState, add_prefix, get_prefix_value, set_base}
use rdf_parser.States.Basic.Prefixes.{or_else, get_prefix_value-add_prefix}
use rdf_parser.Actions.{
  apply_base, apply_sparql_base, apply_prefix_id, apply_sparql_prefix, erase_ends,
}
use rdf_parser.Actions.Words.{
  NoSpace, AllSpace, Ends, Ends-gap, read_word-behind, drop-behind, quoted,
}

last_index : (s : Text) (c : ℕ) → size_sub (length (s ++ c ∷ [])) 1 ≡ length s
last_index s c = ground (arith, length-append s (c ∷ []))

-- Erasing the last byte, and both ends.
erase-last :
    (s : Text) (c : ℕ) → erase_at (s ++ c ∷ []) (size_sub (length (s ++ c ∷ [])) 1) 1 ≡ ok s
unfolding erase_at
erase-last s c = rw (last_index s c) (
    ground (
      arith,
      length-append s (c ∷ []),
      take-length_append s (c ∷ []),
      drop-behind s [] c,
      append-nil s,
    ))

erase-first : (a : ℕ) (t : Text) → erase_at (a ∷ t) 0 1 ≡ ok t
unfolding erase_at
erase-first a t = ground arith

erase_ends-quoted : (a : ℕ) (s : Text) (b : ℕ) → erase_ends (quoted a s b) ≡ ok s
unfolding erase_ends
erase_ends-quoted a s b = rw (erase-first a (s ++ b ∷ [])) (erase-last s b)

-- The texts of the directives: a keyword, a prefix with its colon, an IRI, and gaps between them.
-- `last` closes the word that holds the IRI.
abbrev pub base_text : Text → Text → Text → ℕ → Text → Text
base_text keyword gap v last rest = keyword ++ (gap ++ (quoted b'<' v last ++ rest))

abbrev pub prefix_text : Text → Text → Text → Text → Text → ℕ → Text → Text
prefix_text keyword gap p gap' v last rest =
    keyword ++ (gap ++ ((p ++ b':' ∷ []) ++ (gap' ++ (quoted b'<' v last ++ rest))))

-- What the words of these texts have in common.
pub record AreWords (keyword gap v : Text) (last : ℕ) (rest : Text) : Type 0 where
  pub keyword_word : NoSpace keyword
  pub keyword_ne_nil : keyword ≢ []
  pub gap_space : AllSpace gap
  pub gap_ne_nil : gap ≢ []
  pub iri_word : NoSpace v
  pub last_word : is_space last ≡ false
  pub rest_ends : Ends rest

quoted-NoSpace :
    (v : Text) (last : ℕ) → NoSpace v → is_space last ≡ false → NoSpace (quoted b'<' v last)
quoted-NoSpace v last h e = (refl, All-append _ v (last ∷ []) h (e, tt))

name-NoSpace : (p : Text) → NoSpace p → NoSpace (p ++ b':' ∷ [])
name-NoSpace p h = All-append _ p (b':' ∷ []) h (refl, tt)

module _ {q : Bool} (keyword gap v : Text) (last : ℕ) (rest : Text)
    (w : AreWords keyword gap v last rest) (s : BasicState q) where
  -- `@base <u> .` and `BASE <u>` with a gap before the IRI and, if anything follows it, a gap behind
  -- it: both actions set the base to what stands between the first byte of that word and its last.
  pub base_directive :
      (apply_base (base_text keyword gap v last rest) s ≡ ok (set_base v s))
      × (apply_sparql_base (base_text keyword gap v last rest) s ≡ ok (set_base v s))
  unfolding apply_base apply_sparql_base
  base_directive =
      let first_word =
        read_word-behind [] keyword (gap ++ (quoted b'<' v last ++ rest)) tt w.keyword_word
          w.keyword_ne_nil (Ends-gap gap _ w.gap_space w.gap_ne_nil) in
      let second_word =
        read_word-behind gap (quoted b'<' v last) rest w.gap_space
          (quoted-NoSpace v last w.iri_word w.last_word) (cons-ne-nil _ _) w.rest_ends in
      (
        rw (first_word, second_word, erase_ends-quoted b'<' v last),
        rw (first_word, second_word, erase_ends-quoted b'<' v last),
      )

  module _ (p gap' : Text) (p_word : NoSpace p) (gap'_space : AllSpace gap')
      (gap'_ne_nil : gap' ≢ []) where
    prefix_words :
        (apply_prefix_id (prefix_text keyword gap p gap' v last rest) s ≡ ok (add_prefix p v s))
        × (apply_sparql_prefix (prefix_text keyword gap p gap' v last rest) s
            ≡ ok (add_prefix p v s))
    unfolding apply_prefix_id apply_sparql_prefix
    prefix_words =
        let first_word =
          read_word-behind [] keyword
            (gap ++ ((p ++ b':' ∷ []) ++ (gap' ++ (quoted b'<' v last ++ rest)))) tt w.keyword_word
            w.keyword_ne_nil (Ends-gap gap _ w.gap_space w.gap_ne_nil) in
        let second_word =
          read_word-behind gap (p ++ b':' ∷ []) (gap' ++ (quoted b'<' v last ++ rest)) w.gap_space
            (name-NoSpace p p_word) (concat-ne-nil b':' p)
            (Ends-gap gap' _ gap'_space gap'_ne_nil) in
        let third_word =
          read_word-behind gap' (quoted b'<' v last) rest gap'_space
            (quoted-NoSpace v last w.iri_word w.last_word) (cons-ne-nil _ _) w.rest_ends in
        (
          rw (
            first_word,
            second_word,
            erase-last p b':',
            third_word,
            erase_ends-quoted b'<' v last,
          ),
          rw (
            first_word,
            second_word,
            erase-last p b':',
            third_word,
            erase_ends-quoted b'<' v last,
          ),
        )

    -- `@prefix p: <v> .` and `PREFIX p: <v>` with gaps where words end, v being what stands between
    -- the first byte of the IRI's word and its last: both actions succeed. Then p has the value that
    -- it had before, if it had one, and else the value v; every other prefix keeps what it had.
    pub prefix_directive :
        (j : Text)
        → (t : BasicState q) × (apply_prefix_id (prefix_text keyword gap p gap' v last rest) s
            ≡ ok t)
          × (apply_sparql_prefix (prefix_text keyword gap p gap' v last rest) s ≡ ok t)
          × (get_prefix_value j t
              ≡ (if text_eq p j then or_else (get_prefix_value j s) v else get_prefix_value j s))
    prefix_directive j =
        (add_prefix p v s, prefix_words.0, prefix_words.1, get_prefix_value-add_prefix p j v s)

-- `@prefix p: <u>.`, where the dot follows the IRI with no gap, in a state that does not know p: the
-- action succeeds, and the value of p is u with the closing bracket behind it, which is not u.
pub prefix_directive_glued :
    {q : Bool} (keyword gap p gap' u : Text) (s : BasicState q)
    → AreWords keyword gap (u ++ b'>' ∷ []) b'.' []
    → NoSpace p
    → AllSpace gap'
    → gap' ≢ []
    → get_prefix_value p s ≡ none
    → (t : BasicState q) × (apply_prefix_id
          (keyword ++ (gap ++ ((p ++ b':' ∷ []) ++ (gap' ++ (b'<' ∷ (u ++ codes ">."))))))
          s
        ≡ ok t)
      × (get_prefix_value p t ≡ some (u ++ b'>' ∷ []))
      × (u ++ b'>' ∷ [] ≢ u)
prefix_directive_glued keyword gap p gap' u s w h g n e =
    let (t, a, _, r) = prefix_directive keyword gap (u ++ b'>' ∷ []) b'.' [] w s p gap' h g n p in
    (
      t,
      rw (glued u) at a,
      rw (text_eq_refl p, e) at r,
      λ same. absurd (omega (arith, ap length same, length-append u (b'>' ∷ []))),
    )
  where
    glued : (u : Text) → quoted b'<' (u ++ b'>' ∷ []) b'.' ++ [] ≡ b'<' ∷ (u ++ codes ">.")
    glued u = simp (append-nil, append_assoc)
