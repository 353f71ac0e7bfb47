-- ===== src/States/Machine/Steps.antt =====
-- State.hpp: what the events of objects and of verbs do to a state, and how the parts of such a
-- sequence join.
use mathlib.Core.Path.{ap₂}
use rdf_parser.Base.{
  ℕ, ◌+◌, ◌≤◌, ◌<◌, ◌≡◌, ◌⊎◌, inl, inr, refl, ap, ◌∙◌, Bool, List, [], ◌∷◌, ◌++◌, some, arith,
  length, append-nil, append_assoc,
}
use rdf_parser.States.Element.{Element, TripleOf, blank_element}
use rdf_parser.States.Machine.{
  Derived, State, with_verb, with_subject, push_current_term_into_bnpl_collection_list,
  move_bnpl_collection_list_into_stack, set_machine_element, process_verb,
}
use rdf_parser.States.Machine.Events.{Event, take_anon, perform, run}
use rdf_parser.States.Basic.{next_int}
use rdf_parser.States.Machine.Syntax.{fresh, fresh_label, cells}
use rdf_parser.States.Machine.Effects.{
  insert_all, insert_all-append, opened, process_verb_lem, process_collection_lem,
  property_list_root, property_list_open, inner_lem,
}

module _ {q : Bool} {D : Type 0} (k : Derived q D) where
  -- Either no verb is open and no pair is pending; or a verb is, and where `n` property lists are
  -- still to come, there are none, or there is one and no verb has been read behind the open one.
  abbrev pub Ready : State q D → ℕ → Type 0
  Ready s n =
      ((s.verb_stack ≡ []) × (s.verb_object_pair_list ≡ []) × (s.verb_object_pair_list_stack ≡ []))
      ⊎ ((0 < length s.verb_stack)
          × (length s.verb_stack ≤ s.verb_stack_one_step_pre_size + 1)
          × ((n ≡ 0) ⊎ ((n ≡ 1) × (length s.verb_stack ≡ s.verb_stack_one_step_pre_size + 1))))

  -- What the events of objects do: append to the list, insert triples, take labels.
  pub record Effect (s s' : State q D) (lists : ℕ) (es : List (Element q)) (ts : List (TripleOf q))
      (n : ℕ) : Type 0 where
    pub verbs : s'.verb_stack ≡ s.verb_stack
    pub subject : s'.subject_ ≡ s.subject_
    pub list : s'.bnpl_collection_list ≡ s.bnpl_collection_list ++ es
    pub list_stack : s'.bnpl_collection_list_stack ≡ s.bnpl_collection_list_stack
    pub pairs : s'.verb_object_pair_list ≡ s.verb_object_pair_list
    pub pair_stack : s'.verb_object_pair_list_stack ≡ s.verb_object_pair_list_stack
    pub label : s'.basic.latest_bn_label ≡ n
    pub out : s'.derived ≡ insert_all k ts s.derived
    pub late :
        length s.verb_stack ≤ s.verb_stack_one_step_pre_size + 1
        → length s.verb_stack ≤ s'.verb_stack_one_step_pre_size + 1
    pub still : lists ≡ 0 → s'.verb_stack_one_step_pre_size ≡ s.verb_stack_one_step_pre_size
    pub first_list : 0 < length s.verb_stack → s'.first_bnpl ≡ s.first_bnpl

  -- What the events of verbs do: append to the pairs of the list that the first of them opens.
  pub record PairEffect (s s' : State q D) (ps : List (Element q × Element q))
      (ts : List (TripleOf q)) (n : ℕ) : Type 0 where
    pub verbs : s'.verb_stack ≡ s.verb_stack
    pub subject : s'.subject_ ≡ s.subject_
    pub list : s'.bnpl_collection_list ≡ []
    pub list_stack : s'.bnpl_collection_list_stack ≡ s.bnpl_collection_list_stack
    pub pairs : s'.verb_object_pair_list ≡ (opened k s).verb_object_pair_list ++ ps
    pub pair_stack : s'.verb_object_pair_list_stack ≡ (opened k s).verb_object_pair_list_stack
    pub label : s'.basic.latest_bn_label ≡ n
    pub out : s'.derived ≡ insert_all k ts s.derived
    pub later : length s.verb_stack ≤ s'.verb_stack_one_step_pre_size
    pub first_list : s'.first_bnpl ≡ s.first_bnpl

  -- One object, then its action.
  pub pushed-Effect :
      (s t : State q D) (lists : ℕ) (e : Element q) (ts : List (TripleOf q)) (n : ℕ)
      → t.basic.element ≡ e
      → Effect s t lists [] ts n
      → Effect s (push_current_term_into_bnpl_collection_list k t) lists (e ∷ []) ts n
  unfolding push_current_term_into_bnpl_collection_list
  pushed-Effect s t lists e ts n h f =
      ground (arith, append_assoc s.bnpl_collection_list [] (e ∷ []))

  -- Effects one after the other.
  pub then-Effect :
      (s t u : State q D) (m n : ℕ) (es fs : List (Element q)) (ts us : List (TripleOf q)) (i j : ℕ)
      → Effect s t m es ts i
      → Effect t u n fs us j
      → Effect s u (m + n) (es ++ fs) (ts ++ us) j
  then-Effect s t u m n es fs ts us i j f g =
      ground (arith, append_assoc s.bnpl_collection_list es fs, insert_all-append k ts us s.derived)

  pub Ready-then :
      (s t : State q D) (m n : ℕ) (ts : List (TripleOf q)) (i : ℕ)
      → Ready s (m + n)
      → Effect s t m [] ts i
      → Ready t n
  Ready-then s t m n ts i r f = ground arith

  pub Ready-first : (s : State q D) (m n : ℕ) → Ready s (m + n) → Ready s m
  Ready-first s m n r = ground arith

  -- From `(` to `)`.
  pub collection_step :
      (s t : State q D) (n : ℕ) (es : List (Element q)) (ts : List (TripleOf q)) (i : ℕ)
      → Effect (move_bnpl_collection_list_into_stack k s) t n es ts i
      → (u : State q D) × (perform k Event.collection t ≡ some u)
        × (u.basic.element ≡ (cells q es i).0)
        × Effect s u n [] (ts ++ (cells q es i).1) (cells q es i).2
  unfolding perform move_bnpl_collection_list_into_stack
  collection_step s t n es ts i f = (
    _,
    process_collection_lem k t s.bnpl_collection_list s.bnpl_collection_list_stack f.list_stack,
    ap₂ (λ l n. (cells q l n).0) f.list f.label,
    ground (
      arith,
      insert_all-append k ts (cells q es i).1 s.derived,
      append-nil s.bnpl_collection_list,
    ),
  )

  -- From `[` to `]` where no verb is open, and under an open verb.
  pub root_list_step :
      (s t : State q D) (ps : List (Element q × Element q)) (ts : List (TripleOf q)) (i : ℕ)
      → s.verb_stack ≡ []
      → s.verb_object_pair_list ≡ []
      → s.verb_object_pair_list_stack ≡ []
      → PairEffect (move_bnpl_collection_list_into_stack k s) t ps ts i
      → (u : State q D) × (perform k Event.property_list t ≡ some u)
        × (u.basic.element ≡ fresh q i)
        × Effect s u 1 [] (ts ++ with_subject (fresh q i) ps) (next_int i)
        × (u.first_bnpl ≡ fresh q i)
  unfolding perform move_bnpl_collection_list_into_stack
  root_list_step s t ps ts i v p st f = (
    _,
    property_list_root k t s.bnpl_collection_list s.bnpl_collection_list_stack f.list_stack
        (ground arith),
    ap (fresh q) f.label,
    ground (
      arith,
      insert_all-append k ts (with_subject (fresh q i) ps) s.derived,
      append-nil s.bnpl_collection_list,
    ),
    ap (fresh q) f.label,
  )

  open_list_step :
      (s t : State q D) (ps : List (Element q × Element q)) (ts : List (TripleOf q)) (i : ℕ)
      → 0 < length s.verb_stack
      → length s.verb_stack ≡ s.verb_stack_one_step_pre_size + 1
      → PairEffect (move_bnpl_collection_list_into_stack k s) t ps ts i
      → (u : State q D) × (perform k Event.property_list t ≡ some u)
        × (u.basic.element ≡ fresh q i)
        × Effect s u 1 [] (ts ++ with_subject (fresh q i) ps) (next_int i)
  unfolding perform move_bnpl_collection_list_into_stack
  open_list_step s t ps ts i v p f = (
    _,
    property_list_open k t s.bnpl_collection_list s.bnpl_collection_list_stack
        s.verb_object_pair_list s.verb_object_pair_list_stack f.list_stack (ground arith),
    ap (fresh q) f.label,
    ground (
      arith,
      insert_all-append k ts (with_subject (fresh q i) ps) s.derived,
      append-nil s.bnpl_collection_list,
    ),
  )

  -- What a verb leaves behind, and from it the events of its objects.
  pub record VerbRead (s t : State q D) (v : Element q) : Type 0 where
    pub verbs : t.verb_stack ≡ v ∷ s.verb_stack
    pub one_step : t.verb_stack_one_step_pre_size ≡ length s.verb_stack
    pub subject : t.subject_ ≡ s.subject_
    pub list : t.bnpl_collection_list ≡ s.bnpl_collection_list
    pub list_stack : t.bnpl_collection_list_stack ≡ s.bnpl_collection_list_stack
    pub pairs : t.verb_object_pair_list ≡ (opened k s).verb_object_pair_list
    pub pair_stack : t.verb_object_pair_list_stack ≡ (opened k s).verb_object_pair_list_stack
    pub label : t.basic.latest_bn_label ≡ s.basic.latest_bn_label
    pub out : t.derived ≡ s.derived
    pub first_list : t.first_bnpl ≡ s.first_bnpl

  pub verb_step :
      (s : State q D) (v : Element q) → VerbRead s (process_verb k (set_machine_element k v s)) v
  verb_step s v = rw (process_verb_lem k (set_machine_element k v s)) (ground arith)

  pub Ready-verb : (s t : State q D) (v : Element q) (n : ℕ) → VerbRead s t v → n ≤ 1 → Ready t n
  Ready-verb s t v n r h = ground arith

  pub inner_step :
      (s r t : State q D) (v : Element q) (n : ℕ) (es : List (Element q)) (ts : List (TripleOf q))
      (i : ℕ)
      → s.bnpl_collection_list ≡ []
      → VerbRead s r v
      → Effect r t n es ts i
      → (u : State q D) × (perform k Event.inner t ≡ some u) × PairEffect s u (with_verb v es) ts i
  unfolding perform
  inner_step s r t v n es ts i e read f =
      (_, inner_lem k t v s.verb_stack (f.verbs ∙ read.verbs), ground arith)

  -- The verbs behind the first of a list belong to the same list of pairs.
  pub then-PairEffect :
      (s t u : State q D) (ps qs : List (Element q × Element q)) (ts us : List (TripleOf q))
      (i j : ℕ)
      → PairEffect s t ps ts i
      → PairEffect t u qs us j
      → PairEffect s u (ps ++ qs) (ts ++ us) j
  then-PairEffect s t u ps qs ts us i j f g = ground (
    arith,
    append_assoc (opened k s).verb_object_pair_list ps qs,
    insert_all-append k ts us s.derived,
  )

  pub list_step :
      (s t : State q D) (ps : List (Element q × Element q)) (ts : List (TripleOf q)) (i : ℕ)
      → Ready s 1
      → PairEffect (move_bnpl_collection_list_into_stack k s) t ps ts i
      → (u : State q D) × (perform k Event.property_list t ≡ some u)
        × (u.basic.element ≡ fresh q i)
        × Effect s u 1 [] (ts ++ with_subject (fresh q i) ps) (next_int i)
  list_step s t ps ts i (inl (v, p, st)) f =
      let (u, g, e, f', b) = root_list_step s t ps ts i v p st f in (u, g, e, f')
  list_step s t ps ts i (inr (v, a, b)) f = open_list_step s t ps ts i v (ground arith) f

  pub term_Effect :
      (s : State q D) (e : Element q) (n : ℕ)
      → s.basic.latest_bn_label ≡ n
      → Effect s (set_machine_element k e s) 0 [] [] n
  term_Effect s e n l = ground (arith, append-nil s.bnpl_collection_list)

  pub end_Effect : (s : State q D) (n : ℕ) → s.basic.latest_bn_label ≡ n → Effect s s 0 [] [] n
  end_Effect s n l = ground (arith, append-nil s.bnpl_collection_list)

  pub anon_run :
      (s : State q D) (n : ℕ)
      → s.basic.latest_bn_label ≡ n
      → (t : State q D) × (run k (Event.anon ∷ []) s ≡ some t)
        × (t.basic.element ≡ blank_element q (fresh_label n))
        × Effect s t 0 [] [] (next_int n)
  unfolding run take_anon
  anon_run s n l = (
    _,
    refl,
    ap (λ m. blank_element q (fresh_label m)) l,
    ground (arith, append-nil s.bnpl_collection_list),
  )

  pub push_step :
      (t : State q D)
      → perform k Event.object t ≡ some (push_current_term_into_bnpl_collection_list k t)
  unfolding perform
  push_step t = refl
