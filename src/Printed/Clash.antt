-- ===== src/Printed/Clash.antt =====
-- BasicState.hpp, createBlankNodeLabel: a label that is made, in a document that writes it too.
use mathlib.Core.Path.{subst}
use rdf_parser.Base.{
  ℕ, zero, suc, ◌+◌, ◌-◌, ◌%◌, ◌^◌, ◌<◌, ◌≡◌, refl, sym, ◌∙◌, Bool-cases, inl, inr, false, [], ◌++◌,
  Option, All, All-append, append-nil, Text, codes, arith, ltb, ◌/◌,
}
use rdf_parser.Rdf.Term.{bnode}
use rdf_parser.Rdf.Term.Equality.{blank, represent}
use rdf_parser.Grammar.Rule.{Rule, ref}
use rdf_parser.Grammar.Names
use rdf_parser.Grammar.Names.{Name}
use rdf_parser.Grammar.Body.{body}
use rdf_parser.Grammar.Bytes.{IsByteWise}
use rdf_parser.Grammar.Match.{matched, Match}
use rdf_parser.Grammar.Look.{takes, look}
use rdf_parser.States.Element.{blank_element}
use rdf_parser.States.Basic.{create_blank_node_label, decimal_digits, print_int}
use rdf_parser.States.Machine.{Derived, State, set_machine_element}
use rdf_parser.States.Machine.Events.{take_anon}
use rdf_parser.Actions.Table.{action}
use rdf_parser.Printed.Steps.{silent_name}
use rdf_parser.Printed.Bytes.{at_byte, label_char}
use rdf_parser.Printed.Like.{Like}
use rdf_parser.Printed.Leaves.{blank_Reads, anon_Reads}

abbrev IsLabelByte : ℕ → Type 0
IsLabelByte c = at_byte label_char c ≡ takes

digit-IsLabelByte : (r : ℕ) → r < 10 → IsLabelByte (48 + r)
unfolding look body silent_name
digit-IsLabelByte zero h = refl
digit-IsLabelByte (suc zero) h = refl
digit-IsLabelByte (suc (suc zero)) h = refl
digit-IsLabelByte (suc (suc (suc zero))) h = refl
digit-IsLabelByte (suc (suc (suc (suc zero)))) h = refl
digit-IsLabelByte (suc (suc (suc (suc (suc zero))))) h = refl
digit-IsLabelByte (suc (suc (suc (suc (suc (suc zero)))))) h = refl
digit-IsLabelByte (suc (suc (suc (suc (suc (suc (suc zero))))))) h = refl
digit-IsLabelByte (suc (suc (suc (suc (suc (suc (suc (suc zero)))))))) h = refl
digit-IsLabelByte (suc (suc (suc (suc (suc (suc (suc (suc (suc zero))))))))) h = refl
digit-IsLabelByte (suc (suc (suc (suc (suc (suc (suc (suc (suc (suc r)))))))))) h =
    absurd (omega (arith, h))

digits-IsLabelByte : (f n : ℕ) → All IsLabelByte (decimal_digits f n)
unfolding decimal_digits
digits-IsLabelByte zero n = tt
digits-IsLabelByte (suc f) n = elim (Bool-cases (ltb n 10)) [
  | inl e ↦ rw e (digit-IsLabelByte n (ground arith), tt)
  | inr e ↦ rw e (
      All-append IsLabelByte (decimal_digits f (n / 10)) _ (digits-IsLabelByte f (n / 10))
        (digit-IsLabelByte (n % 10) (omega arith), tt))
]

print_int-IsLabelByte : (n : ℕ) → All IsLabelByte (print_int n)
unfolding print_int look body silent_name
print_int-IsLabelByte n = elim (Bool-cases (ltb n (2 ^ 31))) [
  | inl e ↦ rw e (digits-IsLabelByte _ n)
  | inr e ↦ rw e (refl, digits-IsLabelByte _ (2 ^ 32 - n))
]

module _ {D : Type 0} (k : Derived false D) (leaf : Rule Name → Text → Option Text)
    (w : IsByteWise leaf) where
  -- In every state between two terms, with no base, there is a label that the grammar reads as a
  -- blank node, and `[]`, read next, gives the same element: the labels made are not kept apart from
  -- those that a document writes.
  pub written_label-clash :
      (s : State false D)
      → Like s.basic s.basic
      → (l : Text) × (t : State false D) × (u : State false D) × Match body leaf
          (action k)
          (ref Names.blank_node)
          (codes "_:" ++ l)
          s
          (matched [] t)
        × Match body leaf (action k) (ref Names.blank_node) (codes "[]") t (matched [] u)
        × (t.basic.element ≡ u.basic.element)
  unfolding look body silent_name represent bnode create_blank_node_label take_anon blank_element
  written_label-clash s like =
      let l = (create_blank_node_label s.basic).0 in
      let e = represent (blank l) in
      let (b, x, m) =
        blank_Reads k leaf w e [] s s.basic l refl
          (refl, print_int-IsLabelByte s.basic.latest_bn_label) tt like in
      let (c, y, m') = anon_Reads k leaf w [] (set_machine_element k e s) b x in
      (
        l,
        record s { basic = b },
        record s { basic = c },
        subst
            (λ t.
              Match body leaf (action k) (ref Names.blank_node) t s
                (matched [] (record s { basic = b })))
            (append-nil (codes "_:" ++ l)) m,
        m',
        x.element ∙ sym y.element,
      )
