-- ===== src/Program/Ancestor.antt =====
-- `common_ancestor` (src/cool_program.cpp) finds the least common superclass.
use lcool.Base.{
  true, false, Option, none, some, [], ◌∷◌, ◌≡◌, ◌||◌, refl, sym, ap, ◌∙◌, Bytes, equal, subst,
  equal_refl, Bool-cases, Option-cases, inl, inr,
}
use mathlib.Core.Bool.{true≢false}
use lcool.Program.{
  CoolClass, Table, lookup_class, is_subclass_of, common_ancestor, common_ancestor_from,
}
use lcool.Program.Order.{
  Holds, HasParent, IsWellFormed, newer, Below, parent_below, Below-here, Below-there, Below-parent,
  parent_below-some, is_subclass_of-there, is_subclass_of-here, fresh-name, Holds-Below,
  lookup_class-there,
}

-- What the loop asks of the parent.
abbrev parent_from : Table → Option Bytes → Table → Bytes → Option Bytes
parent_from program none older b = none
parent_from program (some p) older b = common_ancestor_from program older p b

from-there :
    (program : Table) (c : CoolClass) (older : Table) (a b : Bytes)
    → equal c.name a ≡ false
    → common_ancestor_from program (c ∷ older) a b ≡ common_ancestor_from program older a b
unfolding common_ancestor_from
from-there program c older a b h = rw (h, common_ancestor_from) refl

from-found :
    (program : Table) (c : CoolClass) (older : Table) (a b : Bytes)
    → equal c.name a ≡ true
    → Below program b a
    → common_ancestor_from program (c ∷ older) a b ≡ some a
unfolding common_ancestor_from
from-found program c older a b h x = rw (h, x, common_ancestor_from) refl

from-parent :
    (program : Table) (c : CoolClass) (older : Table) (a b q : Bytes)
    → equal c.name a ≡ true
    → is_subclass_of program b a ≡ false
    → c.parent ≡ some q
    → common_ancestor_from program (c ∷ older) a b ≡ common_ancestor_from program older q b
unfolding common_ancestor_from
from-parent program c older a b q h x i = rw (h, x, i, common_ancestor_from) refl

-- The least class that is above both, among those of `t`.
pub record Least (program t : Table) (a b d : Bytes) (o : Option Bytes) : Type 0 where
  pub result : Bytes
  pub found : o ≡ some result
  pub above_first : Below t a result
  pub above_second : Below program b result
  pub below_any : Below t result d

Least-further :
    (program : Table) (c : CoolClass) (older : Table) (a b d q : Bytes)
    → (o : Option Bytes) → o ≡ common_ancestor_from program older q b
    → lookup_class c.name older ≡ none
    → ((r : Bytes) → Below older q r → Below (c ∷ older) a r)
    → Least program older q b d (common_ancestor_from program older q b)
    → Least program (c ∷ older) a b d o
Least-further program c older a b d q o e f up l = record {
  result = l.result;
  found = e ∙ l.found;
  above_first = up l.result l.above_first;
  above_second = l.above_second;
  below_any =
      is_subclass_of-there c older l.result d
        (fresh-name c older l.result f (Holds-Below older q l.result l.above_first))
      ∙ l.below_any;
}

common_ancestor_from-Least :
    (program t : Table) (a b d : Bytes)
    → IsWellFormed t
    → Below t a d
    → Below program b d
    → Least program t a b d (common_ancestor_from program t a b)
unfolding is_subclass_of
common_ancestor_from-Least program [] a b d w x y = absurd (true≢false (sym x))
common_ancestor_from-Least program (c ∷ older) a b d (newer f p w) x y =
    elim (Bool-cases (equal c.name a)) [
      | inr e ↦
          Least-further program c older a b d a _ (from-there program c older a b e) f
            (λ r z. is_subclass_of-there c older a r e ∙ z)
            (common_ancestor_from-Least program older a b d w (Below-there c older a d e x) y)
      | inl e ↦ elim (Bool-cases (is_subclass_of program b a)) [
        | inl z ↦ record {
          result = a;
          found = from-found program c older a b e z;
          above_first =
              is_subclass_of-here c older a a e
              ∙ ap (λ v. v || parent_below c.parent older a) (equal_refl a);
          above_second = z;
          below_any = x;
        }
        | inr n ↦ elim (Below-here c older a d e x) [
          | inl s ↦ absurd (true≢false (sym y ∙ ap (is_subclass_of program b) (sym s) ∙ n))
          | inr (ne, h) ↦
              let (q, i, x') = parent_below-some c.parent older d h in
              Least-further program c older a b d q _ (from-parent program c older a b q e n i) f
                (λ r z. Below-parent c older a r q e i z)
                (common_ancestor_from-Least program older q b d w x' y)
        ]
      ]
    ]

-- In a well-formed program, for two classes with a common superclass `d`, `common_ancestor` returns a
-- class that is above both of them and below `d`. Its result does not depend on `d`.
pub common_ancestor-Least :
    (t : Table) (a b d : Bytes)
    → IsWellFormed t
    → Below t a d
    → Below t b d
    → Least t t a b d (common_ancestor t a b)
unfolding common_ancestor
common_ancestor-Least t a b d w x y = common_ancestor_from-Least t t a b d w x y

-- In a well-formed program one class is above all.
has_root : (t : Table) → IsWellFormed t → (d : Bytes) × ((x : Bytes) → Holds t x → Below t x d)
unfolding lookup_class
has_root [] w = ([], λ x h. absurd (h refl))
has_root (c ∷ older) (newer f p w) = elim (Option-cases c.parent) [
  | inl e ↦ (c.name, alone (subst (λ o. HasParent o older) e p))
  | inr (q, e) ↦
      let (d, above) = has_root older w in
      (d, joined q d e above (above q (subst (λ o. HasParent o older) e p)))
]
  where
    alone : older ≡ [] → (x : Bytes) → Holds (c ∷ older) x → Below (c ∷ older) x c.name
    alone s x h = elim (Bool-cases (equal c.name x)) [
      | inl e ↦
          is_subclass_of-here c older x c.name e
          ∙ ap (λ v. v || parent_below c.parent older c.name) e
      | inr e ↦ absurd (h (lookup_class-there c older x e ∙ ap (lookup_class x) s))
    ]

    joined :
        (q d : Bytes)
        → c.parent ≡ some q
        → ((x : Bytes) → Holds older x → Below older x d)
        → Below older q d
        → (x : Bytes) → Holds (c ∷ older) x
        → Below (c ∷ older) x d
    joined q d i above below x h = elim (Bool-cases (equal c.name x)) [
      | inl e ↦ Below-parent c older x d q e i below
      | inr e ↦
          is_subclass_of-there c older x d e ∙ above x (λ n. h (lookup_class-there c older x e ∙ n))
    ]

-- In a well-formed program `common_ancestor` returns a class for any two classes that the program
-- holds: its assertion does not fail.
pub common_ancestor_returns :
    (t : Table) (a b : Bytes)
    → IsWellFormed t
    → Holds t a
    → Holds t b
    → (r : Bytes) × (common_ancestor t a b ≡ some r)
common_ancestor_returns t a b w ha hb =
    let (d, above) = has_root t w in
    let l = common_ancestor-Least t a b d w (above a ha) (above b hb) in (l.result, l.found)
