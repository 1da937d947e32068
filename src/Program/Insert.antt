-- ===== src/Program/Insert.antt =====
-- `insert_class` (src/cool_program.cpp) keeps a program well formed and its older classes as they were.
use lcool.Base.{
  none, some, ◌∷◌, ◌≡◌, ◌⊎◌, refl, sym, ◌∙◌, Bytes, equal_refl, Option-cases, inl, inr,
}
use mathlib.Core.Option.{none-ne-some}
use lcool.Program.{CoolClass, Table, lookup_class, is_subclass_of, insert_class}
use lcool.Program.Order.{
  Holds, HasParent, IsWellFormed, newer, fresh-name, is_subclass_of-there, lookup_class-here,
  lookup_class-there,
}

-- The program after a class went in: lookups of the older classes and tests from them are unchanged.
pub record Inserted (c : CoolClass) (t t' : Table) : Type 0 where
  pub well_formed : IsWellFormed t'
  pub stands : lookup_class c.name t' ≡ some c
  pub keeps_lookups : (n : Bytes) → Holds t n → lookup_class n t' ≡ lookup_class n t
  pub keeps_tests : (n d : Bytes) → Holds t n → is_subclass_of t' n d ≡ is_subclass_of t n d

pub insert_class-taken :
    (c old : CoolClass) (t : Table) → lookup_class c.name t ≡ some old → insert_class c t ≡ none
unfolding insert_class
insert_class-taken c old t e = rw (e, insert_class) refl

pub insert_class-free :
    (c : CoolClass) (t : Table) → lookup_class c.name t ≡ none → insert_class c t ≡ some (c ∷ t)
unfolding insert_class
insert_class-free c t e = rw (e, insert_class) refl

-- To insert into a well-formed program a class under a parent that it holds, or into the empty one a
-- class without a parent, either fails, and then the name is taken, or gives a well-formed program that
-- finds the class and answers lookups and subclass tests from the older classes as before.
pub insert_class-Inserted :
    (c : CoolClass) (t : Table)
    → IsWellFormed t
    → HasParent c.parent t
    → (Holds t c.name × (insert_class c t ≡ none))
      ⊎ ((t' : Table) × (insert_class c t ≡ some t') × Inserted c t t')
insert_class-Inserted c t w p = elim (Option-cases (lookup_class c.name t)) [
  | inr (old, e) ↦ inl ((λ n. none-ne-some old (sym n ∙ e)), insert_class-taken c old t e)
  | inl e ↦ inr (
    c ∷ t,
    insert_class-free c t e,
    record {
      well_formed = newer e p w;
      stands = lookup_class-here c t c.name (equal_refl c.name);
      keeps_lookups = λ n h. lookup_class-there c t n (fresh-name c t n e h);
      keeps_tests = λ n d h. is_subclass_of-there c t n d (fresh-name c t n e h);
    },
  )
]
