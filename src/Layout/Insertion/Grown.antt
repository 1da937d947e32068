-- ===== src/Layout/Insertion/Grown.antt =====
-- `insert_class<user_class>` (src/layout.cpp) under a parent that the table holds.
use lcool.Base.{
  ◌≡◌, ◌⊎◌, refl, sym, ap, ◌∙◌, subst, none, some, [], ◌∷◌, Bytes, equal, equal→eq, equal_refl,
  Bool-cases, Option-cases, inl, inr,
}
use mathlib.Core.Option.{some-injective, none-ne-some}
use lcool.Program.{CoolClass, Table, lookup_class, insert_class}
use lcool.Program.Order.{
  Holds, IsWellFormed, newer, lookup_class-here, lookup_class-there, fresh-name,
}
use lcool.Program.Insert.{insert_class-taken, insert_class-free}
use lcool.Layout.Insertion.{user_class, insert_user_class}

-- The table after a class of the name went in, or was there.
pub record Grown (name : Bytes) (t t' : Table) : Type 0 where
  pub well_formed : IsWellFormed t'
  pub holds : Holds t' name
  pub keeps : (n : Bytes) → Holds t n → lookup_class n t' ≡ lookup_class n t
  pub only : (n : Bytes) → Holds t' n → Holds t n ⊎ (name ≡ n)

pub lookup_class-name :
    (n : Bytes) (t : Table) (c : CoolClass) → lookup_class n t ≡ some c → c.name ≡ n
unfolding lookup_class
lookup_class-name n [] c h = absurd (none-ne-some c h)
lookup_class-name n (d ∷ t) c h = elim (Bool-cases (equal d.name n)) [
  | inl e ↦
      let s = some-injective d c (sym (lookup_class-here d t n e) ∙ h) in
      ap (λ x. x.name) (sym s) ∙ equal→eq d.name n e
  | inr e ↦ lookup_class-name n t c (sym (lookup_class-there d t n e) ∙ h)
]

pub Holds-some : (n : Bytes) (t : Table) (c : CoolClass) → lookup_class n t ≡ some c → Holds t n
Holds-some n t c e = λ z. none-ne-some c (sym z ∙ e)

insert_user_class-taken :
    (name : Bytes) (parent : CoolClass) (t : Table)
    → insert_class (user_class name parent) t ≡ none
    → insert_user_class name parent t ≡ t
unfolding insert_user_class
insert_user_class-taken name parent t e = rw (e, insert_user_class) refl

insert_user_class-free :
    (name : Bytes) (parent : CoolClass) (t t' : Table)
    → insert_class (user_class name parent) t ≡ some t'
    → insert_user_class name parent t ≡ t'
unfolding insert_user_class
insert_user_class-free name parent t t' e = rw (e, insert_user_class) refl

Grown-here :
    (name : Bytes) (parent : CoolClass) (t : Table)
    → IsWellFormed t
    → Holds t parent.name
    → lookup_class name t ≡ none
    → Grown name t (user_class name parent ∷ t)
unfolding user_class
Grown-here name parent t w p e =
    let c = user_class name parent in
    record {
      well_formed = newer e p w;
      holds = Holds-some name (c ∷ t) c (lookup_class-here c t name (equal_refl name));
      keeps = λ n h. lookup_class-there c t n (fresh-name c t n e h);
      only = λ n h. elim (Bool-cases (equal name n)) [
        | inl s ↦ inr (equal→eq name n s)
        | inr s ↦ inl (λ z. h (lookup_class-there c t n s ∙ z))
      ];
    }

pub insert_user_class-Grown :
    (name : Bytes) (parent : CoolClass) (t : Table)
    → IsWellFormed t
    → Holds t parent.name
    → Grown name t (insert_user_class name parent t)
unfolding user_class
insert_user_class-Grown name parent t w p = elim (Option-cases (lookup_class name t)) [
  | inl e ↦
      subst (Grown name t)
        (sym (
          insert_user_class-free name parent t (user_class name parent ∷ t)
            (insert_class-free (user_class name parent) t e)))
        (Grown-here name parent t w p e)
  | inr (old, e) ↦
      subst (Grown name t)
        (sym (
          insert_user_class-taken name parent t
            (insert_class-taken (user_class name parent) old t e)))
        (record {
          well_formed = w;
          holds = Holds-some name t old e;
          keeps = λ n h. refl;
          only = λ n h. inl h;
        })
]
