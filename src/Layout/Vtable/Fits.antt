-- ===== src/Layout/Vtable/Fits.antt =====
-- Classes whose method slots fit those of their superclasses (src/layout.cpp).
use lcool.Base.{
  ◌≡◌, refl, sym, ap, ◌∙◌, true, false, some, [], ◌∷◌, Bytes, equal, Bool-cases, Option-cases, inl,
  inr, subst,
}
use mathlib.Core.Option.{none-ne-some, some-injective}
use lcool.Program.{CoolClass, CoolMethod, Table, lookup_class, find_method, lookup_method}
use lcool.Program.Order.{
  Holds, IsWellFormed, newer, Below, Below-here, Below-there, Holds-Below, parent_below-some,
  fresh-name, lookup_class-here, lookup_class-there,
}
use lcool.Program.Methods.{lookup_method-there, lookup_method-declared, lookup_method-parent}
use lcool.Layout.Methods.{inherited}
use lcool.Layout.Vtable.Entries.{Unshared}
use lcool.Layout.Methods.Slotted.{Keyed}

-- The methods of a class over the older classes: every name stands once, an override has the slot of
-- the method that it overrides, and no two slots of the class share an index, unless the class is
-- final, whose methods are not called through its vtable. A slot belongs to the class or an older one.
pub record HasMethodSlots (older : Table) (c : CoolClass) : Type 0 where
  pub keyed : Keyed c.methods
  pub overrides :
      (n : Bytes) (m e : CoolMethod)
      → find_method n c.methods ≡ some m
      → inherited older c n ≡ some e
      → m.slot ≡ e.slot
  pub known :
      (n : Bytes) (m : CoolMethod)
      → find_method n c.methods ≡ some m
      → Holds (c ∷ older) m.slot.declaring_class
  pub unshared : c.final ≡ false → Unshared c.name c.methods

pub data IsLaidOut : Table → Type 0 where
  no_class : IsLaidOut []
  laid_out :
      {c : CoolClass} {older : Table}
      → HasMethodSlots older c
      → IsLaidOut older
      → IsLaidOut (c ∷ older)

inherited-some :
    (older : Table) (x : CoolClass) (q n : Bytes) (r : CoolMethod)
    → x.parent ≡ some q
    → lookup_method older q n ≡ some r
    → inherited older x n ≡ some r
inherited-some older x q n r i l = rw i l

pub first_class :
    (x : CoolClass) (older : Table) (d : Bytes) (cls : CoolClass)
    → equal x.name d ≡ true
    → d ≡ cls.name
    → lookup_class cls.name (x ∷ older) ≡ some cls
    → x ≡ cls
first_class x older d cls e i k =
    some-injective x cls
      (sym (lookup_class-here x older cls.name (subst (λ a. equal x.name a ≡ true) i e)) ∙ k)

-- A class answers to the methods of its superclasses, in their slots.
pub lookup_method-same_slot :
    (t : Table) (d n : Bytes) (cls : CoolClass) (m : CoolMethod)
    → IsWellFormed t
    → IsLaidOut t
    → Below t d cls.name
    → lookup_class cls.name t ≡ some cls
    → find_method n cls.methods ≡ some m
    → (r : CoolMethod) × (lookup_method t d n ≡ some r) × (r.slot ≡ m.slot)
unfolding lookup_class
lookup_method-same_slot [] d n cls m w s b k g = absurd (none-ne-some cls k)
lookup_method-same_slot (x ∷ older) d n cls m (newer f p w) (laid_out h s) b k g =
    elim (Bool-cases (equal x.name d)) [
      | inr e ↦
          let b' = Below-there x older d cls.name e b in
          let (r, l, q) = lookup_method-same_slot older d n cls m w s b' (behind d b') g in
          (r, lookup_method-there x older d n e ∙ l, q)
      | inl e ↦ elim (Below-here x older d cls.name e b) [
        | inl i ↦ (
          m,
          lookup_method-declared x older d n m e (
              ap (λ (c : CoolClass). find_method n c.methods) (first_class x older d cls e i k)
              ∙ g),
          refl,
        )
        | inr (ne, a) ↦
            let (q, i, b') = parent_below-some x.parent older cls.name a in
            let (r, l, same) = lookup_method-same_slot older q n cls m w s b' (behind q b') g in
            elim (Option-cases (find_method n x.methods)) [
              | inl j ↦ (r, lookup_method-parent x older d n (some q) e j i ∙ l, same)
              | inr (o, j) ↦ (
                o,
                lookup_method-declared x older d n o e j,
                h.overrides n o r j (inherited-some older x q n r i l) ∙ same,
              )
            ]
      ]
    ]
  where
    behind : (a : Bytes) → Below older a cls.name → lookup_class cls.name older ≡ some cls
    behind a y =
        sym (
          lookup_class-there x older cls.name
            (fresh-name x older cls.name f (Holds-Below older a cls.name y)))
        ∙ k
