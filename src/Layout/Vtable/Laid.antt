-- ===== src/Layout/Vtable/Laid.antt =====
-- `process_methods` (src/layout.cpp) leaves the slots that the vtables are made from.
use lcool.Base.{
  ◌≡◌, sym, ap, ◌∙◌, true, Option, none, some, List, [], ◌∷◌, Bytes, equal, equal_refl, Bool-cases,
  Option-cases, inl, inr, subst,
}
use mathlib.Core.Option.{none-ne-some, some-injective}
use lcool.Logger.{Logger}
use lcool.Ast.{Class}
use lcool.Program.{
  CoolClass, CoolMethod, CoolMethodSlot, Function, Table, lookup_class, find_method, lookup_method,
}
use lcool.Program.Order.{Holds, lookup_class-here, lookup_class-there}
use lcool.Program.Methods.{lookup_method-there, lookup_method-declared, lookup_method-parent}
use lcool.Layout.Methods.{Slots, inherited, process_methods}
use lcool.Layout.Methods.Slotted.{HasSlots}
use lcool.Layout.Methods.Signatures.{process_methods-HasSlots}
use lcool.Layout.Vtable.Fits.{HasMethodSlots, IsLaidOut, laid_out}

Holds-newer : (x : CoolClass) (older : Table) (n : Bytes) → Holds older n → Holds (x ∷ older) n
Holds-newer x older n h = elim (Bool-cases (equal x.name n)) [
  | inl e ↦ λ z. none-ne-some x (sym z ∙ lookup_class-here x older n e)
  | inr e ↦ λ z. h (sym (lookup_class-there x older n e) ∙ z)
]

-- The slot of a method that is found belongs to a class of the table.
lookup_method-known :
    (t : Table) (a n : Bytes) (m : CoolMethod)
    → IsLaidOut t
    → lookup_method t a n ≡ some m
    → Holds t m.slot.declaring_class
unfolding lookup_method
lookup_method-known [] a n m s l = absurd (none-ne-some m l)
lookup_method-known (x ∷ older) a n m (laid_out h s) l = elim (Bool-cases (equal x.name a)) [
  | inr e ↦
      Holds-newer x older _
        (lookup_method-known older a n m s (sym (lookup_method-there x older a n e) ∙ l))
  | inl e ↦ elim (Option-cases (find_method n x.methods)) [
    | inr (k, j) ↦ h.known n m (j ∙ sym (lookup_method-declared x older a n k e j) ∙ l)
    | inl j ↦ elim (Option-cases x.parent) [
      | inl i ↦ absurd (none-ne-some m (sym (lookup_method-parent x older a n none e j i) ∙ l))
      | inr (q, i) ↦ Holds-newer x older _ (
          lookup_method-known older q n m s
            (sym (lookup_method-parent x older a n (some q) e j i) ∙ l))
    ]
  ]
]

inherited-known :
    (older : Table) (cls : CoolClass) (n : Bytes) (m : CoolMethod)
    → IsLaidOut older
    → inherited older cls n ≡ some m
    → Holds older m.slot.declaring_class
inherited-known older cls n m s l = by_parent cls.parent l
  where
    by_parent :
        (p : Option Bytes)
        → elim p [ none ↦ none | some q ↦ lookup_method older q n ] ≡ some m
        → Holds older m.slot.declaring_class
    by_parent none l = absurd (none-ne-some m l)
    by_parent (some q) l = lookup_method-known older q n m s l

-- The slots that `process_methods` gives a class fit the classes behind it.
module _ (output older : Table) (cls : CoolClass) (s : Slots) where
  HasSlots-HasMethodSlots :
      lookup_class cls.name older ≡ none
      → IsLaidOut older
      → ((n : Bytes) → inherited output cls n ≡ inherited older cls n)
      → HasSlots output cls s
      → HasMethodSlots older s.cls
  HasSlots-HasMethodSlots fresh laid same h = record {
    keyed = h.keyed;
    overrides = λ n m e f i. elim (h.slots n m f).slot [
      | inl (x, d, lo, hi) ↦ absurd (none-ne-some e (sym x ∙ above n e i))
      | inr (k, x, y) ↦
          y ∙ ap (λ (z : CoolMethod). z.slot) (some-injective k e (sym x ∙ above n e i))
    ];
    known = λ n m f. elim (h.slots n m f).slot [
      | inl (x, d, lo, hi) ↦ λ z. none-ne-some s.cls (
          sym z
          ∙ lookup_class-here s.cls older _ (
              subst (λ b. equal s.cls.name b ≡ true) (h.same_name ∙ sym d) (equal_refl s.cls.name)))
      | inr (k, x, y) ↦ Holds-newer s.cls older _ (behind n m k x y)
    ];
    unshared = λ z n o m k (f, d) (g, d') i. h.distinct n o m k f g (own n m f d) (own o k g d') i;
  }
    where
      above :
          (n : Bytes) (e : CoolMethod)
          → inherited older s.cls n ≡ some e
          → inherited output cls n ≡ some e
      above n e i =
          same n
          ∙ ap (λ p. elim p [ none ↦ none | some q ↦ lookup_method older q n ]) (sym h.same_parent)
          ∙ i

      behind :
          (n : Bytes) (m k : CoolMethod)
          → inherited output cls n ≡ some k
          → m.slot ≡ k.slot
          → Holds older m.slot.declaring_class
      behind n m k x y =
          subst (λ (z : CoolMethodSlot). Holds older z.declaring_class) (sym y)
            (inherited-known older cls n k laid (sym (same n) ∙ x))

      own :
          (n : Bytes) (m : CoolMethod)
          → find_method n s.cls.methods ≡ some m
          → m.slot.declaring_class ≡ s.cls.name
          → inherited output cls n ≡ none
      own n m f d = elim (h.slots n m f).slot [
        | inl (x, z, lo, hi) ↦ x
        | inr (k, x, y) ↦
            absurd (behind n m k x y (ap (λ b. lookup_class b older) (d ∙ h.same_name) ∙ fresh))
      ]

-- For a class without methods, over classes that are laid out and hold its superclasses,
-- `process_methods` makes the class one whose slots fit those of the classes behind it.
pub process_methods-HasMethodSlots :
    (ast_cls : Class) (cls : CoolClass) (output older : Table) (functions : List Function)
    → (log : Logger) → cls.methods ≡ []
    → lookup_class cls.name older ≡ none
    → IsLaidOut older
    → ((n : Bytes) → inherited output cls n ≡ inherited older cls n)
    → HasMethodSlots older (process_methods ast_cls cls output functions log).cls
process_methods-HasMethodSlots ast_cls cls output older functions log e fresh laid same =
    HasSlots-HasMethodSlots output older cls (process_methods ast_cls cls output functions log)
      fresh laid same (process_methods-HasSlots ast_cls cls output functions log e)
