-- ===== src/Builtins/Laid.antt =====
-- The slots of the builtin classes (src/builtins.cpp) are such that classes can be laid out over them.
use lcool.Base.{
  ℕ, ◌<◌, ◌≡◌, refl, sym, ap, ◌∙◌, false, none, some, List, [], ◌∷◌, Bytes, codes, equal,
  equal_refl, inl, inr, subst, arith,
}
use mathlib.Core.Bool.{true≢false}
use mathlib.Core.Option.{none-ne-some}
use lcool.Program.{CoolClass, CoolMethod, Table, lookup_class, find_method, lookup_method}
use lcool.Program.Order.{Holds, IsWellFormed, lookup_class-here}
use lcool.Layout.Methods.{inherited}
use lcool.Layout.Methods.Slotted.{Keyed}
use lcool.Layout.Vtable.Entries.{find_method-cons}
use lcool.Layout.Vtable.Fits.{HasMethodSlots, IsLaidOut, no_class, laid_out}
use lcool.Builtins.Registered.{
  Finds, runtime_functions, Provides, builtin_classes, builtins_register-builtin,
  builtin_classes-IsWellFormed, builtin_classes-Holds,
}
use lcool.Builtins.{Runtime, builtins_register}

-- Every method of the class is new: no superclass has its name, and its slot is the class's.
abbrev AllNew : Table → CoolClass → List CoolMethod → Type 0
AllNew older c [] = Unit {0}
AllNew older c (m ∷ ms) =
    (inherited older c m.slot.name ≡ none) × (m.slot.declaring_class ≡ c.name) × AllNew older c ms

-- The indices fall along the list.
abbrev AllBelow : ℕ → List CoolMethod → Type 0
AllBelow i [] = Unit {0}
AllBelow i (m ∷ ms) = (m.slot.vtable_index < i) × AllBelow i ms

abbrev Falling : List CoolMethod → Type 0
Falling [] = Unit {0}
Falling (m ∷ ms) = AllBelow m.slot.vtable_index ms × Falling ms

find_method-new :
    (older : Table) (c : CoolClass) (ms : List CoolMethod) (n : Bytes) (m : CoolMethod)
    → AllNew older c ms
    → find_method n ms ≡ some m
    → (inherited older c n ≡ none) × (m.slot.declaring_class ≡ c.name)
unfolding find_method
find_method-new older c [] n m a f = absurd (none-ne-some m f)
find_method-new older c (k ∷ ms) n m (i, d, a) f = elim (find_method-cons n k m ms f) [
  | inl (x, y) ↦ (
    ap (inherited older c) (sym x) ∙ i,
    ap (λ (z : CoolMethod). z.slot.declaring_class) (sym y) ∙ d,
  )
  | inr g ↦ find_method-new older c ms n m a g
]

find_method-below :
    (i : ℕ) (ms : List CoolMethod) (n : Bytes) (m : CoolMethod)
    → AllBelow i ms
    → find_method n ms ≡ some m
    → m.slot.vtable_index < i
unfolding find_method
find_method-below i [] n m b f = absurd (none-ne-some m f)
find_method-below i (k ∷ ms) n m (lt, b) f = elim (find_method-cons n k m ms f) [
  | inl (x, y) ↦ subst (λ (z : CoolMethod). z.slot.vtable_index < i) y lt
  | inr g ↦ find_method-below i ms n m b g
]

Falling-distinct :
    (ms : List CoolMethod) (n o : Bytes) (m k : CoolMethod)
    → Falling ms
    → find_method n ms ≡ some m
    → find_method o ms ≡ some k
    → m.slot.vtable_index ≡ k.slot.vtable_index
    → n ≡ o
unfolding find_method
Falling-distinct [] n o m k b f g i = absurd (none-ne-some m f)
Falling-distinct (h ∷ ms) n o m k (b, bs) f g i = elim (find_method-cons n h m ms f) [
  | inl (x, y) ↦ elim (find_method-cons o h k ms g) [
    | inl (x', y') ↦ sym x ∙ x'
    | inr g' ↦
        let at = ap (λ (z : CoolMethod). z.slot.vtable_index) y in
        absurd (omega (arith, find_method-below h.slot.vtable_index ms o k b g'))
  ]
  | inr f' ↦ elim (find_method-cons o h k ms g) [
    | inl (x', y') ↦
        let at = ap (λ (z : CoolMethod). z.slot.vtable_index) y' in
        absurd (omega (arith, find_method-below h.slot.vtable_index ms n m b f'))
    | inr g' ↦ Falling-distinct ms n o m k bs f' g' i
  ]
]

AllNew-HasMethodSlots :
    (older : Table) (c : CoolClass)
    → Keyed c.methods
    → AllNew older c c.methods
    → (c.final ≡ false → Falling c.methods)
    → HasMethodSlots older c
AllNew-HasMethodSlots older c k a b = record {
  keyed = k;
  overrides =
      λ n m e f i. absurd (none-ne-some e (sym (find_method-new older c c.methods n m a f).0 ∙ i));
  known = λ n m f z.
      let own = (find_method-new older c c.methods n m a f).1 in
      none-ne-some c (
        sym (ap (λ x. lookup_class x (c ∷ older)) (sym own) ∙ z)
        ∙ lookup_class-here c older c.name (equal_refl c.name));
  unshared = λ z n o m k' (f, d) (g, d') i. Falling-distinct c.methods n o m k' (b z) f g i;
}

builtin_classes-IsLaidOut :
    (rt : Runtime) (fs : Finds rt runtime_functions) → IsLaidOut (builtin_classes rt fs)
unfolding lookup_method find_method equal
builtin_classes-IsLaidOut rt fs =
    laid_out (AllNew-HasMethodSlots _ _ tt tt (λ e. absurd (true≢false e))) (
      laid_out (AllNew-HasMethodSlots _ _ tt tt (λ e. absurd (true≢false e))) (
        laid_out
          (AllNew-HasMethodSlots _ _ (refl, (refl, (refl, tt)))
            (refl, refl, (refl, refl, (refl, refl, tt))) (λ e. absurd (true≢false e)))
          (laid_out
            (AllNew-HasMethodSlots _ _ (refl, (refl, (refl, (refl, tt))))
              (refl, refl, (refl, refl, (refl, refl, (refl, refl, tt))))
              (λ e. (
                (omega arith, (omega arith, (omega arith, tt))),
                ((omega arith, (omega arith, tt)), ((omega arith, tt), (tt, tt))),
              )))
            (laid_out
              (AllNew-HasMethodSlots _ _ (refl, (refl, (refl, tt)))
                (refl, refl, (refl, refl, (refl, refl, tt)))
                (λ e. ((omega arith, (omega arith, tt)), ((omega arith, tt), (tt, tt)))))
              no_class))))

-- With a runtime module that has what is asked for, `builtins_register` succeeds on an empty program.
-- The program is then well formed, has an Object, and its classes are laid out: overrides have the
-- slots that they override, and no two slots of a class that is not final share an index.
pub builtins_register-IsLaidOut :
    (rt : Runtime)
    → Provides rt
    → (t : Table) × (builtins_register rt [] ≡ some t)
      × IsWellFormed t
      × Holds t (codes "Object")
      × IsLaidOut t
builtins_register-IsLaidOut rt p = (
  builtin_classes rt p.functions,
  builtins_register-builtin rt p,
  builtin_classes-IsWellFormed rt p.functions,
  builtin_classes-Holds rt p.functions,
  builtin_classes-IsLaidOut rt p.functions,
)
