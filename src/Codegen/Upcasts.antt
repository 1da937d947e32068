-- ===== src/Codegen/Upcasts.antt =====
-- `upcast_to` (src/cool_program.cpp, src/builtins.cpp) against `is_subclass_of`.
use lcool.Base.{
  Bool, true, false, Option, none, some, [], ◌∷◌, ◌≡◌, ◌||◌, refl, sym, ap, ◌∙◌, subst, Bytes,
  codes, equal, equal→eq, Bool-cases, Option-cases, inl, inr,
}
use mathlib.Core.Bool.{true≢false}
use mathlib.Core.Option.{none-ne-some, some-injective}
use lcool.Program.{CoolClass, Table, lookup_class, is_subclass_of}
use lcool.Program.Order.{
  Holds, HasParent, IsWellFormed, newer, Below, parent_below, Below-parent, Below-refl,
  is_subclass_of-here, is_subclass_of-there, lookup_class-here, lookup_class-there,
}
use lcool.Codegen.Builder.{Value, Gen}
use lcool.Codegen.Builds.{Scope, Done, BuildsIn, Builds-pure, Builds-bind, Builds-if, Builds-weaken}
use lcool.Codegen.Classes.{steps_up, upcast_ref, upcast_value, upcast_to, is_value}
use lcool.Codegen.Ready.{IsReady, Holds-class, values-parent, steps_up-there}
use lcool.Codegen.Members.{class_of-Builds, upcast_to-Builds}

abbrev pub is_some {ℓ} : {A : Type ℓ} → Option A → Bool
is_some none = false
is_some (some a) = true

or-neither : (x y : Bool) → (x || y) ≡ false → (x ≡ false) × (y ≡ false)
or-neither true y h = absurd (true≢false h)
or-neither false y h = (refl, h)

steps_up-root :
    (c : CoolClass) (older : Table) (a b : Bytes)
    → equal c.name a ≡ true
    → equal b a ≡ false
    → c.parent ≡ none
    → steps_up (c ∷ older) a b ≡ none
unfolding steps_up
steps_up-root c older a b e e' i = rw (e, e', i, steps_up) refl

steps_up-stuck :
    (c : CoolClass) (older : Table) (a b q : Bytes)
    → equal c.name a ≡ true
    → equal b a ≡ false
    → c.parent ≡ some q
    → steps_up older q b ≡ none
    → steps_up (c ∷ older) a b ≡ none
unfolding steps_up
steps_up-stuck c older a b q e e' i h = rw (e, e', i, h, steps_up) refl

-- The loop comes to a class without a parent.
steps_up-none : (t : Table) (a b : Bytes) → is_subclass_of t a b ≡ false → steps_up t a b ≡ none
unfolding steps_up
steps_up-none [] a b x = refl
steps_up-none (c ∷ older) a b x = elim (Bool-cases (equal c.name a)) [
  | inr e ↦
      steps_up-there c older a b e
      ∙ steps_up-none older a b (sym (is_subclass_of-there c older a b e) ∙ x)
  | inl e ↦
      let (n, y) =
        or-neither (equal b a) (parent_below c.parent older b)
          (sym (is_subclass_of-here c older a b e) ∙ x) in
      elim (Option-cases c.parent) [
        | inl i ↦ steps_up-root c older a b e n i
        | inr (q, i) ↦
            steps_up-stuck c older a b q e n i
              (steps_up-none older q b (sym (ap (λ p. parent_below p older b) i) ∙ y))
      ]
]

Below-own_parent :
    (t : Table) (a q : Bytes) (c : CoolClass)
    → IsWellFormed t
    → lookup_class a t ≡ some c
    → c.parent ≡ some q
    → Below t a q
unfolding lookup_class
Below-own_parent [] a q c w l i = absurd (none-ne-some c l)
Below-own_parent (d ∷ older) a q c (newer f p w) l i = elim (Bool-cases (equal d.name a)) [
  | inr e ↦
      is_subclass_of-there d older a q e
      ∙ Below-own_parent older a q c w (sym (lookup_class-there d older a e) ∙ l) i
  | inl e ↦
      let s = some-injective _ _ (sym (lookup_class-here d older a e) ∙ l) in
      let j = ap (λ z. z.parent) s ∙ i in
      Below-parent d older a q q e j (Below-refl older q (subst (λ o. HasParent o older) j p))
]

module _ {in_init : Bool} {s : Scope} (t : Table) (r : IsReady t) where
  upcast_ref-null :
      (a b : Bytes) (v : Value)
      → is_subclass_of t a b ≡ false
      → BuildsIn in_init s (λ o. o ≡ none) (upcast_ref t a v b)
  unfolding upcast_ref
  upcast_ref-null a b v x = rw (steps_up-none t a b x, upcast_ref) (Builds-pure _ refl)

  upcast_value-null :
      (a b : Bytes) (c : CoolClass) (v : Value)
      → lookup_class a t ≡ some c
      → is_value c.llvm_type ≡ true
      → is_subclass_of t a b ≡ false
      → BuildsIn in_init s (λ o. o ≡ none) (upcast_value c v b)
  unfolding upcast_value
  upcast_value-null a b c v l i x =
      let e = values-parent t a c r.values l i in
      rw (e, upcast_value)
        (Builds-if (equal b (codes "Object"))
          (λ h. absurd (
            true≢false (
              sym (Below-own_parent t a (codes "Object") c r.well_formed l e)
              ∙ ap (is_subclass_of t a) (sym (equal→eq b (codes "Object") h))
              ∙ x)))
          (λ h. Builds-pure _ refl))

  upcast_to-null :
      (a b : Bytes) (v : Value)
      → Holds t a
      → is_subclass_of t a b ≡ false
      → BuildsIn in_init s (λ o. o ≡ none) (upcast_to t a v b)
  unfolding upcast_to
  upcast_to-null a b v h x =
      let (c, e) = Holds-class t a h in
      Builds-if (equal b a)
        (λ k. absurd (
          true≢false (sym (Below-refl t a h) ∙ ap (is_subclass_of t a) (sym (equal→eq b a k)) ∙ x)))
        (λ k. Builds-bind (class_of-Builds t r a c e) (λ d p.
          let l = e ∙ ap some (sym p) in
          Builds-if (is_value d.llvm_type) (λ i. upcast_value-null a b d v l i x)
            (λ i. upcast_ref-null a b v x)))

  upcast_to-decides :
      (a b : Bytes) (v : Value)
      → Holds t a
      → BuildsIn in_init s (λ o. is_some o ≡ is_subclass_of t a b) (upcast_to t a v b)
  upcast_to-decides a b v h = elim (Bool-cases (is_subclass_of t a b)) [
    | inl x ↦ Builds-weaken (upcast_to-Builds t r a b v x) (λ o p. ap is_some p.1 ∙ sym x)
    | inr x ↦ Builds-weaken (upcast_to-null a b v h x) (λ o p. ap is_some p ∙ sym x)
  ]

-- In a well-formed program that has the basic classes and whose value classes are right below Object,
-- `upcast_to` from a class that the program holds returns without an error, and its value is not null exactly if
-- `is_subclass_of` holds.
pub upcast_to-is_subclass_of :
    (t : Table) (a b : Bytes) (v : Value) (g : Gen)
    → IsReady t
    → Holds t a
    → Done (λ o. is_some o ≡ is_subclass_of t a b) g (upcast_to t a v b g)
upcast_to-is_subclass_of t a b v g r h =
    (upcast_to-decides {in_init = false} t r a b v h).run g refl (λ j. absurd (true≢false (sym j)))
