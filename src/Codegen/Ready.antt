-- ===== src/Codegen/Ready.antt =====
-- The class tables that code is generated from: what the walks along parents of the members that build
-- code (src/cool_program.cpp, src/builtins.cpp) rely on.
use lcool.Base.{
  ℕ, suc, Bool, true, false, not, Option, none, some, [], ◌∷◌, ◌≡◌, ◌||◌, ◌&&◌, refl, sym, ap, ◌∙◌,
  subst, Bytes, codes, equal, equal→eq, equal_refl, Bool-cases, Option-cases, inl, inr,
}
use mathlib.Core.Bool.{true≢false}
use mathlib.Core.Option.{none-ne-some, some-injective}
use lcool.Program.{CoolClass, Table, lookup_class, is_subclass_of}
use lcool.Program.Order.{
  Holds, HasParent, IsWellFormed, newer, Below, Below-here, Below-there, Below-parent, Below-refl,
  parent_below-some, is_subclass_of-there, lookup_class-here, lookup_class-there, fresh-name,
}
use lcool.Codegen.Classes.{steps_up, root_of, is_value}

abbrev pub object : Bytes
object = codes "Object"

abbrev parent_is : Option Bytes → Bytes → Bool
parent_is none p = false
parent_is (some q) p = equal q p

-- Every class of values, as Int and Bool, is right below Object.
unfoldable pub values_below_object : Table → Bool
unfolding equal
values_below_object [] = true
values_below_object (c ∷ older) =
    (not (is_value c.llvm_type) || parent_is c.parent object) && values_below_object older

pub record IsReady (t : Table) : Type 0 where
  pub well_formed : IsWellFormed t
  pub holds_object : Holds t (codes "Object")
  pub holds_int : Holds t (codes "Int")
  pub holds_bool : Holds t (codes "Bool")
  pub holds_string : Holds t (codes "String")
  pub object_alone : (d : Bytes) → Below t (codes "Object") d → d ≡ codes "Object"
  pub values : values_below_object t ≡ true

pub Holds-class :
    (t : Table) (a : Bytes) → Holds t a → (c : CoolClass) × (lookup_class a t ≡ some c)
Holds-class t a h = elim (Option-cases (lookup_class a t)) [ inl e ↦ absurd (h e) | inr x ↦ x ]

pub Below-Holds : (t : Table) (a b : Bytes) → Below t a b → Holds t a
unfolding is_subclass_of
Below-Holds [] a b x = absurd (true≢false (sym x))
Below-Holds (c ∷ older) a b x = elim (Bool-cases (equal c.name a)) [
  | inl e ↦ λ n. none-ne-some c (sym n ∙ lookup_class-here c older a e)
  | inr e ↦ λ n.
      Below-Holds older a b (Below-there c older a b e x) (sym (lookup_class-there c older a e) ∙ n)
]

pub steps_up-there :
    (c : CoolClass) (older : Table) (a b : Bytes)
    → equal c.name a ≡ false
    → steps_up (c ∷ older) a b ≡ steps_up older a b
unfolding steps_up
steps_up-there c older a b e = rw (e, steps_up) refl

pub steps_up-here :
    (c : CoolClass) (older : Table) (a b : Bytes)
    → equal c.name a ≡ true
    → equal b a ≡ true
    → steps_up (c ∷ older) a b ≡ some 0
unfolding steps_up
steps_up-here c older a b e e' = rw (e, e', steps_up) refl

steps_up-parent :
    (c : CoolClass) (older : Table) (a b q : Bytes) (n : ℕ)
    → equal c.name a ≡ true
    → equal b a ≡ false
    → c.parent ≡ some q
    → steps_up older q b ≡ some n
    → steps_up (c ∷ older) a b ≡ some (suc n)
unfolding steps_up
steps_up-parent c older a b q n e e' i h = rw (e, e', i, h, steps_up) refl

-- The loop of `upcast_to` arrives at every superclass.
pub steps_up_returns : (t : Table) (a b : Bytes) → Below t a b → (n : ℕ) × (steps_up t a b ≡ some n)
unfolding is_subclass_of
steps_up_returns [] a b x = absurd (true≢false (sym x))
steps_up_returns (c ∷ older) a b x = elim (Bool-cases (equal c.name a)) [
  | inr e ↦
      let (n, h) = steps_up_returns older a b (Below-there c older a b e x) in
      (n, steps_up-there c older a b e ∙ h)
  | inl e ↦ elim (Below-here c older a b e x) [
    | inl s ↦ (0, steps_up-here c older a b e (ap (λ y. equal y a) (sym s) ∙ equal_refl a))
    | inr (ne, h) ↦
        let (q, i, y) = parent_below-some c.parent older b h in
        let (n, k) = steps_up_returns older q b y in
        (suc n, steps_up-parent c older a b q n e ne i k)
  ]
]

root_of-there :
    (c : CoolClass) (older : Table) (a : Bytes)
    → equal c.name a ≡ false
    → root_of (c ∷ older) a ≡ root_of older a
unfolding root_of
root_of-there c older a e = rw (e, root_of) refl

root_of-here :
    (c : CoolClass) (older : Table) (a : Bytes)
    → equal c.name a ≡ true
    → c.parent ≡ none
    → root_of (c ∷ older) a ≡ some a
unfolding root_of
root_of-here c older a e i = rw (e, i, root_of) refl

root_of-parent :
    (c : CoolClass) (older : Table) (a q : Bytes)
    → equal c.name a ≡ true
    → c.parent ≡ some q
    → root_of (c ∷ older) a ≡ root_of older q
unfolding root_of
root_of-parent c older a q e i = rw (e, i, root_of) refl

-- The loop of `upcast_to_object` ends, at a superclass.
pub root_of-Below :
    (t : Table) (a : Bytes)
    → IsWellFormed t
    → Holds t a
    → (r : Bytes) × (root_of t a ≡ some r) × Below t a r
unfolding lookup_class
root_of-Below [] a w h = absurd (h refl)
root_of-Below (c ∷ older) a (newer f p w) h = elim (Bool-cases (equal c.name a)) [
  | inr e ↦
      let (r, x, y) = root_of-Below older a w (λ n. h (lookup_class-there c older a e ∙ n)) in
      (r, root_of-there c older a e ∙ x, is_subclass_of-there c older a r e ∙ y)
  | inl e ↦ elim (Option-cases c.parent) [
    | inl i ↦ (a, root_of-here c older a e i, Below-refl (c ∷ older) a h)
    | inr (q, i) ↦
        let (r, x, y) = root_of-Below older q w (subst (λ o. HasParent o older) i p) in
        (r, root_of-parent c older a q e i ∙ x, Below-parent c older a r q e i y)
  ]
]

not-or : (x y : Bool) → x ≡ true → (not x || y) ≡ true → y ≡ true
not-or true y e h = h
not-or false y e h = absurd (true≢false (sym e))

and-both : (x y : Bool) → (x && y) ≡ true → (x ≡ true) × (y ≡ true)
and-both true y h = (refl, h)
and-both false y h = absurd (true≢false (sym h))

parent_is-eq : (o : Option Bytes) (p : Bytes) → parent_is o p ≡ true → o ≡ some p
parent_is-eq none p h = absurd (true≢false (sym h))
parent_is-eq (some q) p h = ap some (equal→eq q p h)

pub values-parent :
    (t : Table) (a : Bytes) (c : CoolClass)
    → values_below_object t ≡ true
    → lookup_class a t ≡ some c
    → is_value c.llvm_type ≡ true
    → c.parent ≡ some object
unfolding lookup_class values_below_object
values-parent [] a c v l i = absurd (none-ne-some c l)
values-parent (d ∷ older) a c v l i =
    let (v', vs) = and-both _ _ v in
    elim (Bool-cases (equal d.name a)) [
      | inr e ↦ values-parent older a c vs (sym (lookup_class-there d older a e) ∙ l) i
      | inl e ↦
          let s = some-injective _ _ (sym (lookup_class-here d older a e) ∙ l) in
          parent_is-eq c.parent object (
            not-or _ _ i
              (ap (λ x. not (is_value x.llvm_type) || parent_is x.parent object) (sym s) ∙ v'))
    ]

-- A proper superclass is one of the parent.
Below-up :
    (t : Table) (a d q : Bytes) (c : CoolClass)
    → IsWellFormed t
    → lookup_class a t ≡ some c
    → c.parent ≡ some q
    → equal d a ≡ false
    → Below t a d
    → Below t q d
unfolding lookup_class is_subclass_of
Below-up [] a d q c w l i n x = absurd (true≢false (sym x))
Below-up (b ∷ older) a d q c (newer f p w) l i n x = elim (Bool-cases (equal b.name a)) [
  | inr e ↦
      let y =
        Below-up older a d q c w (sym (lookup_class-there b older a e) ∙ l) i n
          (Below-there b older a d e x) in
      is_subclass_of-there b older q d (fresh-name b older q f (Below-Holds older q d y)) ∙ y
  | inl e ↦ elim (Below-here b older a d e x) [
    | inl s ↦ absurd (true≢false (sym (ap (λ y. equal y a) (sym s) ∙ equal_refl a) ∙ n))
    | inr (ne, h) ↦
        let (q', j, y) = parent_below-some b.parent older d h in
        let s = some-injective _ _ (sym (lookup_class-here b older a e) ∙ l) in
        let k = some-injective _ _ (sym j ∙ ap (λ z. z.parent) s ∙ i) in
        subst (λ z. Below (b ∷ older) z d) k
          (is_subclass_of-there b older q' d (fresh-name b older q' f (Below-Holds older q' d y))
            ∙ y)
  ]
]

-- The only proper superclass of a class of values is its parent.
pub value-parent :
    (t : Table) (a d : Bytes) (c : CoolClass)
    → IsReady t
    → lookup_class a t ≡ some c
    → is_value c.llvm_type ≡ true
    → equal d a ≡ false
    → Below t a d
    → c.parent ≡ some d
value-parent t a d c r l i n x =
    let e = values-parent t a c r.values l i in
    e ∙ ap some (sym (r.object_alone d (Below-up t a d object c r.well_formed l e n x)))
