-- ===== src/Program/Order.antt =====
-- `is_subclass_of` (src/cool_program.cpp) is a partial order on the classes of a well-formed program.
use lcool.Base.{
  Bool, true, false, Option, none, some, [], ◌∷◌, ◌||◌, ◌≡◌, ◌≢◌, ◌⊎◌, refl, sym, ap, ◌∙◌, Bytes,
  equal, equal→eq, equal_refl, Bool-cases, inl, inr,
}
use mathlib.Core.Bool.{true≢false}
use mathlib.Core.Option.{none-ne-some}
use lcool.Program.{CoolClass, Table, lookup_class, is_subclass_of}

abbrev pub Holds : Table → Bytes → Type 0
Holds t n = lookup_class n t ≢ none

-- Only the oldest class has no parent, and every other has an older one.
abbrev pub HasParent : Option Bytes → Table → Type 0
HasParent none older = older ≡ []
HasParent (some p) older = Holds older p

-- Every name stands once, and every class is newer than its parent.
pub data IsWellFormed : Table → Type 0 where
  empty : IsWellFormed []
  newer :
      {c : CoolClass} {older : Table}
      → lookup_class c.name older ≡ none
      → HasParent c.parent older
      → IsWellFormed older
      → IsWellFormed (c ∷ older)

abbrev pub Below : Table → Bytes → Bytes → Type 0
Below t a b = is_subclass_of t a b ≡ true

-- The test that a class asks of its parent.
abbrev pub parent_below : Option Bytes → Table → Bytes → Bool
parent_below none older b = false
parent_below (some p) older b = is_subclass_of older p b

pub is_subclass_of-here :
    (c : CoolClass) (older : Table) (a b : Bytes)
    → equal c.name a ≡ true
    → is_subclass_of (c ∷ older) a b ≡ (equal b a || parent_below c.parent older b)
unfolding is_subclass_of
is_subclass_of-here c older a b h = rw (h, is_subclass_of) (over c.parent)
  where
    over :
        (p : Option Bytes)
        → (equal b a || elim p [ none ↦ false | some q ↦ is_subclass_of older q b ])
          ≡ (equal b a || parent_below p older b)
    over none = refl
    over (some p) = refl

pub is_subclass_of-there :
    (c : CoolClass) (older : Table) (a b : Bytes)
    → equal c.name a ≡ false
    → is_subclass_of (c ∷ older) a b ≡ is_subclass_of older a b
unfolding is_subclass_of
is_subclass_of-there c older a b h = rw (h, is_subclass_of) refl

pub lookup_class-here :
    (c : CoolClass) (older : Table) (a : Bytes)
    → equal c.name a ≡ true
    → lookup_class a (c ∷ older) ≡ some c
unfolding lookup_class
lookup_class-here c older a h = rw h refl

pub lookup_class-there :
    (c : CoolClass) (older : Table) (a : Bytes)
    → equal c.name a ≡ false
    → lookup_class a (c ∷ older) ≡ lookup_class a older
unfolding lookup_class
lookup_class-there c older a h = rw h refl

Below-cases : (x y : Bool) → (x || y) ≡ true → (x ≡ true) ⊎ ((x ≡ false) × (y ≡ true))
Below-cases true y h = inl refl
Below-cases false y h = inr (refl, h)

-- What a subclass test at a class that the table holds first comes down to.
pub Below-here :
    (c : CoolClass) (older : Table) (a b : Bytes)
    → equal c.name a ≡ true
    → Below (c ∷ older) a b
    → (a ≡ b) ⊎ ((equal b a ≡ false) × (parent_below c.parent older b ≡ true))
Below-here c older a b h x = elim (Below-cases _ _ (sym (is_subclass_of-here c older a b h) ∙ x)) [
  | inl e ↦ inl (sym (equal→eq b a e))
  | inr r ↦ inr r
]

pub Below-there :
    (c : CoolClass) (older : Table) (a b : Bytes)
    → equal c.name a ≡ false
    → Below (c ∷ older) a b
    → Below older a b
Below-there c older a b h x = sym (is_subclass_of-there c older a b h) ∙ x

pub Below-refl : (t : Table) (a : Bytes) → Holds t a → Below t a a
unfolding lookup_class
Below-refl [] a h = absurd (h refl)
Below-refl (c ∷ older) a h = elim (Bool-cases (equal c.name a)) [
  | inl e ↦
      is_subclass_of-here c older a a e
      ∙ ap (λ x. x || parent_below c.parent older a) (equal_refl a)
  | inr e ↦
      is_subclass_of-there c older a a e
      ∙ Below-refl older a (λ n. h (lookup_class-there c older a e ∙ n))
]

pub parent_below-some :
    (p : Option Bytes) (older : Table) (b : Bytes)
    → parent_below p older b ≡ true
    → (q : Bytes) × (p ≡ some q) × Below older q b
parent_below-some none older b h = absurd (true≢false (sym h))
parent_below-some (some q) older b h = (q, refl, h)

-- A test whose outcome is not the class itself is a test of an older class.
pub Below-older :
    (c : CoolClass) (older : Table) (a b : Bytes)
    → equal c.name b ≡ false
    → Below (c ∷ older) a b
    → (q : Bytes) × Below older q b
Below-older c older a b e x = elim (Bool-cases (equal c.name a)) [
  | inr e' ↦ (a, Below-there c older a b e' x)
  | inl e' ↦ elim (Below-here c older a b e' x) [
    | inl s ↦ absurd (true≢false (sym e' ∙ ap (equal c.name) s ∙ e))
    | inr (n, h) ↦ let (q, i, y) = parent_below-some c.parent older b h in (q, y)
  ]
]

pub Below-parent :
    (c : CoolClass) (older : Table) (a d q : Bytes)
    → equal c.name a ≡ true
    → c.parent ≡ some q
    → Below older q d
    → Below (c ∷ older) a d
Below-parent c older a d q e i x =
    is_subclass_of-here c older a d e
    ∙ ap (λ p. equal d a || parent_below p older d) i
    ∙ ap (λ x. equal d a || x) x
    ∙ or-true (equal d a)
  where
    or-true : (x : Bool) → (x || true) ≡ true
    or-true true = refl
    or-true false = refl

-- A class found by a test stands in the table.
pub Holds-Below : (t : Table) (a b : Bytes) → Below t a b → Holds t b
unfolding is_subclass_of
Holds-Below [] a b x = absurd (true≢false (sym x))
Holds-Below (c ∷ older) a b x = elim (Bool-cases (equal c.name b)) [
  | inl e ↦ λ n. none-ne-some c (sym n ∙ lookup_class-here c older b e)
  | inr e ↦
      let (q, y) = Below-older c older a b e x in
      λ n. Holds-Below older q b y (sym (lookup_class-there c older b e) ∙ n)
]

-- A newer class has another name than the older ones.
pub fresh-name :
    (c : CoolClass) (older : Table) (b : Bytes)
    → lookup_class c.name older ≡ none
    → Holds older b
    → equal c.name b ≡ false
fresh-name c older b f h = elim (Bool-cases (equal c.name b)) [
  | inr e ↦ e
  | inl e ↦ absurd (h (ap (λ n. lookup_class n older) (sym (equal→eq c.name b e)) ∙ f))
]

-- In a well-formed program the subclass test is transitive.
pub Below-trans :
    (t : Table) (a b d : Bytes) → IsWellFormed t → Below t a b → Below t b d → Below t a d
unfolding is_subclass_of
Below-trans [] a b d w x y = x
Below-trans (c ∷ older) a b d (newer f p w) x y = elim (Bool-cases (equal c.name a)) [
  | inr e ↦
      let x' = Below-there c older a b e x in
      let y' = Below-there c older b d (fresh-name c older b f (Holds-Below older a b x')) y in
      is_subclass_of-there c older a d e ∙ Below-trans older a b d w x' y'
  | inl e ↦ elim (Below-here c older a b e x) [
    | inl s ↦ ap (λ n. is_subclass_of (c ∷ older) n d) s ∙ y
    | inr (n, h) ↦
        let (q, i, x') = parent_below-some c.parent older b h in
        let y' = Below-there c older b d (fresh-name c older b f (Holds-Below older q b x')) y in
        Below-parent c older a d q e i (Below-trans older q b d w x' y')
  ]
]

-- In a well-formed program two classes that are subclasses of each other are the same.
pub Below-antisym : (t : Table) (a b : Bytes) → IsWellFormed t → Below t a b → Below t b a → a ≡ b
unfolding is_subclass_of
Below-antisym [] a b w x y = absurd (true≢false (sym x))
Below-antisym (c ∷ older) a b (newer f p w) x y = elim (Bool-cases (equal c.name a)) [
  | inl e ↦ elim (Bool-cases (equal c.name b)) [
    | inl e' ↦ sym (equal→eq c.name a e) ∙ equal→eq c.name b e'
    | inr e' ↦
        let y' = Below-there c older b a e' y in
        absurd (true≢false (sym e ∙ fresh-name c older a f (Holds-Below older b a y')))
  ]
  | inr e ↦ elim (Bool-cases (equal c.name b)) [
    | inl e' ↦
        let x' = Below-there c older a b e x in
        absurd (true≢false (sym e' ∙ fresh-name c older b f (Holds-Below older a b x')))
    | inr e' ↦
        Below-antisym older a b w (Below-there c older a b e x) (Below-there c older b a e' y)
  ]
]
