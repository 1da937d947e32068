-- ===== src/Program/Methods.antt =====
-- `lookup_method` (src/cool_program.cpp) finds the nearest declaration of a method.
use lcool.Base.{
  true, false, Option, none, some, [], ◌∷◌, ◌≡◌, ◌⊎◌, refl, sym, ap, ◌∙◌, Bytes, equal, Bool-cases,
  Option-cases, inl, inr, subst,
}
use mathlib.Core.Bool.{true≢false}
use mathlib.Core.Option.{none-ne-some, some-injective}
use lcool.Program.{
  CoolClass, CoolMethod, Table, lookup_class, is_subclass_of, find_method, lookup_method,
}
use lcool.Program.Order.{
  IsWellFormed, newer, Below, Below-here, Below-there, Below-refl, Below-parent, Holds-Below,
  parent_below, fresh-name, is_subclass_of-there, lookup_class-there, lookup_class-here,
}

-- The class `d` declares no method of the name.
abbrev pub Lacks : Table → Bytes → Bytes → Type 0
Lacks t name d = (c : CoolClass) → lookup_class d t ≡ some c → find_method name c.methods ≡ none

-- The method is that of a superclass, and every superclass that declares one is above that class.
pub record Nearest (t : Table) (a name : Bytes) (m : CoolMethod) : Type 0 where
  pub declared_in : Bytes
  pub cls : CoolClass
  pub stands : lookup_class declared_in t ≡ some cls
  pub declares : find_method name cls.methods ≡ some m
  pub above : Below t a declared_in
  pub nearest : (d : Bytes) → Below t a d → Lacks t name d ⊎ Below t declared_in d

abbrev pub Resolves : Table → Bytes → Bytes → Option CoolMethod → Type 0
Resolves t a name none = (d : Bytes) → Below t a d → Lacks t name d
Resolves t a name (some m) = Nearest t a name m

Lacks-there :
    (c : CoolClass) (older : Table) (name d : Bytes)
    → equal c.name d ≡ false
    → Lacks older name d
    → Lacks (c ∷ older) name d
Lacks-there c older name d e h k s = h k (sym (lookup_class-there c older d e) ∙ s)

-- The search goes on in the older classes, at `a` itself or at its parent.
Resolves-older :
    (c : CoolClass) (older : Table) (a q name : Bytes)
    → lookup_class c.name older ≡ none
    → ((d : Bytes) → Below (c ∷ older) a d → Lacks (c ∷ older) name d ⊎ Below older q d)
    → ((d : Bytes) → Below older q d → Below (c ∷ older) a d)
    → (o : Option CoolMethod) → Resolves older q name o
    → Resolves (c ∷ older) a name o
Resolves-older c older a q name f down up none r = λ d x. elim (down d x) [
  | inl l ↦ l
  | inr y ↦ Lacks-there c older name d (fresh-name c older d f (Holds-Below older q d y)) (r d y)
]
Resolves-older c older a q name f down up (some m) r =
    let e = fresh-name c older r.declared_in f (Holds-Below older q r.declared_in r.above) in
    record {
      declared_in = r.declared_in;
      cls = r.cls;
      stands = lookup_class-there c older r.declared_in e ∙ r.stands;
      declares = r.declares;
      above = up r.declared_in r.above;
      nearest = λ d x. elim (down d x) [
        | inl l ↦ inl l
        | inr y ↦ elim (r.nearest d y) [
          | inl l ↦
              inl (Lacks-there c older name d (fresh-name c older d f (Holds-Below older q d y)) l)
          | inr z ↦ inr (is_subclass_of-there c older r.declared_in d e ∙ z)
        ]
      ];
    }

pub lookup_method-there :
    (c : CoolClass) (older : Table) (a name : Bytes)
    → equal c.name a ≡ false
    → lookup_method (c ∷ older) a name ≡ lookup_method older a name
unfolding lookup_method
lookup_method-there c older a name h = rw (h, lookup_method) refl

pub lookup_method-declared :
    (c : CoolClass) (older : Table) (a name : Bytes) (m : CoolMethod)
    → equal c.name a ≡ true
    → find_method name c.methods ≡ some m
    → lookup_method (c ∷ older) a name ≡ some m
unfolding lookup_method
lookup_method-declared c older a name m h g = rw (h, g, lookup_method) refl

pub lookup_method-parent :
    (c : CoolClass) (older : Table) (a name : Bytes) (o : Option Bytes)
    → equal c.name a ≡ true
    → find_method name c.methods ≡ none
    → c.parent ≡ o
    → lookup_method (c ∷ older) a name
      ≡ elim o [ none ↦ none | some q ↦ lookup_method older q name ]
unfolding lookup_method
lookup_method-parent c older a name o h g i = rw (h, g, i, lookup_method) refl

Lacks-here :
    (c : CoolClass) (older : Table) (a name : Bytes)
    → equal c.name a ≡ true
    → find_method name c.methods ≡ none
    → Lacks (c ∷ older) name a
Lacks-here c older a name e g k s =
    ap (λ x. find_method name x.methods)
      (some-injective _ _ (sym s ∙ lookup_class-here c older a e))
    ∙ g

Resolves-none : (a name : Bytes) → Resolves [] a name (lookup_method [] a name)
unfolding lookup_method is_subclass_of
Resolves-none a name = λ d x. absurd (true≢false (sym x))

-- In a well-formed program `lookup_method(name, true)` of a class returns the method that its nearest
-- superclass declares, the class itself being the nearest, and nothing if no superclass declares one.
pub lookup_method-Resolves :
    (t : Table) (a name : Bytes) → IsWellFormed t → Resolves t a name (lookup_method t a name)
lookup_method-Resolves [] a name w = Resolves-none a name
lookup_method-Resolves (c ∷ older) a name (newer f p w) = elim (Bool-cases (equal c.name a)) [
  | inr e ↦ subst (Resolves (c ∷ older) a name) (sym (lookup_method-there c older a name e)) (
      Resolves-older c older a a name f (λ d x. inr (Below-there c older a d e x))
        (λ d x. is_subclass_of-there c older a d e ∙ x) _ (lookup_method-Resolves older a name w))
  | inl e ↦ elim (Option-cases (find_method name c.methods)) [
    | inr (m, g) ↦
        subst (Resolves (c ∷ older) a name) (sym (lookup_method-declared c older a name m e g))
          (declared e m g)
    | inl g ↦ elim (Option-cases c.parent) [
      | inl i ↦
          subst (Resolves (c ∷ older) a name) (sym (lookup_method-parent c older a name none e g i))
            (rootless e g i)
      | inr (q, i) ↦
          subst (Resolves (c ∷ older) a name)
            (sym (lookup_method-parent c older a name (some q) e g i))
            (Resolves-older c older a q name f (down e g q i)
              (λ d x. Below-parent c older a d q e i x) _ (lookup_method-Resolves older q name w))
    ]
  ]
]
  where
    declared :
        equal c.name a ≡ true
        → (m : CoolMethod) → find_method name c.methods ≡ some m
        → Nearest (c ∷ older) a name m
    declared e m g = record {
      declared_in = a;
      cls = c;
      stands = lookup_class-here c older a e;
      declares = g;
      above =
          Below-refl (c ∷ older) a (λ n. none-ne-some c (sym n ∙ lookup_class-here c older a e));
      nearest = λ d x. inr x;
    }

    lacks_or_parent :
        equal c.name a ≡ true
        → find_method name c.methods ≡ none
        → (d : Bytes) → Below (c ∷ older) a d
        → Lacks (c ∷ older) name d ⊎ (parent_below c.parent older d ≡ true)
    lacks_or_parent e g d x = elim (Below-here c older a d e x) [
      | inl s ↦ inl (subst (Lacks (c ∷ older) name) s (Lacks-here c older a name e g))
      | inr (ne, h) ↦ inr h
    ]

    rootless :
        equal c.name a ≡ true
        → find_method name c.methods ≡ none
        → c.parent ≡ none
        → (d : Bytes) → Below (c ∷ older) a d
        → Lacks (c ∷ older) name d
    rootless e g i d x = elim (lacks_or_parent e g d x) [
      | inl l ↦ l
      | inr h ↦ absurd (true≢false (sym h ∙ ap (λ o. parent_below o older d) i))
    ]

    down :
        equal c.name a ≡ true
        → find_method name c.methods ≡ none
        → (q : Bytes) → c.parent ≡ some q
        → (d : Bytes) → Below (c ∷ older) a d
        → Lacks (c ∷ older) name d ⊎ Below older q d
    down e g q i d x = elim (lacks_or_parent e g d x) [
      | inl l ↦ inl l
      | inr h ↦ inr (sym (ap (λ o. parent_below o older d) i) ∙ h)
    ]
