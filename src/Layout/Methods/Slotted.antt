-- ===== src/Layout/Methods/Slotted.antt =====
-- The slots of a class's methods after `process_methods` (src/layout.cpp).
use lcool.Base.{
  ℕ, ◌<◌, ◌≤◌, ◌≡◌, ◌⊎◌, sym, ap, ◌∙◌, subst, Option, none, some, List, [], ◌∷◌, Bytes, equal,
  equal→eq, Bool-cases, Option-cases, inl, inr, arith,
}
use mathlib.Core.Option.{none-ne-some, some-injective}
use lcool.Program.{CoolClass, CoolMethod, Table, find_method, lookup_method}
use lcool.Program.Methods.{lookup_method-there, lookup_method-declared, lookup_method-parent}
use lcool.Layout.Methods.{Slots, inherited}

pub find_method-name :
    (name : Bytes) (ms : List CoolMethod) (m : CoolMethod)
    → find_method name ms ≡ some m
    → m.slot.name ≡ name
unfolding find_method
find_method-name name [] m h = absurd (none-ne-some m h)
find_method-name name (k ∷ ms) m h = elim (Bool-cases (equal k.slot.name name)) [
  | inl e ↦
      ap (λ (x : CoolMethod). x.slot.name) (sym (some-injective k m (rw e at h)))
      ∙ equal→eq k.slot.name name e
  | inr e ↦ find_method-name name ms m (rw e at h)
]

pub lookup_method-name :
    (t : Table) (a name : Bytes) (m : CoolMethod)
    → lookup_method t a name ≡ some m
    → m.slot.name ≡ name
unfolding lookup_method
lookup_method-name [] a name m h = absurd (none-ne-some m h)
lookup_method-name (c ∷ older) a name m h = elim (Bool-cases (equal c.name a)) [
  | inr e ↦ lookup_method-name older a name m (sym (lookup_method-there c older a name e) ∙ h)
  | inl e ↦ elim (Option-cases (find_method name c.methods)) [
    | inr (k, g) ↦
        find_method-name name c.methods m
          (g ∙ sym (lookup_method-declared c older a name k e g) ∙ h)
    | inl g ↦ elim (Option-cases c.parent) [
      | inl i ↦ absurd (none-ne-some m (sym (lookup_method-parent c older a name none e g i) ∙ h))
      | inr (q, i) ↦
          lookup_method-name older q name m
            (sym (lookup_method-parent c older a name (some q) e g i) ∙ h)
    ]
  ]
]

pub inherited-name :
    (output : Table) (cls : CoolClass) (name : Bytes) (m : CoolMethod)
    → inherited output cls name ≡ some m
    → m.slot.name ≡ name
inherited-name output cls name m h = by_parent cls.parent h
  where
    by_parent :
        (p : Option Bytes)
        → elim p [ none ↦ none | some q ↦ lookup_method output q name ] ≡ some m
        → m.slot.name ≡ name
    by_parent none h = absurd (none-ne-some m h)
    by_parent (some q) h = lookup_method-name output q name m h

-- No two methods have the same name.
abbrev pub Keyed : List CoolMethod → Type 0
Keyed [] = Unit {0}
Keyed (m ∷ ms) = (find_method m.slot.name ms ≡ none) × Keyed ms

module _ (output : Table) (cls : CoolClass) where
  -- A method that no superclass has stands in a slot of the class, below `next`; another one stands in
  -- the slot of the method that it overrides.
  abbrev pub OwnSlot : ℕ → Bytes → CoolMethod → Type 0
  OwnSlot next n m =
      (inherited output cls n ≡ none)
      × (m.slot.declaring_class ≡ cls.name)
      × (0 < m.slot.vtable_index)
      × (m.slot.vtable_index < next)

  abbrev pub InheritedSlot : Bytes → CoolMethod → Type 0
  InheritedSlot n m = (k : CoolMethod) × (inherited output cls n ≡ some k) × (m.slot ≡ k.slot)

  pub record HasSlot (next : ℕ) (n : Bytes) (m : CoolMethod) : Type 0 where
    pub declared : m.declaring_class ≡ cls.name
    pub slot : OwnSlot next n m ⊎ InheritedSlot n m

  pub record HasSlots (s : Slots) : Type 0 where
    pub same_name : s.cls.name ≡ cls.name
    pub same_parent : s.cls.parent ≡ cls.parent
    pub slots :
        (n : Bytes) (m : CoolMethod)
        → find_method n s.cls.methods ≡ some m
        → HasSlot s.next_vtable_index n m
    pub distinct :
        (n o : Bytes) (m k : CoolMethod)
        → find_method n s.cls.methods ≡ some m
        → find_method o s.cls.methods ≡ some k
        → inherited output cls n ≡ none
        → inherited output cls o ≡ none
        → m.slot.vtable_index ≡ k.slot.vtable_index
        → n ≡ o
    pub keyed : Keyed s.cls.methods
    pub started : 0 < s.next_vtable_index

  own :
      {next : ℕ} (n : Bytes) (m : CoolMethod)
      → inherited output cls n ≡ none
      → HasSlot next n m
      → OwnSlot next n m
  own n m e h = elim h.slot [ inl x ↦ x | inr (k, e', x) ↦ absurd (none-ne-some k (sym e ∙ e')) ]

  pub same_inherited :
      (s : Slots) (n : Bytes) → HasSlots s → inherited output s.cls n ≡ inherited output cls n
  same_inherited s n h =
      ap (λ p. elim p [ none ↦ none | some q ↦ lookup_method output q n ]) h.same_parent

  -- What a new first method of the class is found as.
  pub find-entered :
      (m : CoolMethod) (ms : List CoolMethod) (n : Bytes) (k : CoolMethod)
      → find_method n (m ∷ ms) ≡ some k
      → ((m.slot.name ≡ n) × (k ≡ m)) ⊎ (find_method n ms ≡ some k)
  unfolding find_method
  find-entered m ms n k h = elim (Bool-cases (equal m.slot.name n)) [
    | inl e ↦ inl (equal→eq m.slot.name n e, sym (some-injective m k (rw e at h)))
    | inr e ↦ inr (rw e at h)
  ]

  HasSlot-later :
      {next next' : ℕ} (n : Bytes) (m : CoolMethod)
      → next ≤ next'
      → HasSlot next n m
      → HasSlot next' n m
  HasSlot-later n m le h = record {
    declared = h.declared;
    slot = elim h.slot [ inl (e, d, lo, hi) ↦ inl (e, d, lo, omega arith) | inr x ↦ inr x ];
  }

  -- A method enters whose slot is its own, with the next index, or inherited.
  pub HasSlots-enter :
      (s s' : Slots) (m : CoolMethod)
      → s'.cls ≡ record (s.cls) { methods = m ∷ s.cls.methods }
      → s.next_vtable_index ≤ s'.next_vtable_index
      → find_method m.slot.name s.cls.methods ≡ none
      → HasSlot s'.next_vtable_index m.slot.name m
      → (inherited output cls m.slot.name ≡ none → m.slot.vtable_index ≡ s.next_vtable_index)
      → HasSlots s
      → HasSlots s'
  HasSlots-enter s s' m e le first new last h = record {
    same_name = ap (λ (c : CoolClass). c.name) e ∙ h.same_name;
    same_parent = ap (λ (c : CoolClass). c.parent) e ∙ h.same_parent;
    slots = λ n k f. elim (find-entered m s.cls.methods n k (back n f)) [
      | inl (x, y) ↦
          subst (λ z. HasSlot s'.next_vtable_index z k) x
            (subst (HasSlot s'.next_vtable_index m.slot.name) (sym y) new)
      | inr g ↦ HasSlot-later n k le (h.slots n k g)
    ];
    distinct = λ n o k l f g x y i. elim (find-entered m s.cls.methods n k (back n f)) [
      | inl (a, b) ↦ elim (find-entered m s.cls.methods o l (back o g)) [
        | inl (a', b') ↦ sym a ∙ a'
        | inr g' ↦
            let (z, d, lo, hi) = own o l y (h.slots o l g') in
            absurd (omega (arith, index_of n k a b x))
      ]
      | inr f' ↦ elim (find-entered m s.cls.methods o l (back o g)) [
        | inl (a', b') ↦
            let (z, d, lo, hi) = own n k x (h.slots n k f') in
            absurd (omega (arith, index_of o l a' b' y))
        | inr g' ↦ h.distinct n o k l f' g' x y i
      ]
    ];
    keyed = subst (λ (c : CoolClass). Keyed c.methods) (sym e) (first, h.keyed);
    started = omega (arith, h.started);
  }
    where
      back :
          (n : Bytes) {k : CoolMethod}
          → find_method n s'.cls.methods ≡ some k
          → find_method n (m ∷ s.cls.methods) ≡ some k
      back n f = ap (λ (c : CoolClass). find_method n c.methods) (sym e) ∙ f

      index_of :
          (n : Bytes) (k : CoolMethod)
          → m.slot.name ≡ n
          → k ≡ m
          → inherited output cls n ≡ none
          → k.slot.vtable_index ≡ s.next_vtable_index
      index_of n k a b x =
          ap (λ (z : CoolMethod). z.slot.vtable_index) b ∙ last (ap (inherited output cls) a ∙ x)
