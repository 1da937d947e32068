-- ===== src/Layout/Attributes/Placing.antt =====
-- Every attribute of a class has an element of its structure to itself (src/layout.cpp).
use lcool.Base.{
  ℕ, ◌<◌, ◌≡◌, ◌⊎◌, refl, sym, ap, ◌∙◌, subst, ◌++◌, ◌||◌, Bool, true, false, some, List, [], ◌∷◌,
  Bytes, equal, equal→eq, if◌then◌else◌, Bool-cases, inl, inr, length, get_elem?, get_elem?-append,
  get_elem?-append_last, get_elem?-lt, arith,
}
use mathlib.Core.Bool.{true≢false}
use mathlib.Core.Option.{none-ne-some, some-injective}
use lcool.Program.{LlvmType, CoolClass, CoolAttribute, Table, lookup_class, find_attribute}
use lcool.Layout.Attributes.{value, Pending, Fields, set_struct_index}

find_attribute-set_self :
    (name : Bytes) (k : ℕ) (attrs : List CoolAttribute) (a : CoolAttribute)
    → find_attribute name attrs ≡ some a
    → find_attribute name (set_struct_index name k attrs) ≡ some (record a { struct_index = k })
unfolding find_attribute set_struct_index
find_attribute-set_self name k [] a h = absurd (none-ne-some a h)
find_attribute-set_self name k (b ∷ rest) a h = elim (Bool-cases (equal b.name name)) [
  | inl e ↦
      rw (e, find_attribute, e)
        (ap (λ (x : CoolAttribute). some (record x { struct_index = k }))
          (some-injective b a (rw e at h)))
  | inr e ↦ rw (e, find_attribute, e) (find_attribute-set_self name k rest a (rw e at h))
]

find_attribute-set_ne :
    (name other : Bytes) (k : ℕ) (attrs : List CoolAttribute)
    → equal name other ≡ false
    → find_attribute other (set_struct_index name k attrs) ≡ find_attribute other attrs
unfolding find_attribute set_struct_index
find_attribute-set_ne name other k [] h = refl
find_attribute-set_ne name other k (b ∷ rest) h = elim (Bool-cases (equal b.name name)) [
  | inl e ↦
      let n = ap (λ x. equal x other) (equal→eq b.name name e) ∙ h in rw (e, find_attribute, n) refl
  | inr e ↦
      rw (e, find_attribute)
        (ap (λ o. if equal b.name other then some b else o)
          (find_attribute-set_ne name other k rest h))
]

abbrev pub waits : Bytes → Pending → Bool
waits n [] = false
waits n ((m, t) ∷ q) = equal m n || waits n q

pub waits-append : (n : Bytes) (p q : Pending) → waits n (p ++ q) ≡ (waits n p || waits n q)
waits-append n [] q = refl
waits-append n ((m, t) ∷ p) q = elim (Bool-cases (equal m n)) [
  | inl e ↦ rw e refl
  | inr e ↦ rw (e, waits-append n p q) refl
]

pub or-false : (x y : Bool) → (x || y) ≡ false → (x ≡ false) × (y ≡ false)
or-false true y h = absurd (true≢false h)
or-false false y h = (refl, h)

module _ (output : Table) where
  -- The class of the name has the LLVM type `t`.
  abbrev pub HasType : Bytes → LlvmType → Type 0
  HasType type t = (c : CoolClass) × (lookup_class type output ≡ some c) × (c.llvm_type ≡ t)

  abbrev pub Queued : Pending → List CoolAttribute → Type 0
  Queued [] attrs = Unit {0}
  Queued ((n, t) ∷ q) attrs =
      ((a : CoolAttribute) × (find_attribute n attrs ≡ some a) × HasType a.type t) × Queued q attrs

  -- Each attribute that does not wait in `q` stands at an element of its type, and no two at the same.
  pub record IsPlaced (q : Pending) (s : Fields) : Type 0 where
    pub placed :
        (n : Bytes) (a : CoolAttribute)
        → find_attribute n s.attributes ≡ some a
        → waits n q ≡ false
        → (t : LlvmType) × HasType a.type t × (get_elem? s.elements a.struct_index ≡ some (value t))
    pub distinct :
        (n m : Bytes) (a b : CoolAttribute)
        → find_attribute n s.attributes ≡ some a
        → find_attribute m s.attributes ≡ some b
        → waits n q ≡ false
        → waits m q ≡ false
        → a.struct_index ≡ b.struct_index
        → n ≡ m
    pub queued : Queued q s.attributes

  -- Attributes and queue change, but those that do not wait are old ones.
  abbrev pub Old : Pending → Fields → Pending → Fields → Bytes → CoolAttribute → Type 0
  Old q s q' s' m a = (find_attribute m s.attributes ≡ some a) × (waits m q ≡ false)

  -- One attribute takes the element that is added at the end.
  abbrev pub Last : Bytes → LlvmType → Fields → Bytes → CoolAttribute → Type 0
  Last n t s m a = (n ≡ m) × (a.struct_index ≡ length s.elements) × HasType a.type t

  abbrev pub OldOrLast : Bytes → LlvmType → Pending → Fields → Pending → Fields → Type 0
  OldOrLast n t q s q' s' =
      (m : Bytes) (a : CoolAttribute)
      → find_attribute m s'.attributes ≡ some a
      → waits m q' ≡ false
      → Last n t s m a ⊎ Old q s q' s' m a

  old_in :
      {q : Pending} {s : Fields} (m : Bytes) (a : CoolAttribute)
      → IsPlaced q s
      → find_attribute m s.attributes ≡ some a
      → waits m q ≡ false
      → a.struct_index < length s.elements
  old_in {q} {s} m a h f w =
      let (t, k, e) = h.placed m a f w in get_elem?-lt s.elements a.struct_index (value t) e

  pub IsPlaced-last :
      (n : Bytes) (t : LlvmType) (q : Pending) (s : Fields) (q' : Pending) (s' : Fields)
      → s'.elements ≡ s.elements ++ value t ∷ []
      → OldOrLast n t q s q' s'
      → Queued q' s'.attributes
      → IsPlaced q s
      → IsPlaced q' s'
  IsPlaced-last n t q s q' s' e split queue h = record {
    placed = λ m a f w. elim (split m a f w) [
      | inl (s, k, y) ↦ (t, y, at_end a k)
      | inr (g, v) ↦ let (u, y, x) = h.placed m a g v in (u, y, before a u (old_in m a h g v) x)
    ];
    distinct = λ m o a b f g v w k. elim (split m a f v) [
      | inl (x, y, z) ↦ elim (split o b g w) [
        | inl (x', y', z') ↦ sym x ∙ x'
        | inr (g', w') ↦ absurd (omega (arith, old_in o b h g' w'))
      ]
      | inr (f', v') ↦ elim (split o b g w) [
        | inl (x', y', z') ↦ absurd (omega (arith, old_in m a h f' v'))
        | inr (g', w') ↦ h.distinct m o a b f' g' v' w' k
      ]
    ];
    queued = queue;
  }
    where
      at_end :
          (a : CoolAttribute)
          → a.struct_index ≡ length s.elements
          → get_elem? s'.elements a.struct_index ≡ some (value t)
      at_end a k =
          ap (λ l. get_elem? l a.struct_index) e
          ∙ ap (get_elem? (s.elements ++ value t ∷ [])) k
          ∙ get_elem?-append_last s.elements (value t)

      before :
          (a : CoolAttribute) (u : LlvmType)
          → a.struct_index < length s.elements
          → get_elem? s.elements a.struct_index ≡ some (value u)
          → get_elem? s'.elements a.struct_index ≡ some (value u)
      before a u lt x =
          ap (λ l. get_elem? l a.struct_index) e
          ∙ get_elem?-append s.elements (value t ∷ []) a.struct_index lt
          ∙ x

  pub Queued-keep :
      (q : Pending) (xs ys : List CoolAttribute)
      → ((m : Bytes) (a : CoolAttribute)
          → find_attribute m xs ≡ some a
          → (b : CoolAttribute) × (find_attribute m ys ≡ some b) × (b.type ≡ a.type))
      → Queued q xs
      → Queued q ys
  Queued-keep [] xs ys keep h = tt
  Queued-keep ((n, t) ∷ q) xs ys keep ((a, f, k), h) =
      let (b, g, e) = keep n a f in
      ((b, g, subst (λ y. HasType y t) (sym e) k), Queued-keep q xs ys keep h)

  pub Queued-append :
      (p q : Pending) (xs : List CoolAttribute) → Queued p xs → Queued q xs → Queued (p ++ q) xs
  Queued-append [] q xs h k = k
  Queued-append ((n, t) ∷ p) q xs (h, hs) k = (h, Queued-append p q xs hs k)

  pub Queued-left : (p q : Pending) (xs : List CoolAttribute) → Queued (p ++ q) xs → Queued p xs
  Queued-left [] q xs h = tt
  Queued-left ((n, t) ∷ p) q xs (h, hs) = (h, Queued-left p q xs hs)

  pub Queued-right : (p q : Pending) (xs : List CoolAttribute) → Queued (p ++ q) xs → Queued q xs
  Queued-right [] q xs h = h
  Queued-right ((n, t) ∷ p) q xs (h, hs) = Queued-right p q xs hs

  abbrev pub place : Bytes → LlvmType → Fields → Fields
  place name t s = record s {
    attributes = set_struct_index name (length s.elements) s.attributes;
    elements = s.elements ++ value t ∷ [];
  }

  -- The first of the queue is placed.
  pub IsPlaced-place :
      (n : Bytes) (t : LlvmType) (q : Pending) (s : Fields)
      → IsPlaced ((n, t) ∷ q) s
      → IsPlaced q (place n t s)
  IsPlaced-place n t q s h =
      let (a, f, k) = h.queued.0 in
      IsPlaced-last n t ((n, t) ∷ q) s q (place n t s) refl (split a f k)
        (Queued-keep q s.attributes (place n t s).attributes (keep a f) h.queued.1) h
    where
      split :
          (a : CoolAttribute)
          → find_attribute n s.attributes ≡ some a
          → HasType a.type t
          → OldOrLast n t ((n, t) ∷ q) s q (place n t s)
      split a f k m b g w = elim (Bool-cases (equal n m)) [
        | inl e ↦
            let s' = find_attribute-set_self n (length s.elements) s.attributes a f in
            let x = equal→eq n m e in
            let b' =
              some-injective _ b
                (sym s' ∙ ap (λ y. find_attribute y (place n t s).attributes) x ∙ g) in
            inl (
              x,
              ap (λ (y : CoolAttribute). y.struct_index) (sym b'),
              subst (λ (y : CoolAttribute). HasType y.type t) b' k,
            )
        | inr e ↦
            inr (sym (find_attribute-set_ne n m (length s.elements) s.attributes e) ∙ g, rw e w)
      ]

      keep :
          (a : CoolAttribute)
          → find_attribute n s.attributes ≡ some a
          → (m : Bytes) (b : CoolAttribute) → find_attribute m s.attributes ≡ some b
          → (b' : CoolAttribute) × (find_attribute m (place n t s).attributes ≡ some b')
            × (b'.type ≡ b.type)
      keep a f m b g = elim (Bool-cases (equal n m)) [
        | inl e ↦
            let x = equal→eq n m e in
            let g' = ap (λ y. find_attribute y s.attributes) x ∙ g in
            (
              record b { struct_index = length s.elements },
              ap (λ y. find_attribute y (place n t s).attributes) (sym x)
                  ∙ find_attribute-set_self n (length s.elements) s.attributes b g',
              refl,
            )
        | inr e ↦ (b, find_attribute-set_ne n m (length s.elements) s.attributes e ∙ g, refl)
      ]
