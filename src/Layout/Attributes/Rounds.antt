-- ===== src/Layout/Attributes/Rounds.antt =====
-- The rounds of `process_attributes` (src/layout.cpp) keep the attributes placed.
use lcool.Base.{
  ◌≡◌, ◌⊎◌, refl, sym, ap, ◌∙◌, subst, ◌++◌, false, none, some, List, [], ◌∷◌, Bytes, equal,
  equal→eq, equal_refl, Bool-cases, Option-cases, inl, inr, length, append_assoc, append-nil,
}
use mathlib.Core.Bool.{true≢false}
use mathlib.Core.Option.{none-ne-some, some-injective}
use lcool.Logger.{Logger}
use lcool.Ast.{Attribute, attribute}
use lcool.Program.{
  LlvmType, int1, int32, pointer, CoolAttribute, Table, lookup_class, find_attribute,
}
use lcool.Layout.Attributes.{
  Pending, Fields, add_field, process_attribute, attributes_loop, place_loop, finish_fields,
}
use lcool.Layout.Attributes.Placing.{
  waits, waits-append, or-false, HasType, Queued, IsPlaced, IsPlaced-last, Queued-keep,
  Queued-append, Queued-left, Queued-right, place, IsPlaced-place,
}

module _ (output : Table) where
  place_loop-IsPlaced :
      (p q : Pending) (s : Fields) → IsPlaced output (p ++ q) s → IsPlaced output q (place_loop p s)
  unfolding place_loop
  place_loop-IsPlaced [] q s h = h
  place_loop-IsPlaced ((n, t) ∷ p) q s h =
      place_loop-IsPlaced p q (place output n t s) (IsPlaced-place output n t (p ++ q) s h)

  abbrev pub queue : Fields → Pending
  queue s = s.attrib_int ++ s.attrib_bool

  pub finish_fields-IsPlaced :
      (s : Fields) → IsPlaced output (queue s) s → IsPlaced output [] (finish_fields s)
  unfolding finish_fields
  finish_fields-IsPlaced s h =
      let h' = place_loop-IsPlaced s.attrib_int s.attrib_bool s h in
      place_loop-IsPlaced s.attrib_bool [] (place_loop s.attrib_int s) (
        subst (λ q. IsPlaced output q (place_loop s.attrib_int s)) (sym (append-nil s.attrib_bool))
          h')

  abbrev added : Bytes → Bytes → Fields → List CoolAttribute
  added name type s =
      record { name = name; type = type; struct_index = length s.elements } ∷ s.attributes

  find_attribute-added :
      (name type m : Bytes) (s : Fields) (a : CoolAttribute)
      → find_attribute m (added name type s) ≡ some a
      → ((name ≡ m) × (a ≡ record { name = name; type = type; struct_index = length s.elements }))
        ⊎ ((equal name m ≡ false) × (find_attribute m s.attributes ≡ some a))
  unfolding find_attribute
  find_attribute-added name type m s a h = elim (Bool-cases (equal name m)) [
    | inl e ↦ inl (equal→eq name m e, sym (some-injective _ a (rw e at h)))
    | inr e ↦ inr (e, rw e at h)
  ]

  -- A new name hides no attribute.
  added-keeps :
      (name type : Bytes) (s : Fields)
      → find_attribute name s.attributes ≡ none
      → (m : Bytes) (a : CoolAttribute) → find_attribute m s.attributes ≡ some a
      → (b : CoolAttribute) × (find_attribute m (added name type s) ≡ some b) × (b.type ≡ a.type)
  unfolding find_attribute
  added-keeps name type s new m a h = elim (Bool-cases (equal name m)) [
    | inl e ↦
        absurd (
          none-ne-some a
            (sym new ∙ ap (λ y. find_attribute y s.attributes) (equal→eq name m e) ∙ h))
    | inr e ↦ (a, rw e h, refl)
  ]

  -- A new attribute that is put into the queue needs no element yet.
  IsPlaced-wait :
      (name type : Bytes) (t : LlvmType) (s : Fields) (ints bools : Pending)
      → find_attribute name s.attributes ≡ none
      → ((m : Bytes)
          → waits m (ints ++ bools) ≡ false
          → (equal name m ≡ false) × (waits m (queue s) ≡ false))
      → Queued output (ints ++ bools) (added name type s)
      → IsPlaced output (queue s) s
      → IsPlaced output
          (ints ++ bools)
          (record s { attributes = added name type s; attrib_int = ints; attrib_bool = bools })
  IsPlaced-wait name type t s ints bools new fewer queued h = record {
    placed = λ m a f w. let (g, v) = old m a f w in h.placed m a g v;
    distinct = λ m o a b f g v w k.
        let (f', v') = old m a f v in
        let (g', w') = old o b g w in h.distinct m o a b f' g' v' w' k;
    queued = queued;
  }
    where
      old :
          (m : Bytes) (a : CoolAttribute)
          → find_attribute m (added name type s) ≡ some a
          → waits m (ints ++ bools) ≡ false
          → (find_attribute m s.attributes ≡ some a) × (waits m (queue s) ≡ false)
      old m a f w =
          let (e, v) = fewer m w in
          elim (find_attribute-added name type m s a f) [
            | inl (x, y) ↦ absurd (true≢false (sym (ap (equal name) (sym x) ∙ equal_refl name) ∙ e))
            | inr (e', g) ↦ (g, v)
          ]

  -- The end of either queue.
  waits-last :
      (name m : Bytes) (t : LlvmType) (p q : Pending)
      → waits m ((p ++ (name, t) ∷ []) ++ q) ≡ false
      → (equal name m ≡ false) × (waits m p ≡ false) × (waits m q ≡ false)
  waits-last name m t p q h =
      let (h1, h2) = or-false _ _ (sym (waits-append m (p ++ (name, t) ∷ []) q) ∙ h) in
      let (h3, h4) = or-false _ _ (sym (waits-append m p ((name, t) ∷ [])) ∙ h1) in
      ((or-false _ _ h4).0, h3, h2)

  new_entry :
      (name type : Bytes) (t : LlvmType) (s : Fields)
      → HasType output type t
      → Queued output ((name, t) ∷ []) (added name type s)
  unfolding find_attribute
  new_entry name type t s k = (
    (
      record { name = name; type = type; struct_index = length s.elements },
      rw (equal_refl name) refl,
      k,
    ),
    tt,
  )

  add_field-IsPlaced :
      (name type : Bytes) (t : LlvmType) (s : Fields)
      → find_attribute name s.attributes ≡ none
      → HasType output type t
      → IsPlaced output (queue s) s
      → IsPlaced output (queue (add_field name type t s)) (add_field name type t s)
  unfolding add_field
  add_field-IsPlaced name type (pointer p) s new k h =
      IsPlaced-last output name (pointer p) (queue s) s (queue s) _ refl
        (λ m a f w. elim (find_attribute-added name type m s a f) [
          | inl (e, x) ↦ inl (
            e,
            ap (λ (y : CoolAttribute). y.struct_index) x,
            subst (λ (y : CoolAttribute). HasType output y.type (pointer p)) (sym x) k,
          )
          | inr (e, g) ↦ inr (g, w)
        ])
        (Queued-keep output (queue s) s.attributes (added name type s) (added-keeps name type s new)
          h.queued)
        h
  add_field-IsPlaced name type int1 s new k h =
      let bools = s.attrib_bool ++ (name, int1) ∷ [] in
      let q =
        Queued-keep output (queue s) s.attributes (added name type s) (added-keeps name type s new)
          h.queued in
      IsPlaced-wait name type int1 s s.attrib_int bools new
        (λ m w.
          let w' = ap (waits m) (append_assoc s.attrib_int s.attrib_bool ((name, int1) ∷ [])) ∙ w in
          let (e, v, _) =
            waits-last name m int1 (queue s) []
              (ap (waits m) (append-nil (queue s ++ (name, int1) ∷ [])) ∙ w') in
          (e, v))
        (subst (λ q. Queued output q (added name type s))
          (append_assoc s.attrib_int s.attrib_bool ((name, int1) ∷ []))
          (Queued-append output (queue s) ((name, int1) ∷ []) (added name type s) q
            (new_entry name type int1 s k)))
        h
  add_field-IsPlaced name type int32 s new k h =
      let ints = s.attrib_int ++ (name, int32) ∷ [] in
      let q =
        Queued-keep output (queue s) s.attributes (added name type s) (added-keeps name type s new)
          h.queued in
      IsPlaced-wait name type int32 s ints s.attrib_bool new
        (λ m w.
          let (e, v, u) = waits-last name m int32 s.attrib_int s.attrib_bool w in
          (e, waits-append m s.attrib_int s.attrib_bool ∙ rw v u))
        (Queued-append output ints s.attrib_bool (added name type s)
          (Queued-append output s.attrib_int ((name, int32) ∷ []) (added name type s)
            (Queued-left output s.attrib_int s.attrib_bool (added name type s) q)
            (new_entry name type int32 s k))
          (Queued-right output s.attrib_int s.attrib_bool (added name type s) q))
        h

  process_attribute-IsPlaced :
      (a : Attribute) (s : Fields)
      → IsPlaced output (queue s) s
      → IsPlaced output (queue (process_attribute output a s)) (process_attribute output a s)
  unfolding process_attribute
  process_attribute-IsPlaced (attribute loc name type initial) s h =
      elim (Option-cases (lookup_class type output)) [
        | inl e ↦ rw (e, process_attribute) (relog h)
        | inr (c, e) ↦ elim (Option-cases (find_attribute name s.attributes)) [
          | inl new ↦
              rw (e, new, process_attribute)
                (add_field-IsPlaced name type c.llvm_type s new (c, e, refl) h)
          | inr (old, e') ↦ rw (e, e', process_attribute) (relog h)
        ]
      ]
    where
      relog :
          {log : Logger}
          → IsPlaced output (queue s) s
          → IsPlaced output (queue s) (record s { log = log })
      relog h = record { placed = h.placed; distinct = h.distinct; queued = h.queued }

  pub attributes_loop-IsPlaced :
      (attrs : List Attribute) (s : Fields)
      → IsPlaced output (queue s) s
      → IsPlaced output (queue (attributes_loop output attrs s)) (attributes_loop output attrs s)
  unfolding attributes_loop
  attributes_loop-IsPlaced [] s h = h
  attributes_loop-IsPlaced (a ∷ rest) s h =
      attributes_loop-IsPlaced rest (process_attribute output a s)
        (process_attribute-IsPlaced a s h)
