-- ===== src/Codegen/Members.antt =====
-- The members of `cool_class` that build code return without an error on the classes that a ready table
-- holds; an upcast gives a value exactly if its class is a subclass.
use lcool.Base.{
  ℕ, Bool, true, false, get_elem?, ap₂, Option, some, List, ◌∷◌, ◌≡◌, ◌||◌, ◌==◌, refl, sym, ap,
  ◌∙◌, subst, Bytes, codes, equal, equal_refl,
}
use mathlib.Core.Bool.{true≢false}
use mathlib.Core.Option.{none-ne-some}
use lcool.Program.{LlvmType, int1, int32, pointer, CoolClass, CoolMethod, Table, lookup_class}
use lcool.Program.Order.{Holds, Below}
use lcool.Codegen.Builder.{Value, ValueAndCls, M, ◌>>=◌}
use lcool.Codegen.Builds.{
  Scope, Any, BuildsIn, Builds-pure, Builds-bind, Builds-then, Builds-if, Builds-emit,
  Builds-not_null, Builds-weaken,
}
use lcool.Codegen.Classes.{
  class_of, call_global, root_of, upcast_ref, upcast_value, upcast_to, is_value, upcast_to_object,
  object_value, type_of, cast_pointer, on_object, ensure_not_null, new_object_of, create_object,
  load_function, call_function, call_method, downcast, same_type,
}
use lcool.Codegen.Ready.{
  IsReady, Holds-class, Below-Holds, steps_up_returns, root_of-Below, value-parent,
}

-- A pointer that is not null.
abbrev pub IsSome : {A : Type 0} → Option A → Type 0
IsSome {A} o = (a : A) × (o ≡ some a)

-- The function of the method takes an object of the class that declares its slot.
pub record TakesObject (t : Table) (m : CoolMethod) : Type 0 where
  pub object : CoolClass
  pub object_stands : lookup_class m.slot.declaring_class t ≡ some object
  pub takes : get_elem? m.func.parameters 0 ≡ some object.llvm_type

same_type_refl : (ty : LlvmType) → same_type ty ty ≡ true
unfolding same_type
same_type_refl int1 = refl
same_type_refl int32 = refl
same_type_refl (pointer p) = equal_refl p

module _ {in_init : Bool} {s : Scope} (t : Table) (r : IsReady t) where
  pub class_of-Builds :
      (a : Bytes) (c : CoolClass)
      → lookup_class a t ≡ some c
      → BuildsIn in_init s (λ d. d ≡ c) (class_of t a)
  unfolding class_of
  class_of-Builds a c e = Builds-not_null (lookup_class a t) c e

  pub call_global-Builds : (f : Bytes) (vs : List Value) → BuildsIn in_init s Any (call_global f vs)
  unfolding call_global
  call_global-Builds f vs = Builds-emit _

  upcast_ref-Builds :
      (a b : Bytes) (v : Value) → Below t a b → BuildsIn in_init s IsSome (upcast_ref t a v b)
  unfolding upcast_ref
  upcast_ref-Builds a b v x =
      let (n, e) = steps_up_returns t a b x in
      rw (e, upcast_ref) (Builds-then (Builds-emit _) (λ w. Builds-pure _ (w, refl)))

  upcast_value-Builds :
      (c : CoolClass) (v : Value) (b : Bytes)
      → c.parent ≡ some b
      → BuildsIn in_init s IsSome (upcast_value c v b)
  unfolding upcast_value
  upcast_value-Builds c v b e =
      rw (e, upcast_value)
        (Builds-if (equal b b)
          (λ h. Builds-then (call_global-Builds _ _) (λ w. Builds-pure _ (w, refl)))
          (λ h. absurd (true≢false (sym (equal_refl b) ∙ h))))

  pub upcast_to-Builds :
      (a b : Bytes) (v : Value) → Below t a b → BuildsIn in_init s IsSome (upcast_to t a v b)
  unfolding upcast_to
  upcast_to-Builds a b v x =
      let (c, e) = Holds-class t a (Below-Holds t a b x) in
      Builds-if (equal b a) (λ h. Builds-pure _ (v, refl))
        (λ h. Builds-bind (class_of-Builds a c e) (λ d p.
          Builds-if (is_value d.llvm_type)
            (λ i. upcast_value-Builds d v b (
              ap (λ y. y.parent) p
              ∙ value-parent t a b c r e (ap (λ y. is_value y.llvm_type) (sym p) ∙ i) h x))
            (λ i. upcast_ref-Builds a b v x)))

  -- An upcast whose result goes on.
  pub upcast_to-then :
      {B : Type 0} {Q : B → Type 0} (f : Option Value → M B) (a b : Bytes) (v : Value)
      → Below t a b
      → ((w : Value) → BuildsIn in_init s Q (f (some w)))
      → BuildsIn in_init s Q (upcast_to t a v b >>= f)
  upcast_to-then {Q} f a b v x y =
      Builds-bind (upcast_to-Builds a b v x)
        (λ o p. subst (λ o'. BuildsIn in_init s Q (f o')) (sym p.1) (y p.0))

  pub object_value-Builds :
      (a : Bytes) (v : Value) → Holds t a → BuildsIn in_init s Any (object_value t a v)
  unfolding object_value upcast_to_object
  object_value-Builds a v h =
      let (root, e, x) = root_of-Below t a r.well_formed h in
      Builds-bind
        (Builds-bind (Builds-not_null (root_of t a) root e)
          (λ d p. upcast_to-Builds a d v (subst (Below t a) (sym p) x)))
        (λ o p. Builds-weaken (Builds-not_null o p.0 p.1) (λ w q. tt))

  pub type_of-Builds : (a : Bytes) → Holds t a → BuildsIn in_init s Any (type_of t a)
  unfolding type_of
  type_of-Builds a h =
      let (c, e) = Holds-class t a h in
      Builds-bind (class_of-Builds a c e) (λ d p. Builds-pure _ tt)

  pub on_object-Builds :
      (name a : Bytes) (v : Value) → Holds t a → BuildsIn in_init s Any (on_object name t a v)
  unfolding on_object
  on_object-Builds name a v h =
      let (c, e) = Holds-class t a h in
      Builds-bind (class_of-Builds a c e) (λ d p.
        Builds-if (is_value d.llvm_type) (λ i. Builds-pure _ tt)
          (λ i.
            Builds-then (object_value-Builds a v h)
              (λ w. Builds-then (call_global-Builds _ _) (λ u. Builds-pure _ tt))))

  pub ensure_not_null-Builds :
      (a : Bytes) (v : Value) → Holds t a → BuildsIn in_init s Any (ensure_not_null t a v)
  unfolding ensure_not_null
  ensure_not_null-Builds a v h =
      Builds-if (equal a (codes "String")) (λ e. Builds-pure _ tt) (λ e. on_object-Builds _ a v h)

  new_object_of-Builds : (a : Bytes) → Holds t a → BuildsIn in_init s Any (new_object_of t a)
  unfolding new_object_of cast_pointer
  new_object_of-Builds a h =
      let (c, e) = Holds-class t a h in
      let (root, i, x) = root_of-Below t a r.well_formed h in
      Builds-bind (class_of-Builds a c e) (λ d p.
        Builds-bind (Builds-not_null (root_of t a) root i) (λ root' q.
          Builds-bind
            (Builds-if (equal root' a) (λ k. Builds-pure _ (_, refl))
              (λ k. upcast_ref-Builds a root' _ (subst (Below t a) (sym q) x)))
            (λ o z.
              Builds-bind (Builds-not_null o z.0 z.1)
                (λ w y. Builds-then (call_global-Builds _ _) (λ u. Builds-emit _)))))

  pub create_object-Builds : (a : Bytes) → Holds t a → BuildsIn in_init s Any (create_object t a)
  unfolding create_object
  create_object-Builds a h =
      let (c, e) = Holds-class t a h in
      Builds-bind (class_of-Builds a c e) (λ d p.
        Builds-if (is_value d.llvm_type) (λ i. Builds-pure _ tt)
          (λ i.
            Builds-if (equal a (codes "String"))
              (λ k. Builds-then (on_object-Builds _ a _ h) (λ u. Builds-pure _ tt))
              (λ k. new_object_of-Builds a h)))

  load_function-Builds :
      (c : Bytes) (i : ℕ) (v : Value) → BuildsIn in_init s Any (load_function c i v)
  unfolding load_function
  load_function-Builds c i v = Builds-then (Builds-emit _) (λ a.
      Builds-then (Builds-emit _)
        (λ b. Builds-then (Builds-emit _) (λ c'. Builds-then (Builds-emit _) (λ d. Builds-emit _))))

  call_function-Builds :
      (m : CoolMethod) (self : Value) (args : List Value) (static_call : Bool)
      → Holds t m.slot.declaring_class
      → Holds t m.declaring_class
      → BuildsIn in_init s Any (call_function t m self args static_call)
  unfolding call_function
  call_function-Builds m self args static_call h k =
      let (c, e) = Holds-class t m.declaring_class k in
      Builds-then (object_value-Builds m.slot.declaring_class self h) (λ o.
        Builds-bind (class_of-Builds m.declaring_class c e) (λ d p.
          Builds-then {P = Any}
            (Builds-if (static_call || m.slot.vtable_index == 0 || d.final) (λ i. Builds-pure _ tt)
              (λ i. load_function-Builds _ _ _))
            (λ f. Builds-emit _)))

  -- The function takes an object of the class of the slot.
  pub call_method-Builds :
      (m : CoolMethod) (self : ValueAndCls) (args : List ValueAndCls) (static_call : Bool)
      → self.cls ≡ m.slot.declaring_class
      → TakesObject t m
      → Holds t m.declaring_class
      → BuildsIn in_init s Any (call_method t m (self ∷ args) static_call)
  unfolding call_method type_of
  call_method-Builds m self args static_call p x k =
      let e = ap (λ c. lookup_class c t) p ∙ x.object_stands in
      Builds-bind (Builds-not_null (get_elem? m.func.parameters 0) x.object.llvm_type x.takes)
        (λ expected q.
          Builds-bind {P = λ y. y ≡ x.object.llvm_type}
            (Builds-bind (class_of-Builds self.cls x.object e)
              (λ d j. Builds-pure _ (ap (λ c. c.llvm_type) j)))
            (λ given q'.
              Builds-if (same_type expected given)
                (λ h.
                  call_function-Builds m self.value _ static_call
                    (λ n. none-ne-some x.object (sym n ∙ x.object_stands)) k)
                (λ h. absurd (
                  true≢false
                    (sym (same_type_refl x.object.llvm_type) ∙ sym (ap₂ same_type q q') ∙ h)))))

  pub downcast-Builds :
      (cls : CoolClass) (p : Bytes) (ty : LlvmType) (v : Value)
      → ty ≡ pointer p
      → lookup_class cls.name t ≡ some cls
      → is_value cls.llvm_type ≡ false
      → BuildsIn in_init s Any (downcast t cls.name ty v)
  unfolding downcast cast_pointer
  downcast-Builds cls p ty v w e i =
      subst (λ k. BuildsIn in_init s Any (downcast t cls.name k v)) (sym w)
        (Builds-bind (class_of-Builds cls.name cls e) (λ d q.
          Builds-if (is_value d.llvm_type)
            (λ h. absurd (true≢false (sym h ∙ ap (λ k. is_value k.llvm_type) q ∙ i)))
            (λ h. Builds-emit _)))
