-- ===== src/Codegen/Objects.antt =====
-- The constructor, the copy constructor and the destructor of a class (src/codegen.cpp), if the table has
-- what they ask for and the initializers are typed.
use lcool.Base.{some, List, [], ◌∷◌, ◌≡◌, refl, sym, ap, ◌∙◌, subst, Bytes, codes, Bool, false}
use lcool.Logger.{Location}
use lcool.Ast.{Attribute, attribute, Class, Expr, null, expr}
use lcool.Program.{CoolAttribute, CoolClass, Function, Table, lookup_class, lookup_attribute}
use lcool.Program.Order.{Holds, Below}
use lcool.Codegen.Builder.{Value, argument}
use lcool.Codegen.Builds.{
  Scope, Any, Builds, BuildsIn, Builds-pure, Builds-bind, Builds-then, Builds-emit, Builds-not_null,
  Builds-new_block, Builds-set_insert_point,
}
use lcool.Codegen.Classes.{is_value, cast_pointer}
use lcool.Codegen.Visit.{value_and_cls, get_slot_pointer, load_attribute, store_attribute}
use lcool.Codegen.Case.{Sort}
use lcool.Codegen.Functions.{
  Target, context, constructor, copy_constructor, destructor, object_pointer, copy_attributes,
  gen_copy_constructor, destroy_attributes, gen_destructor, initialize_attributes, run_initializers,
  gen_constructor,
}
use lcool.Codegen.Ready.{IsReady}
use lcool.Codegen.Members.{on_object-Builds, downcast-Builds}
use lcool.Codegen.Typing.{class_in, self, Typed}
use lcool.Codegen.Scopes.{Opens-after, Opens-then}
use lcool.Codegen.Visitors.{coerce-then}
use lcool.Codegen.Joins.{default_initializer-Builds}
use lcool.Codegen.Branches.{KeepsSorted}
use lcool.Codegen.Sound.{evaluate-Builds}
use lcool.Codegen.Methods.{add_argument-Opens}
use lcool.Codegen.Run.{Output, build}
use lcool.Codegen.Built.{IsBuilt, names, is_defined, build-init, build-empty}

-- The vtable of the class has the functions of an object.
pub record HasFunctions (t : Target) (cls : Bytes) : Type 0 where
  pub constructs : Function
  pub has_constructor : constructor t cls ≡ some constructs
  pub copies : Function
  pub has_copy_constructor : copy_constructor t cls ≡ some copies
  pub destroys : Function
  pub has_destructor : destructor t cls ≡ some destroys

abbrev pub AllHeld : Table → List CoolAttribute → Type 0
AllHeld t [] = Unit {0}
AllHeld t (a ∷ rest) = Holds t a.type × AllHeld t rest

-- A class as the layout leaves it.
pub record IsClass (t : Target) (cls : CoolClass) : Type 0 where
  pub stands : lookup_class cls.name t.program ≡ some cls
  pub by_reference : is_value cls.llvm_type ≡ false
  pub own : HasFunctions t cls.name
  pub parent : Bytes
  pub has_parent : cls.parent ≡ some parent
  pub inherited : HasFunctions t parent
  pub attributes : AllHeld t.program cls.attributes

-- Every initializer has a class below that of its attribute.
pub data TypedInitializers (t : Target) (cls : CoolClass) : List Attribute → Type 0 where
  no_initializers : TypedInitializers t cls []
  uninitialized :
      {loc : Location} {name type : Bytes} {rest : List Attribute}
      → TypedInitializers t cls rest
      → TypedInitializers t cls (attribute loc name type null ∷ rest)
  initialized :
      {loc : Location} {name type c : Bytes} {e : Expr} {a : CoolAttribute} {rest : List Attribute}
      → Typed (context t cls.name) ((self, cls.name) ∷ []) e c
      → lookup_attribute cls name ≡ some a
      → Below t.program c a.type
      → TypedInitializers t cls rest
      → TypedInitializers t cls (attribute loc name type (expr e) ∷ rest)

load_attribute-Builds :
    {in_init : Bool} {s : Scope} (v : Value) (a : CoolAttribute)
    → BuildsIn in_init s Any (load_attribute v a)
unfolding load_attribute get_slot_pointer
load_attribute-Builds v a = Builds-then (Builds-emit _) (λ p. Builds-emit _)

store_attribute-Builds :
    {in_init : Bool} {s : Scope} (v : Value) (a : CoolAttribute) (w : Value)
    → BuildsIn in_init s Any (store_attribute v a w)
unfolding store_attribute get_slot_pointer
store_attribute-Builds v a w =
    Builds-then (Builds-emit _) (λ p. Builds-then (Builds-emit _) (λ u. Builds-pure _ tt))

module _ (t : Target) (r : IsReady t.program) where
  copy_attributes-Builds :
      {in_init : Bool} {s : Scope} (x y : Value) (attributes : List CoolAttribute)
      → AllHeld t.program attributes
      → BuildsIn in_init s Any (copy_attributes t x y attributes)
  unfolding copy_attributes
  copy_attributes-Builds x y [] h = Builds-pure _ tt
  copy_attributes-Builds x y (a ∷ rest) (h, hs) = Builds-then (load_attribute-Builds y a) (λ v.
      Builds-then (on_object-Builds t.program r _ a.type v h)
        (λ u. Builds-then (store_attribute-Builds x a v) (λ u. copy_attributes-Builds x y rest hs)))

  pub gen_copy_constructor-IsBuilt :
      (cls : CoolClass) (out : Output) (name : Bytes)
      → is_defined name (names out) ≡ false
      → IsClass t cls
      → IsBuilt out (name ∷ names out) (build name (gen_copy_constructor t cls) out)
  unfolding gen_copy_constructor
  gen_copy_constructor-IsBuilt cls out name new x = build-empty name _ out new (
      Builds-then (Builds-new_block _) (λ block. Builds-then (Builds-set_insert_point block) (λ u.
        Builds-then
          (downcast-Builds t.program r cls (codes "Object") object_pointer (argument 0) refl
            x.stands x.by_reference)
          (λ v.
            Builds-then
              (downcast-Builds t.program r cls (codes "Object") object_pointer (argument 0) refl
                x.stands x.by_reference)
              (λ w. Builds-bind (Builds-not_null cls.parent x.parent x.has_parent) (λ parent p.
                Builds-then
                  (Builds-not_null (copy_constructor t parent) x.inherited.copies
                    (ap (copy_constructor t) p ∙ x.inherited.has_copy_constructor))
                  (λ f. Builds-then (Builds-emit _) (λ u.
                    Builds-then (copy_attributes-Builds v w cls.attributes x.attributes)
                      (λ u. Builds-then (Builds-emit _) (λ u. Builds-pure _ tt))))))))))

  destroy_attributes-Builds :
      {in_init : Bool} {s : Scope} (x : Value) (attributes : List CoolAttribute)
      → AllHeld t.program attributes
      → BuildsIn in_init s Any (destroy_attributes t x attributes)
  unfolding destroy_attributes
  destroy_attributes-Builds x [] h = Builds-pure _ tt
  destroy_attributes-Builds x (a ∷ rest) (h, hs) = Builds-then (load_attribute-Builds x a) (λ v.
      Builds-then (on_object-Builds t.program r _ a.type v h)
        (λ u. destroy_attributes-Builds x rest hs))

  pub gen_destructor-IsBuilt :
      (cls : CoolClass) (out : Output) (name : Bytes)
      → is_defined name (names out) ≡ false
      → IsClass t cls
      → IsBuilt out (name ∷ names out) (build name (gen_destructor t cls) out)
  unfolding gen_destructor
  gen_destructor-IsBuilt cls out name new x = build-empty name _ out new (
      Builds-then (Builds-new_block _) (λ block. Builds-then (Builds-set_insert_point block) (λ u.
        Builds-then
          (downcast-Builds t.program r cls (codes "Object") object_pointer (argument 0) refl
            x.stands x.by_reference)
          (λ v. Builds-then (destroy_attributes-Builds v cls.attributes x.attributes) (λ u.
            Builds-bind (Builds-not_null cls.parent x.parent x.has_parent) (λ parent p.
              Builds-then
                (Builds-not_null (destructor t parent) x.inherited.destroys
                  (ap (destructor t) p ∙ x.inherited.has_destructor))
                (λ f.
                  Builds-then (Builds-emit _)
                    (λ u. Builds-then (Builds-emit _) (λ u. Builds-pure _ tt)))))))))

  initialize_attributes-Builds :
      {s : Scope} (cls : Bytes) (x : Value) (attributes : List CoolAttribute)
      → AllHeld t.program attributes
      → Builds s Any (initialize_attributes t x attributes)
  unfolding initialize_attributes
  initialize_attributes-Builds cls x [] h = Builds-pure _ tt
  initialize_attributes-Builds cls x (a ∷ rest) (h, hs) =
      Builds-then (default_initializer-Builds (context t cls) r a.type h) (λ v.
        Builds-then (store_attribute-Builds x a v)
          (λ u. initialize_attributes-Builds cls x rest hs))

  run_initializers-Builds :
      (sort : Sort) (k : KeepsSorted sort) (cls : CoolClass) (x : Value)
      (attributes : List Attribute)
      → TypedInitializers t cls attributes
      → Builds ((self, cls.name) ∷ []) Any (run_initializers sort t cls x attributes)
  unfolding run_initializers
  run_initializers-Builds sort k cls x _ no_initializers = Builds-pure _ tt
  run_initializers-Builds sort k cls x _ (uninitialized ys) =
      run_initializers-Builds sort k cls x _ ys
  run_initializers-Builds sort k cls x _ (initialized {loc} {name} {c} {e} {a} y h b ys) =
      Builds-bind (evaluate-Builds sort (context t cls.name) ((self, cls.name) ∷ []) e c k r y)
        (λ v p. Builds-bind (Builds-not_null (lookup_attribute cls name) a h) (λ a' q.
          coerce-then (context t cls.name) r _ loc v a'.type c p
            (subst (λ k. Below t.program c k.type) (sym q) b)
            (λ w.
              Builds-then (store_attribute-Builds x a' w)
                (λ u. run_initializers-Builds sort k cls x _ ys))))

  pub gen_constructor-IsBuilt :
      (sort : Sort) (k : KeepsSorted sort) (input : Class) (cls : CoolClass) (out : Output)
      (name : Bytes)
      → is_defined name (names out) ≡ false
      → IsClass t cls
      → TypedInitializers t cls input.attributes
      → IsBuilt out (name ∷ names out) (build name (gen_constructor sort t input cls) out)
  unfolding gen_constructor cast_pointer class_in
  gen_constructor-IsBuilt sort k input cls out name new x y =
      build-init name _ out new (λ init_block. Opens-after (Builds-new_block _) (λ user_block u.
        Opens-after (Builds-set_insert_point init_block) (λ u u'.
          Opens-after (Builds-emit _) (λ self_ptr u. Opens-after (Builds-emit _) (λ v u.
            Opens-after (Builds-emit _) (λ u u'.
              Opens-then (add_argument-Opens t r [] self (value_and_cls self_ptr cls.name) refl)
                (λ u u'. Builds-then (Builds-set_insert_point user_block) (λ u.
                  Builds-bind (Builds-not_null cls.parent x.parent x.has_parent) (λ parent p.
                    Builds-then
                      (Builds-not_null (constructor t parent) x.inherited.constructs
                        (ap (constructor t) p ∙ x.inherited.has_constructor))
                      (λ f. Builds-then (Builds-emit _) (λ u.
                        Builds-then
                          (initialize_attributes-Builds cls.name v cls.attributes x.attributes)
                          (λ u.
                            Builds-then (run_initializers-Builds sort k cls v input.attributes y)
                              (λ u. Builds-then (Builds-emit _) (λ u.
                                Builds-then (Builds-set_insert_point init_block) (λ u.
                                  Builds-then (Builds-emit _) (λ u. Builds-pure _ tt))))))))))))))))
