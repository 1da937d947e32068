-- ===== src/Codegen/Methods.antt =====
-- `gen_method` (src/codegen.cpp) on a method whose body has a class below the return type.
use lcool.Base.{
  ℕ, suc, none, some, List, [], ◌∷◌, ◌≡◌, refl, sym, ◌∙◌, subst, Bytes, false, get_elem?, length,
}
use lcool.Ast.{Method}
use lcool.Program.{LlvmType, pointer, CoolClass, CoolMethod, Table, lookup_class, find_method}
use lcool.Program.Order.{Holds, Below}
use lcool.Codegen.Builder.{argument, ValueAndCls}
use lcool.Codegen.Builds.{
  Scope, Any, Builds, Builds-pure, Builds-bind, Builds-then, Builds-emit, Builds-not_null,
  Builds-new_block, Builds-set_insert_point,
}
use lcool.Codegen.Classes.{is_value}
use lcool.Codegen.Visit.{value_and_cls}
use lcool.Codegen.Case.{Sort}
use lcool.Codegen.Functions.{
  Target, context, add_argument, add_parameters, return_result, gen_method,
}
use lcool.Codegen.Built.{IsBuilt, names, is_defined, build-init}
use lcool.Codegen.Run.{Output, build, gen_methods}
use lcool.Base.Options.{>>=-some}
use lcool.Codegen.Ready.{IsReady}
use lcool.Codegen.Members.{downcast-Builds, upcast_to-then, type_of-Builds}
use lcool.Codegen.Typing.{class_in, self, Typed}
use lcool.Codegen.Scopes.{
  Opens, Builds-Opens, Opens-after, Opens-push, Opens-bind, Opens-then, get-none-Opens,
}
use lcool.Codegen.Branches.{KeepsSorted}
use lcool.Codegen.Sound.{evaluate-Builds}

-- The parameters of a method from the `i`-th on, with new names, and the scopes before and after.
pub data Parameters (t : Table) (m : CoolMethod)
    : ℕ → Scope → List (Bytes × Bytes) → Scope → Type 0 where
  no_parameters : {i : ℕ} {s : Scope} → Parameters t m i s [] s
  more_parameters :
      {i : ℕ} {s s' : Scope} {name type c : Bytes} {given : LlvmType} {rest : List (Bytes × Bytes)}
      → get_elem? m.slot.parameter_types i ≡ some c
      → Holds t c
      → get_elem? m.func.parameters (suc i) ≡ some given
      → class_in name s ≡ none
      → Parameters t m (suc i) ((name, c) ∷ s) rest s'
      → Parameters t m i s ((name, type) ∷ rest) s'

-- A method of the class as the layout leaves it, whose body has a class below its return type; `s` is the scope
-- of the body.
pub record IsTypedMethod (t : Target) (input : Method) (cls : CoolClass) (m : CoolMethod)
    (s : Scope) : Type 0 where
  pub stands : lookup_class cls.name t.program ≡ some cls
  pub by_reference : is_value cls.llvm_type ≡ false
  pub this_class : Bytes
  pub this : get_elem? m.func.parameters 0 ≡ some (pointer this_class)
  pub parameters : Parameters t.program m 0 ((self, cls.name) ∷ []) input.params s
  pub result : Bytes
  pub body : Typed (context t m.declaring_class) s input.body result
  pub returned : Below t.program result m.slot.return_type

module _ (t : Target) (r : IsReady t.program) where
  pub add_argument-Opens :
      (s : Scope) (id : Bytes) (info : ValueAndCls)
      → class_in id s ≡ none
      → Opens s ((id, info.cls) ∷ s) 1 Any (add_argument id info)
  unfolding add_argument
  add_argument-Opens s id info e =
      get-none-Opens _ id e
        (Opens-bind (Opens-push id info) (λ u u'. Builds-Opens (Builds-pure _ tt)))

  add_parameters-Opens :
      (m : CoolMethod) (i : ℕ) (s s' : Scope) (params : List (Bytes × Bytes))
      → Parameters t.program m i s params s'
      → Opens s s' (length params) Any (add_parameters t m i params)
  unfolding add_parameters
  add_parameters-Opens m i s _ [] no_parameters = Builds-Opens (Builds-pure _ tt)
  add_parameters-Opens m i s s' ((name, type) ∷ rest) (more_parameters {c} {given} e h e' n x) =
      Opens-after (Builds-not_null (get_elem? m.slot.parameter_types i) c e) (λ c' p.
        Opens-after (type_of-Builds t.program r c' (subst (Holds t.program) (sym p) h)) (λ ty u.
          Opens-after (Builds-emit _) (λ ptr u.
            Opens-after (Builds-not_null (get_elem? m.func.parameters (suc i)) given e') (λ g u.
              Opens-after (Builds-emit _) (λ u u'.
                Opens-bind
                  (subst
                    (λ k. Opens s ((name, k) ∷ s) 1 Any (add_argument name (value_and_cls ptr c')))
                    p (add_argument-Opens s name (value_and_cls ptr c') n))
                  (λ u u'. add_parameters-Opens m (suc i) ((name, c) ∷ s) s' rest x))))))

  return_result-Builds :
      (s : Scope) (input : Method) (m : CoolMethod) (v : ValueAndCls)
      → Below t.program v.cls m.slot.return_type
      → Builds s Any (return_result t input m v)
  unfolding return_result
  return_result-Builds s input m v b =
      upcast_to-then t.program r _ v.cls m.slot.return_type v.value b
        (λ w. Builds-then (Builds-emit _) (λ u. Builds-pure _ tt))

  gen_method-IsBuilt :
      (sort : Sort) (k : KeepsSorted sort) (input : Method) (cls : CoolClass) (m : CoolMethod)
      (s : Scope) (out : Output)
      → is_defined m.func.name (names out) ≡ false
      → IsTypedMethod t input cls m s
      → IsBuilt out
          (m.func.name ∷ names out)
          (build m.func.name (gen_method sort t input cls m) out)
  unfolding gen_method class_in
  gen_method-IsBuilt sort k input cls m s out new x =
      build-init m.func.name _ out new (λ init_block.
        Opens-after (Builds-set_insert_point init_block) (λ u u'.
          Opens-after
            (Builds-not_null (get_elem? m.func.parameters 0) (pointer x.this_class) x.this)
            (λ ty p. Opens-after (Builds-emit _) (λ self_ptr u.
              Opens-after
                (downcast-Builds t.program r cls x.this_class ty (argument 0) p x.stands
                  x.by_reference)
                (λ v u. Opens-after (Builds-emit _) (λ u u'.
                  Opens-bind (add_argument-Opens [] self (value_and_cls self_ptr cls.name) refl)
                    (λ u u'.
                      Opens-then
                        (add_parameters-Opens m 0 ((self, cls.name) ∷ []) s input.params
                          x.parameters)
                        (λ u u'. Builds-then (Builds-new_block _) (λ user_block.
                          Builds-then (Builds-set_insert_point user_block) (λ u.
                            Builds-bind
                              (evaluate-Builds sort (context t m.declaring_class) s input.body
                                x.result k r x.body)
                              (λ v p.
                                Builds-then
                                  (return_result-Builds s input m v (
                                    subst (λ k. Below t.program k m.slot.return_type) (sym p)
                                      x.returned))
                                  (λ u. Builds-then (Builds-set_insert_point init_block) (λ u.
                                    Builds-then (Builds-emit _) (λ u. Builds-pure _ tt))))))))))))))

-- The methods of the source, each with the class's method of its name, typed; the functions that have got
-- code before and after them. No function gets code twice.
pub data AllTypedMethods (t : Target) (cls : CoolClass)
    : List Bytes → List Method → List Bytes → Type 0 where
  no_methods : {defined : List Bytes} → AllTypedMethods t cls defined [] defined
  more_methods :
      {input : Method} {rest : List Method} {m : CoolMethod} {s : Scope}
      {defined after : List Bytes}
      → find_method input.name cls.methods ≡ some m
      → is_defined m.func.name defined ≡ false
      → IsTypedMethod t input cls m s
      → AllTypedMethods t cls (m.func.name ∷ defined) rest after
      → AllTypedMethods t cls defined (input ∷ rest) after

-- In a well-formed program that has the basic classes and whose value classes are right below Object, and with
-- a std::sort that leaves a range in order as it is, the code of all methods of a class is built if each has a body
-- that fits below the return type by the typing rules, where the function of every method that is called takes an
-- object of the class of its slot, and no function has got code before: no assertion of the program fails, no null
-- pointer is used, no error is logged, and the functions of the methods have got code.
pub gen_methods-IsBuilt :
    (t : Target) (sort : Sort) (cls : CoolClass) (methods : List Method) (out : Output)
    (after : List Bytes)
    → KeepsSorted sort
    → IsReady t.program
    → AllTypedMethods t cls (names out) methods after
    → IsBuilt out after (gen_methods sort t cls methods out)
unfolding gen_methods
gen_methods-IsBuilt t sort cls [] out _ k r no_methods = record {
  after = out;
  returns = refl;
  same_errors = refl;
  defines = refl;
}
gen_methods-IsBuilt t sort cls (input ∷ rest) out after k r (more_methods {m} {s} e new x xs) =
    let b = gen_method-IsBuilt t r sort k input cls m s out new x in
    let bs =
      gen_methods-IsBuilt t sort cls rest b.after after k r
        (subst (λ d. AllTypedMethods t cls d rest after) (sym b.defines) xs) in
    record {
      after = bs.after;
      returns =
          >>=-some (find_method input.name cls.methods) _ e (
            >>=-some (build m.func.name (gen_method sort t input cls m) out) _ b.returns
              bs.returns);
      same_errors = bs.same_errors ∙ b.same_errors;
      defines = bs.defines;
    }
