-- ===== src/Codegen/Whole.antt =====
-- `codegen` (src/codegen.cpp) on a typed program.
use lcool.Base.{
  true, false, equal_refl, sym, ap, subst, List, some, [], ◌∷◌, ◌≡◌, refl, ◌∙◌, Bytes, codes, equal,
}
use mathlib.Core.Bool.{true≢false}
use mathlib.Core.Option.{none-ne-some}
use lcool.Base.Options.{>>=-some}
use lcool.Logger.{Logger}
use lcool.Ast.{Class, Program}
use lcool.Program.{CoolClass, CoolMethod, Table, lookup_class, lookup_method}
use lcool.Program.Order.{Holds}
use lcool.Codegen.Builder.{Value}
use lcool.Codegen.Builds.{
  Scope, Any, BuildsIn, Builds-pure, Builds-then, Builds-if, Builds-bind, Builds-emit,
  Builds-new_block, Builds-set_insert_point,
}
use lcool.Codegen.Case.{Sort}
use lcool.Codegen.Functions.{
  Target, constructor, copy_constructor, destructor, gen_copy_constructor, gen_destructor,
  gen_constructor,
}
use lcool.Codegen.Main.{main_object, call_main, gen_main_func}
use lcool.Codegen.Run.{Output, build, codegen_cls, codegen_classes, codegen}
use lcool.Codegen.Ready.{IsReady}
use lcool.Codegen.Members.{TakesObject, on_object-Builds, create_object-Builds, call_method-Builds}
use lcool.Codegen.Branches.{KeepsSorted}
use lcool.Codegen.Built.{IsBuilt, names, is_defined, define-Builds}
use lcool.Codegen.Methods.{AllTypedMethods, gen_methods-IsBuilt}
use lcool.Codegen.Objects.{
  IsClass, TypedInitializers, gen_copy_constructor-IsBuilt, gen_destructor-IsBuilt,
  gen_constructor-IsBuilt,
}

-- A class of the source, with the class of the table; the functions that have got code before and after
-- the class. No function gets code twice.
pub record IsTypedClass (t : Target) (defined : List Bytes) (input : Class) (after : List Bytes)
    : Type 0 where
  pub cls : CoolClass
  pub stands : lookup_class input.name t.program ≡ some cls
  pub laid_out : IsClass t cls
  pub initializers : TypedInitializers t cls input.attributes
  pub new_copy : is_defined laid_out.own.copies.name defined ≡ false
  pub new_destroy :
      is_defined laid_out.own.destroys.name (laid_out.own.copies.name ∷ defined) ≡ false
  pub new_construct :
      is_defined laid_out.own.constructs.name
        (laid_out.own.destroys.name ∷ laid_out.own.copies.name ∷ defined)
      ≡ false
  pub methods :
      AllTypedMethods t cls
        (laid_out.own.constructs.name ∷ laid_out.own.destroys.name ∷ laid_out.own.copies.name
          ∷ defined)
        input.methods
        after

pub data AllTyped (t : Target) : List Bytes → Program → List Bytes → Type 0 where
  no_classes : {defined : List Bytes} → AllTyped t defined [] defined
  more_classes :
      {defined mid after : List Bytes} {c : Class} {rest : Program}
      → IsTypedClass t defined c mid
      → AllTyped t mid rest after
      → AllTyped t defined (c ∷ rest) after

-- A `main` without parameters that Main declares, and no class above it.
pub record HasMain (t : Table) : Type 0 where
  pub cls : CoolClass
  pub stands : lookup_class (codes "Main") t ≡ some cls
  pub method : CoolMethod
  pub found : lookup_method t (codes "Main") (codes "main") ≡ some method
  pub no_parameters : method.slot.parameter_types ≡ []
  pub own : method.declaring_class ≡ codes "Main"
  pub own_slot : method.slot.declaring_class ≡ codes "Main"
  pub takes_object : TakesObject t method
  pub returns : Holds t method.slot.return_type

module _ (t : Table) (r : IsReady t) (x : HasMain t) where
  main_held : Holds t (codes "Main")
  main_held n = none-ne-some x.cls (sym n ∙ x.stands)

  main_object-Builds :
      {s : Scope} (v : Value)
      → BuildsIn false s (λ o. o.cls ≡ x.method.slot.declaring_class) (main_object t x.method v)
  unfolding main_object
  main_object-Builds v =
      Builds-if (equal x.method.declaring_class (codes "Main"))
        (λ h. Builds-pure _ (sym x.own_slot))
        (λ h. absurd (
          true≢false
            (sym (equal_refl (codes "Main")) ∙ ap (λ c. equal c (codes "Main")) (sym x.own) ∙ h)))

  call_main-Builds : {s : Scope} (v : Value) → BuildsIn false s Any (call_main t x.method v)
  unfolding call_main
  call_main-Builds v = Builds-bind (main_object-Builds v) (λ o p.
      Builds-then
        (call_method-Builds t r x.method o [] true p x.takes_object
          (subst (Holds t) (sym x.own) main_held))
        (λ w. Builds-then (on_object-Builds t r _ x.method.slot.return_type w x.returns) (λ u.
          Builds-then (on_object-Builds t r _ (codes "Main") o.value main_held)
            (λ u. Builds-then (Builds-emit _) (λ u. Builds-pure _ tt)))))

  gen_main_func-Builds : {s : Scope} → BuildsIn false s Any (gen_main_func t)
  unfolding gen_main_func
  gen_main_func-Builds = Builds-then (Builds-new_block _) (λ block.
      Builds-then (Builds-set_insert_point block) (λ u. rw x.stands (
        Builds-then (create_object-Builds t r (codes "Main") main_held)
          (λ v. rw x.found (rw x.no_parameters (call_main-Builds v))))))

-- In a program that is ready, the code of every class of the source is built if the class is typed.
codegen_cls-IsBuilt :
    (sort : Sort) (t : Target) (input : Class) (out : Output) (after : List Bytes)
    → KeepsSorted sort
    → IsReady t.program
    → IsTypedClass t (names out) input after
    → IsBuilt out after (codegen_cls sort t input out)
unfolding codegen_cls
codegen_cls-IsBuilt sort t input out after k r x =
    let f = x.laid_out.own in
    let a = gen_copy_constructor-IsBuilt t r x.cls out f.copies.name x.new_copy x.laid_out in
    let b =
      gen_destructor-IsBuilt t r x.cls a.after f.destroys.name
        (subst (λ d. is_defined f.destroys.name d ≡ false) (sym a.defines) x.new_destroy)
        x.laid_out in
    let eb = b.defines ∙ ap (λ d. f.destroys.name ∷ d) a.defines in
    let c =
      gen_constructor-IsBuilt t r sort k input x.cls b.after f.constructs.name
        (subst (λ d. is_defined f.constructs.name d ≡ false) (sym eb) x.new_construct) x.laid_out
        x.initializers in
    let ec = c.defines ∙ ap (λ d. f.constructs.name ∷ d) eb in
    let d =
      gen_methods-IsBuilt t sort x.cls input.methods c.after after k r
        (subst (λ d. AllTypedMethods t x.cls d input.methods after) (sym ec) x.methods) in
    record {
      after = d.after;
      returns = >>=-some (lookup_class input.name t.program) _ x.stands (
          >>=-some (copy_constructor t x.cls.name) _ f.has_copy_constructor (
            >>=-some (build f.copies.name (gen_copy_constructor t x.cls) out) _ a.returns (
              >>=-some (destructor t x.cls.name) _ f.has_destructor (
                >>=-some (build f.destroys.name (gen_destructor t x.cls) a.after) _ b.returns (
                  >>=-some (constructor t x.cls.name) _ f.has_constructor (
                    >>=-some (build f.constructs.name (gen_constructor sort t input x.cls) b.after)
                      _ c.returns d.returns))))));
      same_errors = d.same_errors ∙ c.same_errors ∙ b.same_errors ∙ a.same_errors;
      defines = d.defines;
    }

codegen_classes-IsBuilt :
    (sort : Sort) (t : Target) (input : Program) (out : Output) (after : List Bytes)
    → KeepsSorted sort
    → IsReady t.program
    → AllTyped t (names out) input after
    → IsBuilt out after (codegen_classes sort t input out)
unfolding codegen_classes
codegen_classes-IsBuilt sort t [] out _ k r no_classes = record {
  after = out;
  returns = refl;
  same_errors = refl;
  defines = refl;
}
codegen_classes-IsBuilt sort t (c ∷ rest) out after k r (more_classes {mid} x xs) =
    let a = codegen_cls-IsBuilt sort t c out mid k r x in
    let b =
      codegen_classes-IsBuilt sort t rest a.after after k r
        (subst (λ d. AllTyped t d rest after) (sym a.defines) xs) in
    record {
      after = b.after;
      returns = >>=-some (codegen_cls sort t c out) _ a.returns b.returns;
      same_errors = b.same_errors ∙ a.same_errors;
      defines = b.defines;
    }

-- With a std::sort that leaves a range in order as it is, a well-formed program that has the basic classes, whose
-- value classes are right below Object, and whose vtables have the functions of its objects, is compiled if its
-- expressions fit where they stand by the typing rules, where the function of every method that is called takes an
-- object of the class of its slot; if no two classes or methods of the source have the same function; and if Main
-- declares a `main` without parameters that no class above it has: `codegen` returns, logs no error, and the
-- functions of the source and then `main` have got code.
pub codegen-IsBuilt :
    (sort : Sort) (t : Target) (input : Program) (log : Logger) (after : List Bytes)
    → KeepsSorted sort
    → IsReady t.program
    → AllTyped t [] input after
    → HasMain t.program
    → IsBuilt
        (record { definitions = []; log = log })
        (codes "main" ∷ after)
        (codegen sort t input log)
unfolding codegen
codegen-IsBuilt sort t input log after k r xs x =
    let a =
      codegen_classes-IsBuilt sort t input (record { definitions = []; log = log }) after k r xs in
    let b =
      define-Builds (codes "main") (gen_main_func t.program) a.after
        (gen_main_func-Builds t.program r x) in
    record {
      after = b.after;
      returns =
          >>=-some (codegen_classes sort t input (record { definitions = []; log = log })) _
            a.returns b.returns;
      same_errors = b.same_errors ∙ a.same_errors;
      defines = b.defines ∙ ap (λ d. codes "main" ∷ d) a.defines;
    }
