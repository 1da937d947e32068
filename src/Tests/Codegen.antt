-- ===== src/Tests/Codegen.antt =====
-- The code generator at a small program: Main, with an attribute, a method of one parameter and the
-- method that is compiled, over the basic classes.
use lcool.Base.{
  false, true, Bool, Option, none, some, List, [], ◌∷◌, ◌≡◌, ◌||◌, refl, sym, ap, ◌∙◌, Bytes, codes,
  equal, equal→eq, Bool-cases, inl, inr, ◌++◌, if◌then◌else◌,
}
use lcool.Base.Int.{pos}
use mathlib.Core.Bool.{true≢false}
use mathlib.Core.Option.{none-ne-some}
use lcool.Logger.{Location, Logger}
use lcool.Ast.{
  type_case, more_branches, no_branches, Expr, Method, Class, less, conditional, dispatch, let_in,
  block, assign, constant_int, constant_string, identifier, compute_binary, null, expr, no_exprs,
  more_exprs, attribute, no_attributes, more_attributes,
}
use lcool.Program.{
  LlvmType, Function, find_attribute, lookup_attribute, int1, int32, pointer, CoolAttribute,
  CoolClass, CoolMethod, CoolMethodSlot, Table, base_method, override_method, lookup_class,
  is_subclass_of, find_method, lookup_method,
}
use lcool.Program.Order.{Holds, empty, newer, Below}
use lcool.Codegen.Builder.{argument, Gen, at_init, ◌>>=◌, pure}
use lcool.Codegen.Builds.{Scope, Done}
use lcool.Codegen.Classes.{upcast_to, class_of, type_of, same_type, call_method}
use lcool.Codegen.Visit.{Context, value_and_cls}
use lcool.Codegen.Case.{CaseData, Sort}
use lcool.Codegen.Branches.{AllAfter, IsSorted, KeepsSorted}
use lcool.Codegen.Expr.{evaluate}
use lcool.Codegen.Functions.{Target, get_object_vtable_func, find_vtable}
use lcool.Codegen.Run.{Output, gen_methods, codegen}
use lcool.Codegen.Ready.{IsReady, values_below_object}
use lcool.Codegen.Upcasts.{is_some, upcast_to-is_subclass_of}
use lcool.Codegen.Typing.{
  cases, and_branch, no_branch, IsReference, IsLeastOf, class_in, IsLeast, IsMethod, IsAttribute,
  none_left, blocks, TypedBlock, last_one, sets_member, one_more, lesses, Typed, calls, if_least,
  lets, ints, strings, variable, computes, on_self, no_more, and_more, with_value, no_variables,
}
use lcool.Codegen.Visitors.{Of}
use lcool.Codegen.Objects.{HasFunctions, initialized, no_initializers}
use lcool.Codegen.Whole.{IsTypedClass, no_classes, more_classes, HasMain, codegen-IsBuilt}
use lcool.Codegen.Main.{main_object, call_main}
use lcool.Layout.Vtable.{parent_vtable, object_size, name_string, func}
use lcool.Codegen.Sound.{evaluate-Done}
use lcool.Codegen.Built.{IsBuilt, is_defined}
use lcool.Codegen.Methods.{
  IsTypedMethod, no_parameters, no_methods, more_methods, gen_methods-IsBuilt,
}

abbrev class_with :
    Bytes → Option Bytes → LlvmType → List CoolAttribute → List CoolMethod → CoolClass
class_with name parent type attributes methods = record {
  name = name;
  parent = parent;
  final = false;
  llvm_type = type;
  attributes = attributes;
  methods = methods;
}

abbrev object_name : Bytes
object_name = codes "Object"

abbrev main_name : Bytes
main_name = codes "Main"

abbrev int_name : Bytes
int_name = codes "Int"

abbrev f_slot : CoolMethodSlot
f_slot = record {
  name = codes "f";
  return_type = int_name;
  parameter_types = int_name ∷ [];
  declaring_class = main_name;
  vtable_index = 1;
}

abbrev main_slot : CoolMethodSlot
main_slot = record {
  name = codes "main";
  return_type = object_name;
  parameter_types = [];
  declaring_class = main_name;
  vtable_index = 2;
}

abbrev f_method : CoolMethod
f_method = base_method f_slot (record {
  name = codes "Main.f";
  return_type = some int32;
  parameters = pointer main_name ∷ int32 ∷ [];
})

abbrev main_method : CoolMethod
main_method = base_method main_slot (record {
  name = codes "Main.main";
  return_type = some (pointer object_name);
  parameters = pointer main_name ∷ [];
})

abbrev x_attribute : CoolAttribute
x_attribute = record { name = codes "x"; type = int_name; struct_index = 1 }

abbrev main_class : CoolClass
main_class =
    class_with main_name (some object_name) (pointer main_name) (x_attribute ∷ [])
      (f_method ∷ main_method ∷ [])

abbrev basics : Table
basics =
    class_with (codes "String") (some object_name) (pointer (codes "String")) [] []
    ∷ class_with (codes "Bool") (some object_name) int1 [] []
    ∷ class_with int_name (some object_name) int32 [] []
    ∷ class_with object_name none (pointer object_name) [] []
    ∷ []

abbrev program : Table
program = main_class ∷ basics

object_only : (d : Bytes) → Below program object_name d → d ≡ object_name
unfolding is_subclass_of equal
object_only d x = elim (Bool-cases (equal d object_name)) [
  | inl e ↦ equal→eq d object_name e
  | inr e ↦ absurd (true≢false (sym x ∙ ap (λ b. b || false) e))
]

program-IsReady : IsReady program
unfolding lookup_class equal values_below_object
program-IsReady = record {
  well_formed =
      newer refl (λ e. none-ne-some _ (sym e))
        (newer refl (λ e. none-ne-some _ (sym e))
          (newer refl (λ e. none-ne-some _ (sym e))
            (newer refl (λ e. none-ne-some _ (sym e)) (newer refl refl empty))));
  holds_object = λ e. none-ne-some _ (sym e);
  holds_int = λ e. none-ne-some _ (sym e);
  holds_bool = λ e. none-ne-some _ (sym e);
  holds_string = λ e. none-ne-some _ (sym e);
  object_alone = object_only;
  values = refl;
}

abbrev at : Location
at = record { filename = codes "main.cl"; line = 1; column = 1 }

-- let n : Int <- 3 in
--   if n < 4 then f(n) else case self of m : Main => "main"; o : Object => "other"; esac fi
abbrev value : Expr
value =
    let_in at
      (more_attributes (attribute at (codes "n") int_name (expr (constant_int at (pos 3))))
        no_attributes)
      (conditional at (compute_binary at less (identifier at (codes "n")) (constant_int at (pos 4)))
        (dispatch at (codes "f") null none (more_exprs (identifier at (codes "n")) no_exprs))
        (type_case at (identifier at (codes "self")) (
          more_branches (codes "m") main_name (constant_string at (codes "main")) (
            more_branches (codes "o") object_name (constant_string at (codes "other"))
              no_branches))))

-- { x <- 1; value }
abbrev body : Expr
body =
    block at
      (more_exprs (assign at (codes "x") (constant_int at (pos 1))) (more_exprs value no_exprs))

abbrev self_scope : Scope
self_scope = (codes "self", main_name) ∷ []

abbrev ctx : Context
ctx = record { program = program; declaring_cls = main_name; has_vtable_type = true }

or-neither : (x y : Bool) → x ≡ false → y ≡ false → (x || y) ≡ false
or-neither true y h k = h
or-neither false y h k = k

-- What is above Int and above String is Object.
common_only :
    (e : Bytes)
    → Below program int_name e
    → Below program (codes "String") e
    → Below program object_name e
unfolding is_subclass_of equal
common_only e x y = elim (Bool-cases (equal e object_name)) [
  | inl h ↦ ap (λ b. b || false) h
  | inr h ↦ elim (Bool-cases (equal e int_name)) [
    | inr k ↦ absurd (true≢false (sym x ∙ or-neither _ _ k (or-neither _ false h refl)))
    | inl k ↦ absurd (
        true≢false (
          sym y
          ∙ or-neither _ _ (ap (λ z. equal z (codes "String")) (equal→eq e int_name k))
              (or-neither _ false h refl)))
  ]
]

least : IsLeast program int_name (codes "String") object_name
unfolding is_subclass_of equal
least = record { above_first = refl; above_second = refl; below_any = common_only }

f-IsMethod : IsMethod program main_name (codes "f") f_method
unfolding lookup_method find_method is_subclass_of lookup_class equal base_method
f-IsMethod = record {
  found = refl;
  declared_above = refl;
  stands = λ e. none-ne-some _ (sym e);
  takes_object = record { object = main_class; object_stands = refl; takes = refl };
}

main-IsReference : IsReference program main_name
unfolding lookup_class equal
main-IsReference = record { cls = main_class; stands = refl; by_reference = refl }

object-IsReference : IsReference program object_name
unfolding lookup_class equal
object-IsReference = record { cls = _; stands = refl; by_reference = refl }

strings_least : IsLeastOf program (codes "String" ∷ codes "String" ∷ []) (codes "String")
unfolding is_subclass_of equal
strings_least = record { above = (refl, (refl, tt)); below_any = λ e x. x.0 }

value-Typed : Typed ctx self_scope value object_name
unfolding class_in is_subclass_of equal base_method
value-Typed = lets (with_value {c = int_name} {d = int_name} ints refl refl no_variables) (
    if_least {c = int_name} {d = codes "String"} (computes lesses (variable refl) ints)
      (calls {m = f_method} (on_self {c = main_name} refl)
        (and_more {c = int_name} (variable refl) no_more) f-IsMethod
        (one_more {a = int_name} refl none_left))
      (cases {c = main_name} {d = codes "String"} {f = codes "String"} refl (variable refl)
        main-IsReference
        (and_branch main-IsReference refl strings (refl, tt)
          (and_branch object-IsReference refl strings tt no_branch))
        strings_least)
      least)

x-IsAttribute : IsAttribute ctx (codes "x") x_attribute
unfolding lookup_class lookup_attribute find_attribute equal
x-IsAttribute = record { cls = main_class; stands = refl; found = refl }

body-Typed : Typed ctx self_scope body object_name
unfolding class_in is_subclass_of equal
body-Typed = blocks (
    TypedBlock.before
      (sets_member {c = int_name} {d = main_name} ints refl refl x-IsAttribute refl refl)
      (last_one value-Typed))

-- Insertion sort.
abbrev insert : (CaseData → CaseData → Bool) → CaseData → List CaseData → List CaseData
insert before a [] = a ∷ []
insert before a (b ∷ rest) =
    let inserted = insert before a rest in if before b a then b ∷ inserted else a ∷ (b ∷ rest)

abbrev pub insertion_sort : Sort
insertion_sort before [] = []
insertion_sort before (a ∷ rest) = insert before a (insertion_sort before rest)

insert-AllAfter :
    (before : CaseData → CaseData → Bool) (a : CaseData) (rest : List CaseData)
    → AllAfter before a rest
    → insert before a rest ≡ a ∷ rest
insert-AllAfter before a [] x = refl
insert-AllAfter before a (b ∷ rest) (x, y, z) =
    ap (λ c. if c then b ∷ insert before a rest else a ∷ (b ∷ rest)) y

insertion_sort_keeps :
    (before : CaseData → CaseData → Bool) (branches : List CaseData)
    → IsSorted before branches
    → insertion_sort before branches ≡ branches
insertion_sort_keeps before [] x = refl
insertion_sort_keeps before (a ∷ rest) (x, xs) =
    ap (insert before a) (insertion_sort_keeps before rest xs) ∙ insert-AllAfter before a rest x

pub sort-KeepsSorted : KeepsSorted insertion_sort
sort-KeepsSorted = record { keeps = insertion_sort_keeps }

abbrev quiet : Logger
quiet = record { stream = []; errors_printed = false }

-- The generator of a method, with self.
abbrev gen : Gen
gen = record {
  blocks = codes "init" ∷ [];
  insert_block = 0;
  code = [];
  locals = (codes "self", value_and_cls (argument 0) main_name) ∷ [];
  log = quiet;
}

evaluate-Done_example : Done (Of object_name) gen (evaluate insertion_sort ctx body gen)
unfolding at_init equal
evaluate-Done_example =
    evaluate-Done insertion_sort ctx gen body object_name sort-KeepsSorted program-IsReady
      body-Typed refl

abbrev named : Bytes → Function
named name = record { name = name; return_type = none; parameters = pointer object_name ∷ [] }

abbrev target : Target
target = record {
  program = program;
  vtables =
      (
        main_name,
        (
          object_name,
          parent_vtable object_name
              ∷ object_size main_name
              ∷ name_string main_name
              ∷ func (named (codes "Main$construct"))
              ∷ func (named (codes "Main$copy"))
              ∷ func (named (codes "Main$destroy"))
              ∷ [],
        )
            ∷ [],
      )
      ∷ [];
  runtime_function = λ name index. some (named (name ++ codes "$function"));
  has_vtable_type = true;
}

abbrev main_source : Method
main_source = record { loc = at; name = codes "main"; type = object_name; params = []; body = body }

main_source-IsTypedMethod : IsTypedMethod target main_source main_class main_method self_scope
unfolding lookup_class is_subclass_of equal base_method
main_source-IsTypedMethod = record {
  stands = refl;
  by_reference = refl;
  this_class = main_name;
  this = refl;
  parameters = no_parameters;
  result = object_name;
  body = body-Typed;
  returned = refl;
}

main_found : find_method (codes "main") main_class.methods ≡ some main_method
unfolding find_method equal base_method
main_found = refl

abbrev nothing : Output
nothing = record { definitions = []; log = quiet }

gen_methods-IsBuilt_example :
    IsBuilt nothing
      (codes "Main.main" ∷ [])
      (gen_methods insertion_sort target main_class (main_source ∷ []) nothing)
unfolding is_defined base_method
gen_methods-IsBuilt_example =
    gen_methods-IsBuilt target insertion_sort main_class (main_source ∷ []) nothing
      (codes "Main.main" ∷ []) sort-KeepsSorted program-IsReady
      (more_methods main_found refl main_source-IsTypedMethod no_methods)

main_stands : Holds program main_name
unfolding lookup_class equal
main_stands = λ e. none-ne-some _ (sym e)

upcast_to-is_subclass_of_example :
    Done
      (λ o. is_some o ≡ is_subclass_of program main_name int_name)
      gen
      (upcast_to program main_name (argument 0) int_name gen)
upcast_to-is_subclass_of_example =
    upcast_to-is_subclass_of program main_name int_name (argument 0) gen program-IsReady main_stands

abbrev main_input : Class
main_input = record {
  loc = at;
  name = main_name;
  parent = none;
  attributes = attribute at (codes "x") int_name (expr (constant_int at (pos 7))) ∷ [];
  methods = main_source ∷ [];
}

main-HasFunctions : HasFunctions target main_name
unfolding get_object_vtable_func find_vtable equal
main-HasFunctions = record {
  constructs = named (codes "Main$construct");
  has_constructor = refl;
  copies = named (codes "Main$copy");
  has_copy_constructor = refl;
  destroys = named (codes "Main$destroy");
  has_destructor = refl;
}

object-HasFunctions : HasFunctions target object_name
unfolding get_object_vtable_func find_vtable equal
object-HasFunctions = record {
  constructs = named (codes "Object$function");
  has_constructor = refl;
  copies = named (codes "Object$function");
  has_copy_constructor = refl;
  destroys = named (codes "Object$function");
  has_destructor = refl;
}

abbrev functions : List Bytes
functions =
    codes "Main.main" ∷ codes "Main$construct" ∷ codes "Main$destroy" ∷ codes "Main$copy" ∷ []

main-IsTypedClass : IsTypedClass target [] main_input functions
unfolding is_defined lookup_class is_subclass_of lookup_attribute find_attribute equal
    main-HasFunctions base_method
main-IsTypedClass = record {
  cls = main_class;
  stands = refl;
  laid_out = record {
    stands = refl;
    by_reference = refl;
    own = main-HasFunctions;
    parent = object_name;
    has_parent = refl;
    inherited = object-HasFunctions;
    attributes = ((λ e. none-ne-some _ (sym e)), tt);
  };
  initializers = initialized {c = int_name} ints refl refl no_initializers;
  new_copy = refl;
  new_destroy = refl;
  new_construct = refl;
  methods = more_methods main_found refl main_source-IsTypedMethod no_methods;
}

program-HasMain : HasMain program
unfolding lookup_class lookup_method find_method is_subclass_of equal base_method
program-HasMain = record {
  cls = main_class;
  stands = refl;
  method = main_method;
  found = refl;
  no_parameters = refl;
  own = refl;
  own_slot = refl;
  takes_object = record { object = main_class; object_stands = refl; takes = refl };
  returns = λ e. none-ne-some _ (sym e);
}

codegen-IsBuilt_example :
    IsBuilt nothing
      (codes "main" ∷ functions)
      (codegen insertion_sort target (main_input ∷ []) quiet)
codegen-IsBuilt_example =
    codegen-IsBuilt insertion_sort target (main_input ∷ []) quiet functions sort-KeepsSorted
      program-IsReady (more_classes main-IsTypedClass no_classes) program-HasMain

-- A `main` of Main over that of a class above it: its function takes an object of that class, and
-- Main's object is not converted.
abbrev overriding_main : CoolMethod
overriding_main =
    let f = record main_method.func { parameters = pointer object_name ∷ [] } in
    override_method main_name (base_method (record main_slot { declaring_class = object_name }) f) f

overriding_main_aborts : call_main program overriding_main (argument 0) gen ≡ none
unfolding call_main main_object call_method same_type type_of class_of lookup_class equal
    override_method base_method ◌>>=◌ pure
overriding_main_aborts = refl
