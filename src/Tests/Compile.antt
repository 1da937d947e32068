-- ===== src/Tests/Compile.antt =====
-- The whole compiler, behind the parser, on a program of one class.
use lcool.Base.{List, true, false, none, some, [], ◌∷◌, ◌≡◌, refl, Bytes, codes, Option}
use lcool.Logger.{Logger, logger_ostream, has_errors}
use lcool.Ast.{Program, Class, constant_int}
use lcool.Base.Int.{pos}
use lcool.Program.{Function, pointer}
use lcool.Layout.Run.{Module, layout}
use lcool.Builtins.{builtins_register}
use lcool.Driver.{Options, World, failure, new_module, target}
use lcool.Driver.Compiles.{IsLegal}
use lcool.Program.{lookup_class, lookup_method, find_method, is_subclass_of}
use lcool.Program.Order.{Below, empty, newer}
use lcool.Codegen.Ready.{IsReady, values_below_object}
use lcool.Tests.Codegen.{insertion_sort}
use lcool.Codegen.Typing.{ints}
use lcool.Codegen.Methods.{no_parameters, no_methods, more_methods}
use lcool.Codegen.Whole.{IsTypedClass, no_classes, more_classes, HasMain}
use lcool.Codegen.Built.{is_defined}
use lcool.Codegen.Objects.{HasFunctions, no_initializers}
use lcool.Codegen.Functions.{get_object_vtable_func, find_vtable}
use mathlib.Core.Bool.{true≢false}
use mathlib.Core.Option.{none-ne-some}
use lcool.Base.{equal, equal→eq, Bool-cases, inl, inr, sym, ap, ◌∙◌, ◌||◌}

abbrev function : Bytes → Function
function name = record {
  name = name;
  return_type = none;
  parameters = pointer (codes "Object") ∷ [];
}

abbrev world : World
world = record {
  visible = [];
  cin = λ i. [];
  open_input = λ name. failure [];
  open_output = λ name. none;
  runtime = record {
    has_type = λ n. true;
    has_global = λ n. true;
    get_function = λ n. some (function n);
  };
  runtime_function = λ name index. some (function name);
  sort = insertion_sort;
  verify_module = λ m. none;
  bitcode = λ m. [];
}

abbrev main_class : Class
main_class = record {
  loc = record { filename = []; line = 1; column = 1 };
  name = codes "Main";
  parent = none;
  attributes = [];
  methods =
      record {
        loc = record { filename = []; line = 1; column = 1 };
        name = codes "main";
        type = codes "Int";
        params = [];
        body = constant_int (record { filename = []; line = 1; column = 1 }) (pos 0);
      }
      ∷ [];
}

abbrev program : Program
program = main_class ∷ []

abbrev log : Logger
log = logger_ostream []

abbrev empty_module : Module
empty_module = record { classes = []; bodies = []; functions = []; vtables = []; log = log }

abbrev or_empty : Option Module → Module
or_empty none = empty_module
or_empty (some m) = m

abbrev builtins : Module
builtins = or_empty (new_module world log)

abbrev laid_out : Module
laid_out = or_empty (layout program builtins)

object_only : (d : Bytes) → Below laid_out.classes (codes "Object") d → d ≡ codes "Object"
unfolding builtins_register layout is_subclass_of equal logger_ostream has_errors
object_only d x = elim (Bool-cases (equal d (codes "Object"))) [
  | inl e ↦ equal→eq d (codes "Object") e
  | inr e ↦ absurd (true≢false (sym x ∙ ap (λ b. b || false) e))
]

classes-IsReady : IsReady laid_out.classes
unfolding builtins_register layout lookup_class equal values_below_object logger_ostream has_errors
classes-IsReady = record {
  well_formed =
      newer refl (λ e. none-ne-some _ (sym e))
        (newer refl (λ e. none-ne-some _ (sym e))
          (newer refl (λ e. none-ne-some _ (sym e))
            (newer refl (λ e. none-ne-some _ (sym e))
              (newer refl (λ e. none-ne-some _ (sym e)) (newer refl refl empty)))));
  holds_object = λ e. none-ne-some _ (sym e);
  holds_int = λ e. none-ne-some _ (sym e);
  holds_bool = λ e. none-ne-some _ (sym e);
  holds_string = λ e. none-ne-some _ (sym e);
  object_alone = object_only;
  values = refl;
}

main-HasFunctions : HasFunctions (target world laid_out) (codes "Main")
unfolding builtins_register layout get_object_vtable_func find_vtable equal logger_ostream
    has_errors
main-HasFunctions = record {
  constructs = _;
  has_constructor = refl;
  copies = _;
  has_copy_constructor = refl;
  destroys = _;
  has_destructor = refl;
}

object-HasFunctions : HasFunctions (target world laid_out) (codes "Object")
unfolding builtins_register layout get_object_vtable_func find_vtable equal logger_ostream
    has_errors
object-HasFunctions = record {
  constructs = _;
  has_constructor = refl;
  copies = _;
  has_copy_constructor = refl;
  destroys = _;
  has_destructor = refl;
}

abbrev functions : List Bytes
functions =
    codes "Main.main"
    ∷ codes "Main$construct"
    ∷ codes "Main$destroy"
    ∷ codes "Main$copyconstruct"
    ∷ []

main-IsTypedClass : IsTypedClass (target world laid_out) [] main_class functions
unfolding is_defined main-HasFunctions builtins_register layout lookup_class find_method
    is_subclass_of equal logger_ostream has_errors
main-IsTypedClass = record {
  cls = _;
  stands = refl;
  laid_out = record {
    stands = refl;
    by_reference = refl;
    own = main-HasFunctions;
    parent = codes "Object";
    has_parent = refl;
    inherited = object-HasFunctions;
    attributes = tt;
  };
  initializers = no_initializers;
  new_copy = refl;
  new_destroy = refl;
  new_construct = refl;
  methods =
      more_methods refl refl
        (record {
          stands = refl;
          by_reference = refl;
          this_class = codes "Main";
          this = refl;
          parameters = no_parameters;
          result = codes "Int";
          body = ints;
          returned = refl;
        })
        no_methods;
}

classes-HasMain : HasMain laid_out.classes
unfolding builtins_register layout lookup_class lookup_method find_method is_subclass_of equal
    logger_ostream has_errors
classes-HasMain = record {
  cls = _;
  stands = refl;
  method = _;
  found = refl;
  no_parameters = refl;
  own = refl;
  own_slot = refl;
  takes_object = record { object = _; object_stands = refl; takes = refl };
  returns = λ e. none-ne-some _ (sym e);
}

program-IsLegal : IsLegal world program log
unfolding builtins_register layout logger_ostream has_errors
program-IsLegal = record {
  builtins = builtins;
  registered = refl;
  laid_out = laid_out;
  lays_out = refl;
  accepted = refl;
  ready = classes-IsReady;
  functions = functions;
  typed = more_classes main-IsTypedClass no_classes;
  main = classes-HasMain;
}

abbrev options : Options
options = record {
  version = false;
  help = false;
  parse = false;
  output = some (codes "main.bc");
  input = codes "main.cl" ∷ [];
}
