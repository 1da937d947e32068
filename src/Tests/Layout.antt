-- ===== src/Tests/Layout.antt =====
-- The layout at concrete programs: B inherits A, which stands behind it in the source, and a cycle.
use lcool.Base.{
  ℕ, decimal, ◌++◌, ◌≡◌, refl, sym, Bool, true, false, Option, none, some, List, [], ◌∷◌, Bytes,
  codes, equal, get_elem?,
}
use mathlib.Core.Option.{none-ne-some}
use lcool.Logger.{Location, Logger, logger_ostream, has_errors, error_at}
use lcool.Ast.{Expr, MaybeExpr, Attribute, attribute, Method, Class, Program}
use lcool.Program.{
  LlvmType, int1, int32, pointer, CoolClass, CoolMethodSlot, CoolMethod, Function, Table,
  base_method, lookup_class,
}
use lcool.Program.Order.{Holds, IsWellFormed, empty, newer}
use lcool.Builtins.{Runtime, builtins_register}
use lcool.Builtins.Registered.{Provides}
use lcool.Builtins.Laid.{builtins_register-IsLaidOut}
use lcool.Layout.Insertion.{InsertState, insert_empty_classes}
use lcool.Layout.Insertion.Sorted.{IsSorted, insert_empty_classes-IsSorted}
use lcool.Layout.Attributes.{Element, struct, process_attributes}
use lcool.Layout.Attributes.Filling.{HasFields, process_attributes-HasFields}
use lcool.Layout.Methods.{process_methods}
use lcool.Layout.Vtable.Fits.{IsLaidOut}
use lcool.Layout.Methods.Slotted.{HasSlots}
use lcool.Layout.Methods.Signatures.{
  AllDeclared, process_methods-HasSlots, process_methods-AllDeclared,
}

abbrev pub log : Logger
log = logger_ostream []

abbrev pub at : ℕ → Location
at n = record { filename = codes "a.cl"; line = n; column = 1 }

abbrev copy : CoolMethodSlot
copy = record {
  name = codes "copy";
  return_type = codes "Object";
  parameter_types = [];
  declaring_class = codes "Object";
  vtable_index = 7;
}

abbrev copy_of : Bytes → Function
copy_of cls = record {
  name = cls ++ codes ".copy";
  return_type = some (pointer (codes "Object"));
  parameters = pointer (codes "Object") ∷ [];
}

abbrev pub class_of : Bytes → Option Bytes → Bool → LlvmType → List CoolMethod → CoolClass
class_of name parent final type methods = record {
  name = name;
  parent = parent;
  final = final;
  llvm_type = type;
  attributes = [];
  methods = methods;
}

abbrev object_class : CoolClass
object_class =
    class_of (codes "Object") none false (pointer (codes "Object"))
      (base_method copy (copy_of (codes "Object")) ∷ [])

abbrev int_class : CoolClass
int_class = class_of (codes "Int") (some (codes "Object")) true int32 []

abbrev bool_class : CoolClass
bool_class = class_of (codes "Bool") (some (codes "Object")) true int1 []

abbrev table : Table
table = bool_class ∷ int_class ∷ object_class ∷ []

table-IsWellFormed : IsWellFormed table
unfolding lookup_class equal
table-IsWellFormed =
    newer refl (λ e. none-ne-some _ (sym e))
      (newer refl (λ e. none-ne-some _ (sym e)) (newer refl refl empty))

table_rooted : Holds table (codes "Object")
unfolding lookup_class equal
table_rooted = λ e. none-ne-some _ (sym e)

abbrev field : Bytes → Bytes → Attribute
field name type = attribute (at 2) name type MaybeExpr.null

abbrev pub method_of : Bytes → Bytes → Method
method_of name type = record {
  loc = at 3;
  name = name;
  type = type;
  params = [];
  body = Expr.identifier (at 3) (codes "self");
}

abbrev pub source : Bytes → Option Bytes → Class
source name parent = record {
  loc = at 1;
  name = name;
  parent = parent;
  attributes =
      field (codes "b") (codes "Bool")
      ∷ field (codes "i") (codes "Int")
      ∷ field (codes "o") (codes "Object")
      ∷ [];
  methods = method_of (codes "copy") (codes "Object") ∷ method_of (codes "f") (codes "Int") ∷ [];
}

abbrev behind : Program
behind = source (codes "B") (some (codes "A")) ∷ source (codes "A") none ∷ []

abbrev cycle : Program
cycle = source (codes "C") (some (codes "D")) ∷ source (codes "D") (some (codes "C")) ∷ []

names : Program → List Bytes
names [] = []
names (c ∷ cs) = c.name ∷ names cs

order_of : Option InsertState → List Bytes
order_of none = []
order_of (some s) = names s.layout_list

stream_of : Option InsertState → Bytes
stream_of none = []
stream_of (some s) = s.log.stream

sorted : order_of (insert_empty_classes behind table log) ≡ codes "A" ∷ codes "B" ∷ []
unfolding order_of names insert_empty_classes logger_ostream has_errors
sorted = refl

circular :
    stream_of (insert_empty_classes cycle table log)
    ≡ codes "a.cl:1:1: error: circular inheritance: C -> D -> C\n"
unfolding stream_of insert_empty_classes logger_ostream has_errors error_at decimal
circular = refl

insert_empty_classes-IsSorted_example :
    (s : InsertState) × (insert_empty_classes behind table log ≡ some s) × IsSorted behind table s
insert_empty_classes-IsSorted_example =
    insert_empty_classes-IsSorted behind table log table-IsWellFormed table_rooted

abbrev pub empty_class : CoolClass
empty_class = class_of (codes "A") (some (codes "Object")) false (pointer (codes "A")) []

process_attributes-HasFields_example :
    (cls : CoolClass) × (elements : List Element) × (log' : Logger) × (process_attributes
        (source (codes "A") none)
        empty_class
        table
        log
      ≡ some (cls, elements, log'))
    × (get_elem? elements 0 ≡ some (struct (codes "Object")))
    × HasFields table cls elements
unfolding lookup_class equal
process_attributes-HasFields_example =
    process_attributes-HasFields (source (codes "A") none) empty_class object_class (codes "Object")
      (codes "Object") table log refl refl refl refl refl

abbrev under_int : CoolClass
under_int = class_of (codes "A") (some (codes "Int")) false (pointer (codes "A")) []

process_methods-HasSlots_example :
    HasSlots table empty_class (process_methods (source (codes "A") none) empty_class table [] log)
process_methods-HasSlots_example =
    process_methods-HasSlots (source (codes "A") none) empty_class table [] log refl

process_methods-AllDeclared_example :
    AllDeclared table empty_class
      (process_methods (source (codes "A") none) empty_class table [] log)
      (source (codes "A") none).methods
unfolding process_methods has_errors logger_ostream
process_methods-AllDeclared_example =
    process_methods-AllDeclared (source (codes "A") none) empty_class table [] log refl refl

-- A module with everything in it.
abbrev runtime : Runtime
runtime = record {
  has_type = λ n. true;
  has_global = λ n. true;
  get_function = λ n. some (record { name = n; return_type = none; parameters = [] });
}

runtime-Provides : Provides runtime
runtime-Provides = record {
  object_type = refl;
  io_type = refl;
  string_type = refl;
  object_vtable = refl;
  io_vtable = refl;
  string_vtable = refl;
  bool_vtable = refl;
  int_vtable = refl;
  functions = (
    (_, refl),
    (
      (_, refl),
      (
        (_, refl),
        (
          (_, refl),
          ((_, refl), ((_, refl), ((_, refl), ((_, refl), ((_, refl), ((_, refl), tt)))))),
        ),
      ),
    ),
  );
}

builtins_register-IsLaidOut_example :
    (t : Table) × (builtins_register runtime [] ≡ some t)
    × IsWellFormed t
    × Holds t (codes "Object")
    × IsLaidOut t
builtins_register-IsLaidOut_example = builtins_register-IsLaidOut runtime runtime-Provides
