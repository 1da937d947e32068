-- ===== src/Layout/Methods.antt =====
-- `process_methods` (src/layout.cpp): the slots and stub functions of a class's methods. The functions
-- that are created go to the end of the module's list.
pub mod Entering
pub mod Slotted
pub mod Signatures
use lcool.Base.{
  ℕ, suc, ◌++◌, ◌&&◌, ◌||◌, Bool, true, false, not, Option, none, some, List, [], ◌∷◌, map, Bytes,
  codes, equal, if◌then◌else◌,
}
use lcool.Logger.{Location, Logger, error_at}
use lcool.Ast.{Method, Class}
use lcool.Program.{
  LlvmType, CoolClass, CoolMethodSlot, CoolMethod, Function, Table, base_method, override_method,
  lookup_class, find_method, lookup_method,
}

-- The class, the module's functions, the logger and the counter of the loop.
pub record Slots : Type 0 where
  pub cls : CoolClass
  pub functions : List Function
  pub log : Logger
  pub next_vtable_index : ℕ

-- `cls->lookup_method(name, true)`, for a class whose methods are being entered.
abbrev pub inherited : Table → CoolClass → Bytes → Option CoolMethod
inherited output cls name = elim cls.parent [ none ↦ none | some p ↦ lookup_method output p name ]

unfoldable pub lookup_from : Table → CoolClass → Bytes → Option CoolMethod
unfolding find_method lookup_method
lookup_from output cls name = elim (find_method name cls.methods) [
  | some m ↦ some m
  | none ↦ inherited output cls name
]

-- `==` of vectors of classes, by their names.
unfoldable pub equal_types : List Bytes → List Bytes → Bool
unfolding equal
equal_types [] [] = true
equal_types [] (y ∷ ys) = false
equal_types (x ∷ xs) [] = false
equal_types (x ∷ xs) (y ∷ ys) = equal x y && equal_types xs ys

abbrev pub log_unknown : Location → Bytes → Logger → Logger
log_unknown loc type log = error_at loc (codes "unknown type '" ++ (type ++ codes "'")) log

-- The loop over the parameters; a type that is not defined is left out with an error.
unfoldable pub parameter_loop :
    Table → Location → List (Bytes × Bytes) → List CoolClass → Logger → List CoolClass × Logger
unfolding lookup_class
parameter_loop output loc [] types log = (types, log)
parameter_loop output loc ((name, type) ∷ rest) types log = elim (lookup_class type output) [
  | none ↦ parameter_loop output loc rest types (log_unknown loc type log)
  | some c ↦ parameter_loop output loc rest (types ++ c ∷ []) log
]

abbrev pub class_names : List CoolClass → List Bytes
class_names [] = []
class_names (c ∷ cs) = c.name ∷ class_names cs

abbrev pub class_types : List CoolClass → List LlvmType
class_types [] = []
class_types (c ∷ cs) = c.llvm_type ∷ class_types cs

abbrev pub function_name : CoolClass → Method → Bytes
function_name cls method = cls.name ++ (codes "." ++ method.name)

-- `emplace` into the methods of the class, behind `create_fast_function`.
abbrev pub enter_method : CoolMethod → Slots → Slots
enter_method m s = record s {
  cls = record (s.cls) { methods = m ∷ s.cls.methods };
  functions = s.functions ++ m.func ∷ [];
}

-- A name that no superclass has.
unfoldable pub new_method : Method → CoolClass → List CoolClass → Slots → Slots
unfolding base_method
new_method method return_type parameter_types s =
    let slot : CoolMethodSlot = record {
      name = method.name;
      return_type = return_type.name;
      parameter_types = class_names parameter_types;
      declaring_class = s.cls.name;
      vtable_index = s.next_vtable_index;
    } in
    let func : Function = record {
      name = function_name s.cls method;
      return_type = some return_type.llvm_type;
      parameters = s.cls.llvm_type ∷ class_types parameter_types;
    } in
    enter_method (base_method slot func) (record s { next_vtable_index = suc s.next_vtable_index })

-- An override with the inherited method's function type.
unfoldable pub override : Method → CoolMethod → Slots → Slots
unfolding override_method
override method existing s =
    enter_method
      (override_method s.cls.name existing
        (record (existing.func) { name = function_name s.cls method }))
      s

abbrev pub log_redefinition : Method → Logger → Logger
log_redefinition method log =
    error_at method.loc (codes "redefinition of method '" ++ (method.name ++ codes "'")) log

abbrev pub log_signature : Method → CoolMethod → Logger → Logger
log_signature method existing log =
    error_at method.loc
      (codes "signature of method '"
        ++ (method.name
            ++ (codes "' does not match inherited method from class '"
                ++ (existing.declaring_class ++ codes "'"))))
      log

-- The branches on the method that the name stands for so far.
unfoldable pub enter_by : Option CoolMethod → Method → CoolClass → List CoolClass → Slots → Slots
unfolding new_method override equal_types equal
enter_by none method return_type parameter_types s = new_method method return_type parameter_types s
enter_by (some existing) method return_type parameter_types s =
    if equal existing.declaring_class s.cls.name
    then record s { log = log_redefinition method s.log }
    else if not (equal existing.slot.return_type return_type.name)
        || not (equal_types existing.slot.parameter_types (class_names parameter_types))
    then record s { log = log_signature method existing s.log }
    else override method existing s

unfoldable pub process_method : Table → Method → Slots → Slots
unfolding lookup_class parameter_loop enter_by lookup_from
process_method output method s = elim (lookup_class method.type output) [
  | none ↦ record s { log = log_unknown method.loc method.type s.log }
  | some return_type ↦
      let (types, log) = parameter_loop output method.loc method.params [] s.log in
      enter_by (lookup_from output s.cls method.name) method return_type types
        (record s { log = log })
]

unfoldable pub methods_loop : Table → List Method → Slots → Slots
unfolding process_method
methods_loop output [] s = s
methods_loop output (m ∷ rest) s = methods_loop output rest (process_method output m s)

unfoldable pub process_methods : Class → CoolClass → Table → List Function → Logger → Slots
unfolding methods_loop
process_methods ast_cls cls output functions log =
    methods_loop output ast_cls.methods
      (record { cls = cls; functions = functions; log = log; next_vtable_index = 1 })
