-- ===== src/Builtins.antt =====
-- `builtins_register` (src/builtins.cpp): the classes that every program begins with. The runtime's
-- LLVM module is not C++ code and is a parameter. `none` is a failed assertion.
pub mod Registered
pub mod Laid
use lcool.Base.{
  ℕ, ◌++◌, ◌&&◌, Bool, true, false, Option, none, some, List, [], ◌∷◌, Bytes, codes, if◌then◌else◌,
}
use lcool.Base.Options.{◌>>=◌}
use lcool.Program.{
  LlvmType, int1, int32, pointer, CoolClass, CoolMethodSlot, Function, Table, base_method,
  lookup_class, insert_class, find_method, update_class,
}

-- What `getTypeByName`, `getNamedGlobal` and `getFunction` find in the module.
pub record Runtime : Type 0 where
  pub has_type : Bytes → Bool
  pub has_global : Bytes → Bool
  pub get_function : Bytes → Option Function

abbrev vtable_name : Bytes → Bytes
vtable_name name = name ++ codes "$vtable"

abbrev builtin_class : Bytes → Option Bytes → Bool → LlvmType → CoolClass
builtin_class name parent final type = record {
  name = name;
  parent = parent;
  final = final;
  llvm_type = type;
  attributes = [];
  methods = [];
}

-- `builtin_ref_class`, and with `final` set `builtin_string_class`.
unfoldable pub insert_ref_class : Runtime → Bytes → Option Bytes → Bool → Table → Option Table
unfolding insert_class
insert_ref_class rt name parent final t =
    if rt.has_type name && rt.has_global (vtable_name name)
    then insert_class (builtin_class name parent final (pointer name)) t
    else none

-- `builtin_value_class`, which is final.
unfoldable pub insert_value_class : Runtime → Bytes → Bytes → LlvmType → Table → Option Table
unfolding insert_class
insert_value_class rt name parent type t =
    if rt.has_global (vtable_name name)
    then insert_class (builtin_class name (some parent) true type) t
    else none

unfoldable pub add_method : Runtime → Bytes → Bytes → Bytes → ℕ → List Bytes → Table → Option Table
unfolding lookup_class find_method base_method update_class
add_method rt cls name return_type vtable_index param_types t = lookup_class cls t >>= λ c.
    rt.get_function (c.name ++ (codes "." ++ name)) >>= λ func.
    let slot : CoolMethodSlot = record {
      name = name;
      return_type = return_type;
      parameter_types = param_types;
      declaring_class = c.name;
      vtable_index = vtable_index;
    } in
    elim (find_method name c.methods) [
      | some old ↦ none
      | none ↦ some (update_class (record c { methods = base_method slot func ∷ c.methods }) t)
    ]

unfoldable pub add_static_method :
    Runtime → Bytes → Bytes → Bytes → List Bytes → Table → Option Table
unfolding add_method
add_static_method rt cls name return_type param_types t =
    add_method rt cls name return_type 0 param_types t

abbrev pub object : Bytes
object = codes "Object"

abbrev pub io : Bytes
io = codes "IO"

abbrev pub string : Bytes
string = codes "String"

abbrev pub bool : Bytes
bool = codes "Bool"

abbrev pub int : Bytes
int = codes "Int"

unfoldable pub register_classes : Runtime → Table → Option Table
unfolding insert_ref_class insert_value_class
register_classes rt t =
    insert_ref_class rt object none false t
    >>= insert_ref_class rt io (some object) false
    >>= insert_ref_class rt string (some object) true
    >>= insert_value_class rt bool object int1
    >>= insert_value_class rt int object int32

unfoldable pub register_methods : Runtime → Table → Option Table
unfolding add_method add_static_method
register_methods rt t =
    add_method rt object (codes "abort") object 6 [] t
    >>= add_method rt object (codes "copy") object 7 []
    >>= add_method rt object (codes "type_name") string 8 []
    >>= add_method rt io (codes "in_int") int 1 []
    >>= add_method rt io (codes "in_string") string 2 []
    >>= add_method rt io (codes "out_int") io 3 (int ∷ [])
    >>= add_method rt io (codes "out_string") io 4 (string ∷ [])
    >>= add_static_method rt string (codes "length") int []
    >>= add_static_method rt string (codes "concat") string (string ∷ [])
    >>= add_static_method rt string (codes "substr") string (int ∷ int ∷ [])

unfoldable pub builtins_register : Runtime → Table → Option Table
unfolding register_classes register_methods
builtins_register rt t = register_classes rt t >>= register_methods rt
