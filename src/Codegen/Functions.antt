-- ===== src/Codegen/Functions.antt =====
-- The functions of src/codegen.cpp that build whole functions, and `codegen`. `none` is a failed
-- assertion, or a null pointer that is used.
use lcool.Base.{
  ℕ, suc, ◌++◌, Bool, true, false, Option, none, some, List, [], ◌∷◌, Bytes, codes, equal,
  if◌then◌else◌, get_elem?,
}
use lcool.Ast.{Attribute, attribute, null, expr, Method, Class}
use lcool.Program.{
  LlvmType, pointer, CoolClass, CoolAttribute, CoolMethod, Function, Table, lookup_attribute,
}
use lcool.Layout.Vtable.{Entry, func, Vtable}
use lcool.Codegen.Builder.{
  Value, argument, global, alloca, store, call, br, ret, ret_void, ValueAndCls, M, ◌>>=◌, ◌>>◌,
  pure, skip, not_null, emit, check_empty, new_block, set_insert_point, log_error, push, get,
}
use lcool.Codegen.Classes.{
  upcast_to, downcast, type_of, refcount_inc, refcount_dec, on_object, cast_pointer,
}
use lcool.Codegen.Visit.{
  Context, value_and_cls, load_attribute, store_attribute, default_initializer, coerce,
}
use lcool.Codegen.Case.{Sort}
use lcool.Codegen.Expr.{evaluate}

-- The program, the vtables that the layout made, the functions in the vtables of the runtime,
-- and whether the module has the type of Object's vtable.
pub record Target : Type 0 where
  pub program : Table
  pub vtables : List (Bytes × Vtable)
  pub runtime_function : Bytes → ℕ → Option Function
  pub has_vtable_type : Bool

abbrev last_part : Vtable → List Entry
last_part [] = []
last_part ((n, es) ∷ []) = es
last_part ((n, es) ∷ (p ∷ v)) = last_part (p ∷ v)

abbrev function_of : Option Entry → Option Function
function_of (some (func f)) = some f
function_of _ = none

unfoldable pub find_vtable : Bytes → List (Bytes × Vtable) → Option Vtable
unfolding equal
find_vtable name [] = none
find_vtable name ((n, v) ∷ rest) = if equal n name then some v else find_vtable name rest

-- `get_object_vtable_func`: the operand of the part of Object.
unfoldable pub get_object_vtable_func : Target → Bytes → ℕ → Option Function
unfolding find_vtable
get_object_vtable_func t cls index = elim (find_vtable cls t.vtables) [
  | some v ↦ function_of (get_elem? (last_part v) index)
  | none ↦ t.runtime_function cls index
]

abbrev pub constructor : Target → Bytes → Option Function
constructor t cls = get_object_vtable_func t cls 3

abbrev pub copy_constructor : Target → Bytes → Option Function
copy_constructor t cls = get_object_vtable_func t cls 4

abbrev pub destructor : Target → Bytes → Option Function
destructor t cls = get_object_vtable_func t cls 5

-- `add_argument`; a name that is taken is left as it is.
unfoldable pub add_argument : Bytes → ValueAndCls → M Bool
unfolding get push
add_argument name info = do
  old ← get name
  elim old [ some i ↦ pure false | none ↦ do push name info; pure true ]

-- The type of a pointer to an Object.
abbrev pub object_pointer : LlvmType
object_pointer = pointer (codes "Object")

unfoldable pub copy_attributes : Target → Value → Value → List CoolAttribute → M (Unit {0})
unfolding load_attribute store_attribute on_object
copy_attributes t this other [] = skip
copy_attributes t this other (attr ∷ rest) = do
  value ← load_attribute other attr
  refcount_inc t.program attr.type value
  store_attribute this attr value
  copy_attributes t this other rest

-- Both pointers are the first argument: `begin()++` is the iterator before the increment.
unfoldable pub gen_copy_constructor : Target → CoolClass → M (Unit {0})
unfolding check_empty new_block set_insert_point downcast get_object_vtable_func emit
    copy_attributes
gen_copy_constructor t cls = do
  check_empty
  block ← new_block []
  set_insert_point block
  let pthis_obj = argument 0
  let other_obj = argument 0
  pthis ← downcast t.program cls.name object_pointer pthis_obj
  other ← downcast t.program cls.name object_pointer other_obj
  parent ← not_null cls.parent
  parent_func ← not_null (copy_constructor t parent)
  emit (call (global parent_func.name) (pthis_obj ∷ other_obj ∷ []))
  copy_attributes t pthis other cls.attributes
  emit ret_void
  skip

unfoldable pub destroy_attributes : Target → Value → List CoolAttribute → M (Unit {0})
unfolding load_attribute on_object
destroy_attributes t to_destroy [] = skip
destroy_attributes t to_destroy (attr ∷ rest) = do
  value ← load_attribute to_destroy attr
  refcount_dec t.program attr.type value
  destroy_attributes t to_destroy rest

unfoldable pub gen_destructor : Target → CoolClass → M (Unit {0})
unfolding check_empty new_block set_insert_point downcast get_object_vtable_func emit
    destroy_attributes
gen_destructor t cls = do
  check_empty
  block ← new_block []
  set_insert_point block
  let to_destroy_obj = argument 0
  to_destroy ← downcast t.program cls.name object_pointer to_destroy_obj
  destroy_attributes t to_destroy cls.attributes
  parent ← not_null cls.parent
  parent_func ← not_null (destructor t parent)
  emit (call (global parent_func.name) (to_destroy_obj ∷ []))
  emit ret_void
  skip

unfoldable pub initialize_attributes : Target → Value → List CoolAttribute → M (Unit {0})
unfolding default_initializer store_attribute
initialize_attributes t self [] = skip
initialize_attributes t self (attr ∷ rest) = do
  v ← default_initializer t.program attr.type
  store_attribute self attr v
  initialize_attributes t self rest

abbrev pub context : Target → Bytes → Context
context t cls = record {
  program = t.program;
  declaring_cls = cls;
  has_vtable_type = t.has_vtable_type;
}

-- The loop over the initializers of the source.
unfoldable pub run_initializers : Sort → Target → CoolClass → Value → List Attribute → M (Unit {0})
unfolding evaluate lookup_attribute coerce store_attribute
run_initializers sort t cls self [] = skip
run_initializers sort t cls self (attribute loc name type null ∷ rest) =
    run_initializers sort t cls self rest
run_initializers sort t cls self (attribute loc name type (expr e) ∷ rest) = do
  result ← evaluate sort (context t cls.name) e
  attr ← not_null (lookup_attribute cls name)
  upcasted ← coerce (context t cls.name) loc result attr.type
  elim upcasted [ none ↦ skip | some v ↦ store_attribute self attr v ]
  run_initializers sort t cls self rest

-- The builder and that of the generator move to the same block before each use.
unfoldable pub gen_constructor : Sort → Target → Class → CoolClass → M (Unit {0})
unfolding new_block set_insert_point emit cast_pointer add_argument get_object_vtable_func
    initialize_attributes run_initializers
gen_constructor sort t input cls = do
  init_block ← new_block (codes "init")
  user_block ← new_block []
  set_insert_point init_block
  self_ptr ← emit (alloca cls.llvm_type [])
  self ← cast_pointer (argument 0) object_pointer cls.llvm_type
  emit (store self self_ptr)
  add_argument (codes "self") (value_and_cls self_ptr cls.name)
  set_insert_point user_block
  parent ← not_null cls.parent
  parent_func ← not_null (constructor t parent)
  emit (call (global parent_func.name) (argument 0 ∷ []))
  initialize_attributes t self cls.attributes
  run_initializers sort t cls self input.attributes
  emit ret_void
  set_insert_point init_block
  emit (br user_block)
  skip

-- The loop over the parameters, at the `i`-th of them. The class and the LLVM type of each are those of
-- the slot and of the function.
unfoldable pub add_parameters : Target → CoolMethod → ℕ → List (Bytes × Bytes) → M (Unit {0})
unfolding type_of emit add_argument
add_parameters t m i [] = skip
add_parameters t m i ((name, type) ∷ rest) = do
  arg_cls ← not_null (get_elem? m.slot.parameter_types i)
  arg_type ← type_of t.program arg_cls
  arg_ptr ← emit (alloca arg_type [])
  given ← not_null (get_elem? m.func.parameters (suc i))
  emit (store (argument (suc i)) arg_ptr)
  add_argument name (value_and_cls arg_ptr arg_cls)
  add_parameters t m (suc i) rest

abbrev bad_return : Bytes → Bytes → Bytes
bad_return from to =
    codes "returning: invalid conversion from '" ++ (from ++ (codes "' to '" ++ (to ++ codes "'")))

-- The end of the user code: the result as the return type.
unfoldable pub return_result : Target → Method → CoolMethod → ValueAndCls → M (Unit {0})
unfolding upcast_to log_error emit
return_result t input m result = do
  upcasted ← upcast_to t.program result.cls result.value m.slot.return_type
  elim upcasted [
    | none ↦ log_error input.loc (bad_return result.cls m.slot.return_type)
    | some v ↦ do emit (ret v); skip
  ]

unfoldable pub gen_method : Sort → Target → Method → CoolClass → CoolMethod → M (Unit {0})
unfolding new_block set_insert_point type_of emit downcast add_argument add_parameters evaluate
    return_result
gen_method sort t input cls m = do
  init_block ← new_block (codes "init")
  set_insert_point init_block
  self_type ← not_null (get_elem? m.func.parameters 0)
  self_ptr ← emit (alloca cls.llvm_type [])
  self ← downcast t.program cls.name self_type (argument 0)
  emit (store self self_ptr)
  add_argument (codes "self") (value_and_cls self_ptr cls.name)
  add_parameters t m 0 input.params
  user_block ← new_block []
  set_insert_point user_block
  result ← evaluate sort (context t m.declaring_class) input.body
  return_result t input m result
  set_insert_point init_block
  emit (br user_block)
  skip
