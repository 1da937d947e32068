-- ===== src/Codegen/Classes.antt =====
-- The members of `cool_class` and `cool_method` that build code (src/cool_program.cpp), with the
-- overrides of the builtin String, Int and Bool (src/builtins.cpp).
use lcool.Base.{
  ℕ, suc, ◌==◌, ◌++◌, ◌||◌, Bool, true, false, Option, none, some, List, [], ◌∷◌, Bytes, codes,
  equal, if◌then◌else◌, replicate, map, get_elem?,
}
use lcool.Base.Int.{pos}
use lcool.Program.{LlvmType, int1, int32, pointer, CoolClass, CoolMethod, Table, lookup_class}
use lcool.Codegen.Builder.{
  Value, global, literal, int_const, gep, bit_cast, call, load, M, ◌>>=◌, ◌>>◌, pure, skip,
  ValueAndCls, not_null, fault, emit,
}

-- A pointer to a class is followed.
unfoldable pub class_of : Table → Bytes → M CoolClass
unfolding lookup_class
class_of program name = not_null (lookup_class name program)

unfoldable pub call_global : Bytes → List Value → M Value
unfolding emit
call_global name args = emit (call (global name) args)

-- How many times the loop of `upcast_to` goes to the parent.
unfoldable pub steps_up : Table → Bytes → Bytes → Option ℕ
unfolding equal
steps_up [] this to = none
steps_up (c ∷ older) this to = elim (equal c.name this) [
  | false ↦ steps_up older this to
  | true ↦ elim (equal to this) [
    | true ↦ some 0
    | false ↦ elim c.parent [
      | none ↦ none
      | some p ↦ elim (steps_up older p to) [ none ↦ none | some n ↦ some (suc n) ]
    ]
  ]
]

-- Null where the class is not below the target.
unfoldable pub upcast_ref : Table → Bytes → Value → Bytes → M (Option Value)
unfolding emit steps_up
upcast_ref program this value to = elim (steps_up program this to) [
  | none ↦ pure none
  | some n ↦ do v ← emit (gep value (replicate (suc n) 0)); pure (some v)
]

-- `builtin_value_class::upcast_to`
unfoldable pub upcast_value : CoolClass → Value → Bytes → M (Option Value)
unfolding call_global equal
upcast_value cls value to =
    let box : M (Option Value) = (do
      v ← call_global (cls.name ++ codes "$box") (value ∷ [])
      pure (some v)) in
    elim cls.parent [ none ↦ pure none | some p ↦ if equal to p then box else pure none ]

abbrev pub is_value : LlvmType → Bool
is_value int1 = true
is_value int32 = true
is_value (pointer p) = false

-- `upcast_to`, on the class that the value has.
unfoldable pub upcast_to : Table → Bytes → Value → Bytes → M (Option Value)
unfolding class_of upcast_ref upcast_value equal
upcast_to program this value to =
    let up : M (Option Value) = (do
      cls ← class_of program this
      if is_value cls.llvm_type
          then upcast_value cls value to
          else upcast_ref program this value to) in
    if equal to this then pure (some value) else up

-- The loop of `upcast_to_object`.
unfoldable pub root_of : Table → Bytes → Option Bytes
unfolding equal
root_of [] this = none
root_of (c ∷ older) this = elim (equal c.name this) [
  | false ↦ root_of older this
  | true ↦ elim c.parent [ none ↦ some this | some p ↦ root_of older p ]
]

unfoldable pub upcast_to_object : Table → Bytes → Value → M (Option Value)
unfolding upcast_to root_of
upcast_to_object program this value = do
  root ← not_null (root_of program this)
  upcast_to program this value root

-- `upcast_to_object`, where the result goes into a call.
unfoldable pub object_value : Table → Bytes → Value → M Value
unfolding upcast_to_object
object_value program this value = do v ← upcast_to_object program this value; not_null v

-- The LLVM type of a value of the class.
unfoldable pub type_of : Table → Bytes → M LlvmType
unfolding class_of
type_of program name = do cls ← class_of program name; pure cls.llvm_type

-- A cast between pointers; LLVM asserts that the value is one.
unfoldable pub cast_pointer : Value → LlvmType → LlvmType → M Value
unfolding emit
cast_pointer value (pointer p) to = emit (bit_cast value to)
cast_pointer value int1 to = fault
cast_pointer value int32 to = fault

unfoldable pub same_type : LlvmType → LlvmType → Bool
unfolding equal
same_type int1 int1 = true
same_type int32 int32 = true
same_type (pointer p) (pointer q) = equal p q
same_type _ _ = false

-- `downcast` of a value of the type `from`.
unfoldable pub downcast : Table → Bytes → LlvmType → Value → M Value
unfolding class_of type_of cast_pointer call_global same_type
downcast program this from value = do
  cls ← class_of program this
  if is_value cls.llvm_type
      then (do
        p ← not_null cls.parent
        t ← type_of program p
        if same_type from t then call_global (this ++ codes "$unbox") (value ∷ []) else fault)
      else cast_pointer value from cls.llvm_type

-- A call of a runtime function on a value as an Object; nothing for an Int or a Bool.
unfoldable pub on_object : Bytes → Table → Bytes → Value → M (Unit {0})
unfolding class_of object_value call_global
on_object name program this value = do
  cls ← class_of program this
  if is_value cls.llvm_type
      then skip
      else (do v ← object_value program this value; call_global name (v ∷ []); skip)

abbrev pub refcount_inc : Table → Bytes → Value → M (Unit {0})
refcount_inc = on_object (codes "refcount_inc")

abbrev pub refcount_dec : Table → Bytes → Value → M (Unit {0})
refcount_dec = on_object (codes "refcount_dec")

-- A String is never null.
unfoldable pub ensure_not_null : Table → Bytes → Value → M (Unit {0})
unfolding on_object equal
ensure_not_null program this value =
    if equal this (codes "String") then skip else on_object (codes "null_check") program this value

-- `create_object` of a class whose objects are made by the runtime.
unfoldable pub new_object_of : Table → Bytes → M Value
unfolding class_of upcast_ref root_of call_global cast_pointer
new_object_of program this = do
  cls ← class_of program this
  root ← not_null (root_of program this)
  vtable ←
      if equal root this
      then pure (some (global (this ++ codes "$vtable")))
      else upcast_ref program this (global (this ++ codes "$vtable")) root
  v ← not_null vtable
  object ← call_global (codes "new_object") (v ∷ [])
  cast_pointer object (pointer root) cls.llvm_type

unfoldable pub create_object : Table → Bytes → M Value
unfolding class_of on_object new_object_of equal
create_object program this = do
  cls ← class_of program this
  if is_value cls.llvm_type
      then pure (int_const (pos 0))
      else if equal this (codes "String")
      then (do
        refcount_inc program this (global (codes "String$empty"))
        pure (global (codes "String$empty")))
      else new_object_of program this

-- `cool_program::create_string_literal`; the name of the new global is left out.
unfoldable pub create_string_literal : Bytes → Value
create_string_literal [] = global (codes "String$empty")
create_string_literal (b ∷ content) = literal (b ∷ content)

-- The function to call, loaded from the vtable of the object.
unfoldable pub load_function : Bytes → ℕ → Value → M Value
unfolding emit
load_function declaring_class index object = do
  ptr_ptr_vtable ← emit (gep object (0 ∷ 0 ∷ []))
  ptr_obj_vtable ← emit (load ptr_ptr_vtable)
  ptr_vtable ← emit (bit_cast ptr_obj_vtable (pointer (declaring_class ++ codes "$vtabletype")))
  ptr_func ← emit (gep ptr_vtable (0 ∷ index ∷ []))
  emit (load ptr_func)

abbrev pub values : List ValueAndCls → List Value
values = map (λ a. a.value)

-- `cool_method::call` behind its assertions; the object is the first of the arguments.
unfoldable pub call_function : Table → CoolMethod → Value → List Value → Bool → M Value
unfolding class_of object_value load_function emit
call_function program m self args static_call = do
  self_upcast ← object_value program m.slot.declaring_class self
  cls ← class_of program m.declaring_class
  f ←
      if static_call || m.slot.vtable_index == 0 || cls.final
      then pure (global m.func.name)
      else load_function m.slot.declaring_class m.slot.vtable_index self_upcast
  emit (call f (self ∷ args))

-- `cool_method::call`. An argument goes with the class whose LLVM type it has. The function must take
-- an object of the type of the first.
unfoldable pub call_method : Table → CoolMethod → List ValueAndCls → Bool → M Value
unfolding type_of same_type call_function
call_method program m [] static_call = fault
call_method program m (self ∷ args) static_call = do
  expected ← not_null (get_elem? m.func.parameters 0)
  given ← type_of program self.cls
  if same_type expected given
      then call_function program m self.value (values args) static_call
      else fault
