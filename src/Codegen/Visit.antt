-- ===== src/Codegen/Visit.antt =====
-- The visitors of `expr_codegen` (src/codegen.cpp), on what the expressions inside gave. `evaluate`
-- returns `_result`, so each returns what `_result` holds at its end.
use lcool.Base.{
  ℕ, ◌==◌, ◌++◌, ◌&&◌, ◌||◌, Bool, true, false, not, Option, none, some, List, [], ◌∷◌, Bytes,
  codes, equal, decimal, if◌then◌else◌, length,
}
use lcool.Base.Int.{pos}
use lcool.Logger.{Location}
use lcool.Ast.{UnaryType, BinaryType}
use lcool.Program.{
  CoolAttribute, CoolMethod, Table, lookup_class, is_subclass_of, lookup_method, lookup_attribute,
}
use lcool.Codegen.Builder.{
  Value, int_const, bool_const, null_const, Instruction, gep, store, load, alloca, icmp_eq,
  icmp_slt, icmp_sle, neg, complement, ValueAndCls, M, ◌>>=◌, ◌>>◌, pure, skip, not_null, fault,
  emit, check_init, get_insert_block, set_insert_point, log_error, log_warning, push, get,
}
use lcool.Codegen.Classes.{
  class_of, call_global, upcast_to, type_of, is_value, ensure_not_null, create_object, call_method,
}

-- What does not change while the code of a function is built. The last is whether the module has the type
-- of Object's vtable.
pub record Context : Type 0 where
  pub program : Table
  pub declaring_cls : Bytes
  pub has_vtable_type : Bool

abbrev pub value_and_cls : Value → Bytes → ValueAndCls
value_and_cls v c = record { value = v; cls = c }

abbrev pub int : Bytes
int = codes "Int"

abbrev pub bool : Bytes
bool = codes "Bool"

abbrev pub string : Bytes
string = codes "String"

abbrev pub zero_value : ValueAndCls
zero_value = value_and_cls (int_const (pos 0)) int

abbrev pub false_value : ValueAndCls
false_value = value_and_cls (bool_const false) bool

-- `_null_object`
unfoldable pub null_object : Context → M ValueAndCls
unfolding type_of
null_object ctx = do
  t ← type_of ctx.program (codes "Object")
  pure (value_and_cls (null_const t) (codes "Object"))

unfoldable pub get_slot_pointer : Value → ℕ → M Value
unfolding emit
get_slot_pointer object slot = emit (gep object (0 ∷ slot ∷ []))

unfoldable pub load_attribute : Value → CoolAttribute → M Value
unfolding get_slot_pointer emit
load_attribute object attr = do p ← get_slot_pointer object attr.struct_index; emit (load p)

unfoldable pub store_attribute : Value → CoolAttribute → Value → M (Unit {0})
unfolding get_slot_pointer emit
store_attribute object attr to_store = do
  p ← get_slot_pointer object attr.struct_index
  emit (store to_store p)
  skip

unfoldable pub default_initializer : Table → Bytes → M Value
unfolding create_object type_of equal
default_initializer program cls =
    if equal cls int || (equal cls bool || equal cls string)
    then create_object program cls
    else (do t ← type_of program cls; pure (null_const t))

-- `push_new_variable`; null on an error.
unfoldable pub push_new_variable : Context → Location → Bytes → Bytes → M (Option Value)
unfolding type_of emit check_init get_insert_block set_insert_point push log_error equal
push_new_variable ctx loc id cls =
    let fresh : M (Option Value) = (do
      check_init
      saved_block ← get_insert_block
      set_insert_point 0
      t ← type_of ctx.program cls
      p ← emit (alloca t id)
      set_insert_point saved_block
      push id (value_and_cls p cls)
      pure (some p)) in
    if equal id (codes "self")
    then (do log_error loc (codes "illegal variable name 'self'"); pure none)
    else fresh

unfoldable pub invalid_conversion : Location → Bytes → Bytes → M (Unit {0})
unfolding log_error
invalid_conversion loc from to =
    log_error loc
      (codes "invalid conversion from '" ++ (from ++ (codes "' to '" ++ (to ++ codes "'"))))

-- The value as one of the class, or null after an error.
unfoldable pub coerce : Context → Location → ValueAndCls → Bytes → M (Option Value)
unfolding upcast_to invalid_conversion
coerce ctx loc r to = do
  v ← upcast_to ctx.program r.cls r.value to
  elim v [ some v' ↦ pure (some v') | none ↦ do invalid_conversion loc r.cls to; pure none ]

-- `evaluate(_ast_self)`. Without a local of that name the error would read the location of the node,
-- which has no file name, or the search would not end at an attribute of that name.
unfoldable pub load_self : M ValueAndCls
unfolding get emit
load_self = do
  info ← get (codes "self")
  elim info [
    | none ↦ fault
    | some local ↦ do v ← emit (load local.value); pure (value_and_cls v local.cls)
  ]

abbrev pub lookup_member : Context → Bytes → M (Option CoolAttribute)
lookup_member ctx id = do
  cls ← class_of ctx.program ctx.declaring_cls
  pure (lookup_attribute cls id)

abbrev pub not_defined : Bytes → Bytes
not_defined id = codes "variable not defined '" ++ (id ++ codes "'")

-- `visit(identifier)`
unfoldable pub visit_identifier : Context → Location → Bytes → M ValueAndCls
unfolding get emit load_self load_attribute class_of lookup_attribute log_error
visit_identifier ctx loc id = do
  info ← get id
  elim info [
    | some local ↦ do v ← emit (load local.value); pure (value_and_cls v local.cls)
    | none ↦ do
      attr ← lookup_member ctx id
      elim attr [
        | some a ↦ do
          self ← load_self
          v ← load_attribute self.value a
          pure (value_and_cls v a.type)
        | none ↦ do log_error loc (not_defined id); pure zero_value
      ]
  ]

-- The branch of `visit(assign)` for an attribute: `evaluate(_ast_self)` leaves self in `_result`.
unfoldable pub assign_attribute : Context → Location → CoolAttribute → ValueAndCls → M ValueAndCls
unfolding coerce load_self store_attribute
assign_attribute ctx loc a r = do
  coerced ← coerce ctx loc r a.type
  elim coerced [
    | none ↦ pure r
    | some v ↦ do self ← load_self; store_attribute self.value a v; pure self
  ]

-- `visit(assign)`, after its value.
unfoldable pub visit_assign : Context → Location → Bytes → ValueAndCls → M ValueAndCls
unfolding get emit coerce assign_attribute class_of lookup_attribute log_error equal
visit_assign ctx loc id r =
    let variable : M ValueAndCls = (do
      info ← get id
      elim info [
        | some local ↦ do
          coerced ← coerce ctx loc r local.cls
          elim coerced [ none ↦ pure r | some v ↦ do emit (store v local.value); pure r ]
        | none ↦ do
          attr ← lookup_member ctx id
          elim attr [
            | some a ↦ assign_attribute ctx loc a r
            | none ↦ do log_error loc (not_defined id); pure r
          ]
      ]) in
    if equal id (codes "self")
    then (do log_error loc (codes "cannot assign to self"); pure r)
    else variable

-- The loop over `boost::combine(args, parameter_types)`.
unfoldable pub coerce_args :
    Context → Location → List ValueAndCls → List Bytes → M (List ValueAndCls)
unfolding coerce
coerce_args ctx loc [] types = pure []
coerce_args ctx loc (a ∷ args) [] = pure []
coerce_args ctx loc (a ∷ args) (t ∷ types) = do
  coerced ← coerce ctx loc a t
  rest ← coerce_args ctx loc args types
  elim coerced [ none ↦ pure rest | some v ↦ pure (value_and_cls v t ∷ rest) ]

-- The object of a call, as the class that declares the slot.
unfoldable pub coerce_object :
    Context → Location → ValueAndCls → Bytes → Bytes → M (List ValueAndCls)
unfolding upcast_to ensure_not_null invalid_conversion
coerce_object ctx loc object cls declaring_class = do
  coerced ← upcast_to ctx.program object.cls object.value declaring_class
  elim coerced [
    | none ↦ do invalid_conversion loc object.cls cls; pure []
    | some v ↦ do
      ensure_not_null ctx.program object.cls object.value
      pure (value_and_cls v declaring_class ∷ [])
  ]

abbrev pub wrong_arguments : Bytes → CoolMethod → ℕ → Bytes
wrong_arguments cls m got =
    codes "wrong number of arguments for method '"
    ++ (cls
        ++ (codes "."
            ++ (m.slot.name
                ++ (codes "' (expected "
                    ++ (decimal (length m.slot.parameter_types)
                        ++ (codes ", got " ++ (decimal got ++ codes ")")))))))

-- From "Find method" on. The test at the end is on the number of the arguments again, not on that of
-- the coerced ones.
unfoldable pub dispatch_to :
    Context → Location → Bytes → ValueAndCls → List ValueAndCls → Bytes → Bool → M ValueAndCls
unfolding coerce_object coerce_args call_method log_error lookup_method
dispatch_to ctx loc method_name object args cls force_static =
    elim (lookup_method ctx.program cls method_name) [
      | none ↦ do
        log_error loc (
            codes "method '"
            ++ (method_name ++ (codes "' not defined for class '" ++ (cls ++ codes "'"))))
        pure zero_value
      | some m ↦
          if length args == length m.slot.parameter_types
          then (do
            self ← coerce_object ctx loc object cls m.slot.declaring_class
            rest ← coerce_args ctx loc args m.slot.parameter_types
            v ← call_method ctx.program m (self ++ rest) force_static
            pure (value_and_cls v m.slot.return_type))
          else (do log_error loc (wrong_arguments cls m (length args)); pure zero_value)
    ]

-- `visit(dispatch)`, after its object and its arguments.
unfoldable pub visit_dispatch :
    Context → Location → Bytes → ValueAndCls → Option Bytes → List ValueAndCls → M ValueAndCls
unfolding dispatch_to lookup_class is_subclass_of log_error
visit_dispatch ctx loc method_name object none args =
    dispatch_to ctx loc method_name object args object.cls false
visit_dispatch ctx loc method_name object (some type) args = elim (lookup_class type ctx.program) [
  | none ↦ do log_error loc (codes "class not defined '" ++ (type ++ codes "'")); pure zero_value
  | some cls ↦
      if is_subclass_of ctx.program object.cls cls.name
      then dispatch_to ctx loc method_name object args cls.name true
      else (do
        log_error loc (
            codes "'"
            ++ (object.cls
                ++ (codes "' to the left of the dispatch is not a subclass of '@"
                    ++ (cls.name ++ codes "'"))))
        pure zero_value)
]

-- A predicate that is no Bool is replaced by a constant, with an error.
unfoldable pub check_bool : Location → Bytes → ValueAndCls → M ValueAndCls
unfolding log_error equal
check_bool loc message predicate =
    if equal predicate.cls bool
    then pure predicate
    else (do log_error loc message; pure false_value)

-- `visit(new_object)`
unfoldable pub visit_new_object : Context → Location → Bytes → M ValueAndCls
unfolding lookup_class create_object null_object log_error
visit_new_object ctx loc type = elim (lookup_class type ctx.program) [
  | none ↦ do log_error loc (codes "class not defined '" ++ (type ++ codes "'")); null_object ctx
  | some cls ↦ do v ← create_object ctx.program cls.name; pure (value_and_cls v cls.name)
]

-- `visit(compute_unary)`; a value is a pointer if the LLVM type of its class is one.
unfoldable pub visit_unary : Context → Location → UnaryType → ValueAndCls → M ValueAndCls
unfolding type_of emit log_warning log_error equal
visit_unary ctx loc UnaryType.isvoid r = do
  t ← type_of ctx.program r.cls
  if is_value t
      then (do log_warning loc (codes "isvoid on Int or Bool is always false"); pure false_value)
      else (do v ← emit (icmp_eq r.value (null_const t)); pure (value_and_cls v bool))
visit_unary ctx loc UnaryType.negate r =
    if equal r.cls int
    then (do v ← emit (neg r.value); pure (value_and_cls v int))
    else (do log_error loc (codes "input to ~ operator must be an Int"); pure zero_value)
visit_unary ctx loc UnaryType.logical_not r =
    if equal r.cls bool
    then (do v ← emit (complement r.value); pure (value_and_cls v bool))
    else (do log_error loc (codes "input to 'not' operator must be a Bool"); pure false_value)

abbrev pub differ : Bool → Bool → Bool
differ true b = not b
differ false b = b

-- One side is a basic type and the other is not, or is another.
unfoldable pub mixed : Bytes → Bytes → Bool
unfolding equal
mixed l r =
    differ (equal l bool) (equal r bool)
    || (differ (equal l int) (equal r int) || differ (equal l string) (equal r string))

-- The equality of `visit(compute_binary)`.
unfoldable pub visit_equal : Context → Location → ValueAndCls → ValueAndCls → M ValueAndCls
unfolding mixed is_subclass_of upcast_to call_global emit log_error log_warning equal
visit_equal ctx loc l r =
    if mixed l.cls r.cls
    then (do
      log_error loc (codes "basic types can only be compared with themselves")
      pure false_value)
    else if equal l.cls string
    then (do
      v ← call_global (codes "String$equals") (l.value ∷ r.value ∷ [])
      pure (value_and_cls v bool))
    else if is_subclass_of ctx.program l.cls r.cls
    then (do
      up ← upcast_to ctx.program l.cls l.value r.cls
      left ← not_null up
      v ← emit (icmp_eq left r.value)
      pure (value_and_cls v bool))
    else if is_subclass_of ctx.program r.cls l.cls
    then (do
      up ← upcast_to ctx.program r.cls r.value l.cls
      right ← not_null up
      v ← emit (icmp_eq l.value right)
      pure (value_and_cls v bool))
    else (do log_warning loc (codes "result of comparison is always false"); pure false_value)

unfoldable pub visit_arithmetic :
    Location → (Value → Value → M Value) → ValueAndCls → ValueAndCls → M ValueAndCls
unfolding log_error equal
visit_arithmetic loc build l r =
    if equal l.cls int && equal r.cls int
    then (do v ← build l.value r.value; pure (value_and_cls v int))
    else (do
      log_error loc (codes "both inputs to an arithmetic expression must be Ints")
      pure zero_value)

unfoldable pub visit_comparison :
    Location → (Value → Value → Instruction) → ValueAndCls → ValueAndCls → M ValueAndCls
unfolding emit log_error equal
visit_comparison loc build l r =
    if equal l.cls int && equal r.cls int
    then (do v ← emit (build l.value r.value); pure (value_and_cls v bool))
    else (do
      log_error loc (codes "both inputs to a comparison expression must be Ints")
      pure false_value)

-- The division, behind the check of the divisor.
unfoldable pub divide : Value → Value → M Value
unfolding call_global emit
divide l r = do call_global (codes "zero_division_check") (r ∷ []); emit (Instruction.sdiv l r)

-- `visit(compute_binary)`
unfoldable pub visit_binary :
    Context → Location → BinaryType → ValueAndCls → ValueAndCls → M ValueAndCls
unfolding visit_equal visit_arithmetic visit_comparison divide emit
visit_binary ctx loc BinaryType.equal l r = visit_equal ctx loc l r
visit_binary ctx loc BinaryType.add l r =
    visit_arithmetic loc (λ a b. emit (Instruction.add a b)) l r
visit_binary ctx loc BinaryType.subtract l r =
    visit_arithmetic loc (λ a b. emit (Instruction.sub a b)) l r
visit_binary ctx loc BinaryType.multiply l r =
    visit_arithmetic loc (λ a b. emit (Instruction.mul a b)) l r
visit_binary ctx loc BinaryType.divide l r = visit_arithmetic loc divide l r
visit_binary ctx loc BinaryType.less l r = visit_comparison loc icmp_slt l r
visit_binary ctx loc BinaryType.less_or_equal l r = visit_comparison loc icmp_sle l r
