-- ===== src/Codegen/Builder.antt =====
-- What src/codegen.cpp asks of LLVM's IRBuilder, call by call, and the state of an `expr_codegen`. The
-- builder is not part of the program: a call is kept with its operands and the block it goes to, and
-- the value that it returns is known by the position of the call.
use lcool.Base.{
  ℕ, ◌++◌, Bool, false, codes, Option, none, some, List, [], ◌∷◌, Bytes, equal, if◌then◌else◌,
  length,
}
use lcool.Base.Int.{ℤ}
use lcool.Logger.{Location, Logger, error_at, warning_at}
use lcool.Program.{LlvmType}

-- Constants, the arguments of the function, and what a call returned. `object_vtable` is the vtable of a
-- class as one of Object, `literal` a string constant.
pub data Value : Type 0 where
  returned argument : ℕ → Value
  int_const : ℤ → Value
  bool_const : Bool → Value
  null_const : LlvmType → Value
  global object_vtable literal : Bytes → Value

-- The numbers of `gep` are constant indices. A callee is a global or a value. An `incoming` belongs to
-- the phi node that it names.
pub data Instruction : Type 0 where
  alloca : LlvmType → Bytes → Instruction
  load : Value → Instruction
  store : Value → Value → Instruction
  gep : Value → List ℕ → Instruction
  bit_cast : Value → LlvmType → Instruction
  call : Value → List Value → Instruction
  br : ℕ → Instruction
  cond_br : Value → ℕ → ℕ → Instruction
  phi : LlvmType → Instruction
  incoming : Value → Value → ℕ → Instruction
  icmp_eq icmp_slt icmp_sle add sub mul sdiv : Value → Value → Instruction
  neg complement ret : Value → Instruction
  unreachable ret_void : Instruction

-- A value and its class; a pointer to a class is its name.
pub record ValueAndCls : Type 0 where
  pub value : Value
  pub cls : Bytes

-- `local_vars_stack`, its top first.
abbrev pub Locals : Type 0
Locals = List (Bytes × ValueAndCls)

-- The blocks of the function by their names, the block of the insert point, the calls with the newest
-- first, the local variables and the logger.
pub record Gen : Type 0 where
  pub blocks : List Bytes
  pub insert_block : ℕ
  pub code : List (ℕ × Instruction)
  pub locals : Locals
  pub log : Logger

-- `none` is a failed assertion, or a null pointer that is used.
abbrev pub M : Type 0 → Type 0
M A = Gen → Option (A × Gen)

infixl 5 ◌>>=◌ ◌>>◌
unfoldable pub ◌>>=◌ : {A B : Type 0} → M A → (A → M B) → M B
◌>>=◌ m f g = elim (m g) [ none ↦ none | some (a, g') ↦ f a g' ]

abbrev pub ◌>>◌ : {A B : Type 0} → M A → M B → M B
m >> k = m >>= λ _. k

unfoldable pub pure : {A : Type 0} → A → M A
pure a g = some (a, g)

abbrev pub skip : M (Unit {0})
skip = pure tt

-- A pointer that must not be null.
abbrev pub not_null : {A : Type 0} → Option A → M A
not_null none g = none
not_null (some a) g = some (a, g)

abbrev pub fault : {A : Type 0} → M A
fault g = none

unfoldable pub emit : Instruction → M Value
emit i g = some (returned (length g.code), record g { code = (g.insert_block, i) ∷ g.code })

-- `BasicBlock::Create`
unfoldable pub new_block : Bytes → M ℕ
new_block name g = some (length g.blocks, record g { blocks = g.blocks ++ name ∷ [] })

unfoldable pub at_init : List Bytes → Bool
unfolding equal
at_init [] = false
at_init (b ∷ bs) = equal b (codes "init")

-- The assertion that the front block of the function is "init".
unfoldable pub check_init : M (Unit {0})
unfolding at_init
check_init g = if at_init g.blocks then some (tt, g) else none

-- The assertion that the function has no block.
unfoldable pub check_empty : M (Unit {0})
check_empty g = elim g.blocks [ [] ↦ some (tt, g) | b ∷ bs ↦ none ]

unfoldable pub set_insert_point : ℕ → M (Unit {0})
set_insert_point b g = some (tt, record g { insert_block = b })

unfoldable pub get_insert_block : M ℕ
get_insert_block g = some (g.insert_block, g)

unfoldable pub log_error : Location → Bytes → M (Unit {0})
unfolding error_at
log_error loc msg g = some (tt, record g { log = error_at loc msg g.log })

unfoldable pub log_warning : Location → Bytes → M (Unit {0})
unfolding warning_at
log_warning loc msg g = some (tt, record g { log = warning_at loc msg g.log })

-- `local_vars_stack::push`
unfoldable pub push : Bytes → ValueAndCls → M (Unit {0})
push name info g = some (tt, record g { locals = (name, info) ∷ g.locals })

unfoldable pub pop_locals : ℕ → Locals → Option Locals
pop_locals ℕ.zero vars = some vars
pop_locals (ℕ.suc n) [] = none
pop_locals (ℕ.suc n) (v ∷ vars) = pop_locals n vars

-- `local_vars_stack::pop`
unfoldable pub pop : ℕ → M (Unit {0})
unfolding pop_locals
pop n g = elim (pop_locals n g.locals) [
  | none ↦ none
  | some vars ↦ some (tt, record g { locals = vars })
]

unfoldable pub find_local : Bytes → Locals → Option ValueAndCls
unfolding equal
find_local name [] = none
find_local name ((n, info) ∷ vars) = if equal n name then some info else find_local name vars

-- `local_vars_stack::get`
unfoldable pub get : Bytes → M (Option ValueAndCls)
unfolding find_local
get name g = some (find_local name g.locals, g)
