-- ===== src/Program.antt =====
-- src/cool_program.hpp and src/cool_program.cpp: classes, attributes, method slots and methods. A
-- program is its table of classes, the newest first. A `cool_class*` is the name of its class, which
-- the table holds once, and to follow one is to search the table. A class is built over a parent that
-- is in the table already, so a parent stands behind its children: the walks along parents recur on
-- the table. An LLVM function is its name and its type. The member functions that only build LLVM
-- instructions are left out.
pub mod Order
pub mod Ancestor
pub mod Methods
pub mod Insert
pub mod Update
use lcool.Base.{
  ℕ, Bool, true, false, Option, none, some, List, [], ◌∷◌, ◌||◌, Bytes, equal, if◌then◌else◌,
}

pub data LlvmType : Type 0 where
  int1 int32 : LlvmType
  pointer : Bytes → LlvmType

-- `cool_attribute`
pub record CoolAttribute : Type 0 where
  pub name : Bytes
  pub type : Bytes
  pub struct_index : ℕ

-- `cool_method_slot`
pub record CoolMethodSlot : Type 0 where
  pub name : Bytes
  pub return_type : Bytes
  pub parameter_types : List Bytes
  pub declaring_class : Bytes
  pub vtable_index : ℕ

-- A function of the LLVM module, with its type; `none` is void.
pub record Function : Type 0 where
  pub name : Bytes
  pub return_type : Option LlvmType
  pub parameters : List LlvmType

-- `cool_method`
pub record CoolMethod : Type 0 where
  pub slot : CoolMethodSlot
  pub declaring_class : Bytes
  pub func : Function

-- `cool_class`; `final` is what its `is_final` returns.
pub record CoolClass : Type 0 where
  pub name : Bytes
  pub parent : Option Bytes
  pub final : Bool
  pub llvm_type : LlvmType
  pub attributes : List CoolAttribute
  pub methods : List CoolMethod

abbrev pub Table : Type 0
Table = List CoolClass

-- The two constructors of `cool_method`: a base method over its slot, and an override.
unfoldable pub base_method : CoolMethodSlot → Function → CoolMethod
base_method slot func = record { slot = slot; declaring_class = slot.declaring_class; func = func }

unfoldable pub override_method : Bytes → CoolMethod → Function → CoolMethod
override_method declaring_class base func = record {
  slot = base.slot;
  declaring_class = declaring_class;
  func = func;
}

-- `cool_program::lookup_class`
unfoldable pub lookup_class : Bytes → Table → Option CoolClass
unfolding equal
lookup_class name [] = none
lookup_class name (c ∷ older) = if equal c.name name then some c else lookup_class name older

-- `cool_program::insert_class`: nothing is inserted if the name is taken.
unfoldable pub insert_class : CoolClass → Table → Option Table
insert_class cls table = elim (lookup_class cls.name table) [
  | none ↦ some (cls ∷ table)
  | some old ↦ none
]

-- A change of the class that the table holds under the name.
unfoldable pub update_class : CoolClass → Table → Table
unfolding equal
update_class cls [] = []
update_class cls (c ∷ older) =
    if equal c.name cls.name then cls ∷ older else c ∷ update_class cls older

-- `cool_class::is_subclass_of`; a name that the table does not hold is no pointer.
unfoldable pub is_subclass_of : Table → Bytes → Bytes → Bool
unfolding equal
is_subclass_of [] this other = false
is_subclass_of (c ∷ older) this other = elim (equal c.name this) [
  | true ↦
      equal other this || elim c.parent [ none ↦ false | some p ↦ is_subclass_of older p other ]
  | false ↦ is_subclass_of older this other
]

-- The loop of `cool_class::common_ancestor`, at `a` and on along its parents; `none` is the failed
-- assertion at a null pointer. Subclass tests are made in the whole program.
unfoldable pub common_ancestor_from : Table → Table → Bytes → Bytes → Option Bytes
unfolding is_subclass_of
common_ancestor_from program [] a b = none
common_ancestor_from program (c ∷ older) a b = elim (equal c.name a) [
  | true ↦ elim (is_subclass_of program b a) [
    | true ↦ some a
    | false ↦ elim c.parent [ none ↦ none | some p ↦ common_ancestor_from program older p b ]
  ]
  | false ↦ common_ancestor_from program older a b
]

unfoldable pub common_ancestor : Table → Bytes → Bytes → Option Bytes
unfolding common_ancestor_from
common_ancestor program a b = common_ancestor_from program program a b

-- `_attributes.find` and `_methods.find`
unfoldable pub find_attribute : Bytes → List CoolAttribute → Option CoolAttribute
unfolding equal
find_attribute name [] = none
find_attribute name (a ∷ rest) = if equal a.name name then some a else find_attribute name rest

unfoldable pub find_method : Bytes → List CoolMethod → Option CoolMethod
unfolding equal
find_method name [] = none
find_method name (m ∷ rest) = if equal m.slot.name name then some m else find_method name rest

-- `cool_class::lookup_attribute`
unfoldable pub lookup_attribute : CoolClass → Bytes → Option CoolAttribute
unfolding find_attribute
lookup_attribute cls name = find_attribute name cls.attributes

-- `cool_class::lookup_method(name, true)`: this class first, then its parents.
unfoldable pub lookup_method : Table → Bytes → Bytes → Option CoolMethod
unfolding find_method
lookup_method [] this name = none
lookup_method (c ∷ older) this name = elim (equal c.name this) [
  | true ↦ elim (find_method name c.methods) [
    | some m ↦ some m
    | none ↦ elim c.parent [ none ↦ none | some p ↦ lookup_method older p name ]
  ]
  | false ↦ lookup_method older this name
]
