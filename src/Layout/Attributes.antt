-- ===== src/Layout/Attributes.antt =====
-- `process_attributes` (src/layout.cpp): the fields of a class's structure. An LLVM structure type is
-- the list of its elements.
pub mod Placing
pub mod Rounds
pub mod Longer
pub mod Filling
use lcool.Base.{
  ℕ, ◌++◌, Bool, true, false, Option, none, some, List, [], ◌∷◌, Bytes, codes, equal, if◌then◌else◌,
  length,
}
use lcool.Base.Options.{◌>>=◌}
use lcool.Logger.{Logger, error_at}
use lcool.Ast.{Attribute, attribute, Class}
use lcool.Program.{
  LlvmType, int1, int32, pointer, CoolClass, CoolAttribute, Table, lookup_class, find_attribute,
}

-- An element of a structure: the structure of the parent, or a value.
pub data Element : Type 0 where
  struct : Bytes → Element
  value : LlvmType → Element

-- A pointer to an attribute of the class is its name; the LLVM type of its class stands beside it.
abbrev pub Pending : Type 0
Pending = List (Bytes × LlvmType)

-- The variables of the function, the attributes of the class and the logger.
pub record Fields : Type 0 where
  pub elements : List Element
  pub attributes : List CoolAttribute
  pub attrib_int : Pending
  pub attrib_bool : Pending
  pub log : Logger

-- `attrib->struct_index = index`
unfoldable pub set_struct_index : Bytes → ℕ → List CoolAttribute → List CoolAttribute
set_struct_index name index [] = []
set_struct_index name index (a ∷ rest) =
    if equal a.name name
    then record a { struct_index = index } ∷ rest
    else a ∷ set_struct_index name index rest

-- The structure behind a pointer type; `none` is the failed cast of an integer type.
unfoldable pub element_type : LlvmType → Option Element
element_type (pointer name) = some (struct name)
element_type int1 = none
element_type int32 = none

unfoldable pub start_fields : Class → CoolClass → CoolClass → Logger → Option Fields
unfolding element_type
start_fields ast_cls cls parent log =
    let refused : Fields = record {
      elements = [];
      attributes = cls.attributes;
      attrib_int = [];
      attrib_bool = [];
      log =
          error_at ast_cls.loc
            (codes "'"
              ++ (cls.name
                  ++ (codes "' cannot inherit from special class '" ++ (parent.name ++ codes "'"))))
            log;
    } in
    let inherited = element_type parent.llvm_type >>= λ e.
    some (record refused { elements = e ∷ []; log = log }) in
    if parent.final then some refused else inherited

-- The end of the loop body: a new attribute whose class has the LLVM type `t`.
unfoldable pub add_field : Bytes → Bytes → LlvmType → Fields → Fields
add_field name type t s =
    let s' = record s {
      attributes =
          record { name = name; type = type; struct_index = length s.elements } ∷ s.attributes;
    } in
    elim t [
      | int1 ↦ record s' { attrib_bool = s.attrib_bool ++ (name, int1) ∷ [] }
      | int32 ↦ record s' { attrib_int = s.attrib_int ++ (name, int32) ∷ [] }
      | pointer p ↦ record s' { elements = s.elements ++ value (pointer p) ∷ [] }
    ]

unfoldable pub process_attribute : Table → Attribute → Fields → Fields
unfolding add_field lookup_class find_attribute
process_attribute output (attribute loc name type initial) s = elim (lookup_class type output) [
  | none ↦ record s { log = error_at loc (codes "unknown type '" ++ (type ++ codes "'")) s.log }
  | some c ↦ elim (find_attribute name s.attributes) [
    | some old ↦ record s {
      log = error_at loc (codes "attribute already defined '" ++ (name ++ codes "'")) s.log;
    }
    | none ↦ add_field name type c.llvm_type s
  ]
]

unfoldable pub attributes_loop : Table → List Attribute → Fields → Fields
unfolding process_attribute
attributes_loop output [] s = s
attributes_loop output (a ∷ rest) s = attributes_loop output rest (process_attribute output a s)

-- The loops at the end, which place the integers and then the booleans.
unfoldable pub place_loop : Pending → Fields → Fields
unfolding set_struct_index
place_loop [] s = s
place_loop ((name, t) ∷ rest) s = place_loop rest (record s {
  attributes = set_struct_index name (length s.elements) s.attributes;
  elements = s.elements ++ value t ∷ [];
})

unfoldable pub finish_fields : Fields → Fields
unfolding place_loop
finish_fields s = place_loop s.attrib_bool (place_loop s.attrib_int s)

-- The class with its attributes, the body of its structure, and the logger. `none` is a class without
-- a parent in the table, or a parent that has no structure.
unfoldable pub process_attributes :
    Class → CoolClass → Table → Logger → Option (CoolClass × List Element × Logger)
unfolding start_fields attributes_loop finish_fields lookup_class
process_attributes ast_cls cls output log = cls.parent >>= λ p. lookup_class p output >>= λ parent.
    start_fields ast_cls cls parent log >>= λ s.
    let s' = finish_fields (attributes_loop output ast_cls.attributes s) in
    some (record cls { attributes = s'.attributes }, s'.elements, s'.log)
