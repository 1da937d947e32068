-- ===== src/Layout/Vtable.antt =====
-- `create_partial_vtable_init` and `create_vtable` (src/layout.cpp). An initialiser is the structures
-- for a class and its parents, each with the class whose type it has; the first element of a structure
-- is the next one. `none` is a failed assertion.
pub mod Entries
pub mod Fits
pub mod Dispatch
pub mod Laid
pub mod Kept
use lcool.Base.{
  ℕ, suc, ◌-◌, ◌++◌, ◌&&◌, Bool, true, false, Option, none, some, List, [], ◌∷◌, Bytes, codes,
  equal, if◌then◌else◌, length, replicate, set,
}
use lcool.Base.Options.{◌>>=◌}
use lcool.Program.{LlvmType, CoolClass, CoolMethodSlot, CoolMethod, Function, Table, lookup_method}

-- An element of a vtable: the parent's part, a pointer to the parent's vtable, the size and the name of
-- the class, a function, or null.
pub data Entry : Type 0 where
  nested missing : Entry
  parent_vtable object_size name_string : Bytes → Entry
  func : Function → Entry

abbrev pub Vtable : Type 0
Vtable = List (Bytes × List Entry)

-- The functions made for a class beside its methods.
unfoldable pub special_functions : CoolClass → CoolClass → List Function
special_functions top_cls object =
    let special = λ (suffix : Bytes) (types : List LlvmType).
      let f : Function = record {
        name = top_cls.name ++ suffix;
        return_type = none;
        parameters = types;
      } in
      f in
    special (codes "$construct") (object.llvm_type ∷ [])
    ∷ special (codes "$copyconstruct") (object.llvm_type ∷ object.llvm_type ∷ [])
    ∷ special (codes "$destroy") (object.llvm_type ∷ [])
    ∷ []

abbrev pub funcs : List Function → List Entry
funcs [] = []
funcs (f ∷ fs) = func f ∷ funcs fs

-- The elements that the part of Object begins with. `parent` is the parent of `top_cls`.
unfoldable pub object_entries : CoolClass → Bytes → CoolClass → List Entry
unfolding special_functions
object_entries top_cls parent object =
    parent_vtable parent
    ∷ object_size top_cls.name
    ∷ name_string top_cls.name
    ∷ funcs (special_functions top_cls object)

-- `elements[index] = e`, behind the `resize` of a vector that is too short.
unfoldable pub set_entry : ℕ → Entry → List Entry → List Entry
set_entry index e elements =
    set (elements ++ replicate (suc index - length elements) missing) index e

-- Slots are compared by address: a slot is known by its class and its name.
unfoldable pub same_slot : CoolMethodSlot → CoolMethodSlot → Bool
unfolding equal
same_slot s t = equal s.declaring_class t.declaring_class && equal s.name t.name

-- The loop over the methods of `cls`.
unfoldable pub entries_loop :
    Table → Bytes → Bytes → List CoolMethod → List Entry → Option (List Entry)
unfolding lookup_method set_entry same_slot equal
entries_loop program top_cls cls [] elements = some elements
entries_loop program top_cls cls (m ∷ rest) elements = elim (equal m.slot.declaring_class cls) [
  | false ↦ entries_loop program top_cls cls rest elements
  | true ↦ lookup_method program top_cls m.slot.name >>= λ resolved.
      elim (same_slot resolved.slot m.slot) [
        | false ↦ none
        | true ↦
            entries_loop program top_cls cls rest
              (set_entry m.slot.vtable_index (func resolved.func) elements)
      ]
]

unfoldable pub create_partial_vtable_init :
    Table → CoolClass → Bytes → Table → Bytes → Option Vtable
unfolding entries_loop object_entries equal
create_partial_vtable_init program top_cls parent [] cls = none
create_partial_vtable_init program top_cls parent (c ∷ older) cls = elim (equal c.name cls) [
  | false ↦ create_partial_vtable_init program top_cls parent older cls
  | true ↦ elim c.parent [
    | none ↦
        entries_loop program top_cls.name c.name c.methods (object_entries top_cls parent c)
        >>= λ elements. some ((c.name, elements) ∷ [])
    | some p ↦ create_partial_vtable_init program top_cls parent older p >>= λ above.
        entries_loop program top_cls.name c.name c.methods (nested ∷ []) >>= λ elements.
        some ((c.name, elements) ∷ above)
  ]
]

-- `create_vtable`; `top_cls->parent()` is not null for a class of the user.
unfoldable pub create_vtable : Table → CoolClass → Option Vtable
unfolding create_partial_vtable_init
create_vtable program cls =
    cls.parent >>= λ parent. create_partial_vtable_init program cls parent program cls.name
