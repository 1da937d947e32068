-- ===== src/Layout/Attributes/Filling.antt =====
-- `process_attributes` (src/layout.cpp) gives each attribute an element of its type to itself.
use lcool.Base.{◌≡◌, refl, sym, ap, ◌∙◌, subst, ◌++◌, false, some, List, [], ◌∷◌, Bytes, get_elem?}
use mathlib.Core.Option.{none-ne-some}
use lcool.Logger.{Logger}
use lcool.Ast.{Attribute, Class}
use lcool.Program.{LlvmType, pointer, CoolClass, CoolAttribute, Table, lookup_class, find_attribute}
use lcool.Layout.Attributes.{
  Element, struct, value, Fields, attributes_loop, finish_fields, start_fields, element_type,
  process_attributes,
}
use lcool.Layout.Attributes.Rounds.{queue, finish_fields-IsPlaced, attributes_loop-IsPlaced}
use lcool.Layout.Attributes.Longer.{Longer, filled-Longer}
use lcool.Layout.Attributes.Placing.{HasType, Queued, IsPlaced}

-- Every attribute of the class stands at an element of the LLVM type of its class, and no two
-- attributes stand at the same element.
pub record HasFields (output : Table) (cls : CoolClass) (elements : List Element) : Type 0 where
  pub placed :
      (n : Bytes) (a : CoolAttribute)
      → find_attribute n cls.attributes ≡ some a
      → (t : LlvmType) × HasType output a.type t
        × (get_elem? elements a.struct_index ≡ some (value t))
  pub distinct :
      (n m : Bytes) (a b : CoolAttribute)
      → find_attribute n cls.attributes ≡ some a
      → find_attribute m cls.attributes ≡ some b
      → a.struct_index ≡ b.struct_index
      → n ≡ m

HasFields-finish :
    (output : Table) (cls : CoolClass) (attrs : List Attribute) (s : Fields)
    → cls.attributes ≡ []
    → s.attributes ≡ cls.attributes
    → queue output s ≡ []
    → let s' = finish_fields (attributes_loop output attrs s) in
      HasFields output (record cls { attributes = s'.attributes }) s'.elements
unfolding find_attribute
HasFields-finish output cls attrs s e f g =
    let none_yet = λ (n : Bytes) (a : CoolAttribute) (h : find_attribute n s.attributes ≡ some a).
      none-ne-some a (ap (find_attribute n) (sym e ∙ sym f) ∙ h) in
    let start : IsPlaced output (queue output s) s = record {
      placed = λ n a h w. absurd (none_yet n a h);
      distinct = λ n m a b h k v w x. absurd (none_yet n a h);
      queued = subst (λ q. Queued output q s.attributes) (sym g) tt;
    } in
    let h =
      finish_fields-IsPlaced output (attributes_loop output attrs s)
        (attributes_loop-IsPlaced output attrs s start) in
    record {
      placed = λ n a k. h.placed n a k refl;
      distinct = λ n m a b k l x. h.distinct n m a b k l refl refl x;
    }

-- The first element, that of the parent, stays where it is.
first_element :
    (b : Bytes) (s s' : Fields)
    → s.elements ≡ struct b ∷ []
    → Longer s s'
    → get_elem? s'.elements 0 ≡ some (struct b)
first_element b s s' e x = ap (λ l. get_elem? l 0) (x.splits ∙ ap (λ l. l ++ x.more) e)

-- For a class without attributes, under a parent of the table that is not final and has a structure,
-- `process_attributes` returns. The structure begins with that of the parent, and the attributes that
-- were entered have elements of the types of their classes, one each.
pub process_attributes-HasFields :
    (ast_cls : Class) (cls parent : CoolClass) (p b : Bytes) (output : Table) (log : Logger)
    → cls.attributes ≡ []
    → cls.parent ≡ some p
    → lookup_class p output ≡ some parent
    → parent.final ≡ false
    → parent.llvm_type ≡ pointer b
    → (cls' : CoolClass) × (elements : List Element) × (log' : Logger) × (process_attributes ast_cls
          cls output log
        ≡ some (cls', elements, log'))
      × (get_elem? elements 0 ≡ some (struct b))
      × HasFields output cls' elements
unfolding process_attributes start_fields
process_attributes-HasFields ast_cls cls parent p b output log new e f open_to_all kind =
    let s : Fields = record {
      elements = struct b ∷ [];
      attributes = cls.attributes;
      attrib_int = [];
      attrib_bool = [];
      log = log;
    } in
    let s' = attributes_loop output ast_cls.attributes s in
    let t = finish_fields s' in
    (
      record cls { attributes = t.attributes },
      t.elements,
      t.log,
      rw (e, f, open_to_all, kind, element_type) refl,
      first_element b s t refl (filled-Longer output ast_cls.attributes s),
      HasFields-finish output cls ast_cls.attributes s new refl refl,
    )
