-- ===== src/Layout/Attributes/Longer.antt =====
-- The fields of `process_attributes` (src/layout.cpp) grow at their end.
use lcool.Base.{
  ◌≡◌, refl, sym, ◌∙◌, ◌++◌, true, List, [], ◌∷◌, Bytes, Option-cases, inl, inr, length,
  append_assoc, append-nil,
}
use lcool.Logger.{Location, has_errors, error_at}
use lcool.Ast.{Attribute, attribute}
use lcool.Program.{LlvmType, int1, int32, pointer, Table, lookup_class, find_attribute}
use lcool.Layout.Attributes.{
  Element, value, Pending, Fields, set_struct_index, add_field, process_attribute, attributes_loop,
  place_loop, finish_fields,
}

-- Elements are only added behind those that are there, and no error is forgotten.
pub record Longer (s s' : Fields) : Type 0 where
  pub more : List Element
  pub splits : s'.elements ≡ s.elements ++ more
  pub errors : has_errors s.log ≡ true → has_errors s'.log ≡ true

Longer-refl : (s : Fields) → Longer s s
Longer-refl s = record { more = []; splits = sym (append-nil s.elements); errors = λ e. e }

Longer-trans : {s t u : Fields} → Longer s t → Longer t u → Longer s u
Longer-trans {s} x y = record {
  more = x.more ++ y.more;
  splits = y.splits ∙ rw x.splits (append_assoc s.elements x.more y.more);
  errors = λ e. y.errors (x.errors e);
}

place_loop-Longer : (q : Pending) (s : Fields) → Longer s (place_loop q s)
unfolding place_loop
place_loop-Longer [] s = Longer-refl s
place_loop-Longer ((n, t) ∷ q) s =
    let s' = record s {
      attributes = set_struct_index n (length s.elements) s.attributes;
      elements = s.elements ++ value t ∷ [];
    } in
    let x : Longer s s' = record { more = value t ∷ []; splits = refl; errors = λ e. e } in
    Longer-trans x (place_loop-Longer q s')

add_field-Longer :
    (name type : Bytes) (t : LlvmType) (s : Fields) → Longer s (add_field name type t s)
unfolding add_field
add_field-Longer name type int1 s = record {
  more = [];
  splits = sym (append-nil s.elements);
  errors = λ e. e;
}
add_field-Longer name type int32 s = record {
  more = [];
  splits = sym (append-nil s.elements);
  errors = λ e. e;
}
add_field-Longer name type (pointer p) s = record {
  more = value (pointer p) ∷ [];
  splits = refl;
  errors = λ e. e;
}

Longer-error :
    (s : Fields) (loc : Location) (msg : Bytes)
    → Longer s (record s { log = error_at loc msg s.log })
unfolding has_errors error_at
Longer-error s loc msg = record {
  more = [];
  splits = sym (append-nil s.elements);
  errors = λ e. refl;
}

process_attribute-Longer :
    (output : Table) (a : Attribute) (s : Fields) → Longer s (process_attribute output a s)
unfolding process_attribute
process_attribute-Longer output (attribute loc name type initial) s =
    elim (Option-cases (lookup_class type output)) [
      | inl e ↦ rw (e, process_attribute) (Longer-error s loc _)
      | inr (c, e) ↦ elim (Option-cases (find_attribute name s.attributes)) [
        | inl e' ↦ rw (e, e', process_attribute) (add_field-Longer name type c.llvm_type s)
        | inr (old, e') ↦ rw (e, e', process_attribute) (Longer-error s loc _)
      ]
    ]

attributes_loop-Longer :
    (output : Table) (attrs : List Attribute) (s : Fields)
    → Longer s (attributes_loop output attrs s)
unfolding attributes_loop
attributes_loop-Longer output [] s = Longer-refl s
attributes_loop-Longer output (a ∷ rest) s =
    Longer-trans (process_attribute-Longer output a s)
      (attributes_loop-Longer output rest (process_attribute output a s))

pub filled-Longer :
    (output : Table) (attrs : List Attribute) (s : Fields)
    → Longer s (finish_fields (attributes_loop output attrs s))
unfolding finish_fields
filled-Longer output attrs s =
    let t = attributes_loop output attrs s in
    Longer-trans (attributes_loop-Longer output attrs s) (
      Longer-trans (place_loop-Longer t.attrib_int t)
        (place_loop-Longer t.attrib_bool (place_loop t.attrib_int t)))
