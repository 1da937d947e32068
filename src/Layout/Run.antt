-- ===== src/Layout/Run.antt =====
-- `layout_cls` and `layout` (src/layout.cpp). `none` is a failed assertion or a failed cast.
use lcool.Base.{◌++◌, Option, some, List, [], ◌∷◌, Bytes, codes, if◌then◌else◌}
use lcool.Base.Options.{◌>>=◌}
use lcool.Logger.{Logger, has_errors}
use lcool.Ast.{Class, Program}
use lcool.Program.{CoolClass, Function, Table, lookup_class, update_class}
use lcool.Layout.Insertion.{insert_empty_classes}
use lcool.Layout.Attributes.{Element, process_attributes}
use lcool.Layout.Methods.{process_methods}
use lcool.Layout.Vtable.{Vtable, special_functions, create_vtable}

-- The program and what its LLVM module gains: structure bodies, functions and vtables.
pub record Module : Type 0 where
  pub classes : Table
  pub bodies : List (Bytes × List Element)
  pub functions : List Function
  pub vtables : List (Bytes × Vtable)
  pub log : Logger

unfoldable pub layout_cls : Class → Module → Option Module
unfolding process_attributes process_methods create_vtable special_functions update_class
    lookup_class
layout_cls ast_cls m = lookup_class ast_cls.name m.classes >>= λ cls.
    lookup_class (codes "Object") m.classes >>= λ object.
    process_attributes ast_cls cls m.classes m.log >>= λ (r : CoolClass × List Element × Logger).
    let (cls', elements, log) = r in
    let s = process_methods ast_cls cls' (update_class cls' m.classes) m.functions log in
    let classes = update_class s.cls m.classes in
    create_vtable classes s.cls >>= λ vtable. some (record {
      classes = classes;
      bodies = (cls.name, elements) ∷ m.bodies;
      functions = s.functions ++ special_functions s.cls object;
      vtables = (cls.name, vtable) ∷ m.vtables;
      log = s.log;
    })

unfoldable pub layout_loop : Program → Module → Option Module
unfolding layout_cls
layout_loop [] m = some m
layout_loop (c ∷ rest) m = layout_cls c m >>= layout_loop rest

unfoldable pub layout : Program → Module → Option Module
unfolding insert_empty_classes layout_loop lookup_class
layout input m = lookup_class (codes "Object") m.classes >>= λ object.
    insert_empty_classes input m.classes m.log >>= λ s.
    let inserted = record m { classes = s.output; log = s.log } in
    let laid_out = layout_loop s.layout_list inserted in
    if has_errors s.log then some inserted else laid_out
