-- ===== src/Builtins/Registered.antt =====
-- What `builtins_register` (src/builtins.cpp) asks of the runtime module, and the table it makes.
use lcool.Base.{
  ℕ, ◌++◌, ◌≡◌, refl, sym, Bool, true, false, Option, none, some, List, [], ◌∷◌, Bytes, codes,
  equal,
}
use mathlib.Core.Option.{none-ne-some}
use lcool.Base.Options.{>>=-some}
use lcool.Program.{
  LlvmType, int1, int32, pointer, CoolClass, CoolMethod, Function, Table, lookup_class,
  insert_class, find_method, base_method, update_class,
}
use lcool.Program.Order.{Holds, IsWellFormed, empty, newer}
use lcool.Builtins.{
  Runtime, insert_ref_class, insert_value_class, add_method, add_static_method, register_classes,
  register_methods, builtins_register, object, io, string, bool, int,
}

abbrev pub Finds : Runtime → List Bytes → Type 0
Finds rt [] = Unit {0}
Finds rt (n ∷ ns) = ((f : Function) × (rt.get_function n ≡ some f)) × Finds rt ns

abbrev pub runtime_functions : List Bytes
runtime_functions =
    codes "Object.abort"
    ∷ codes "Object.copy"
    ∷ codes "Object.type_name"
    ∷ codes "IO.in_int"
    ∷ codes "IO.in_string"
    ∷ codes "IO.out_int"
    ∷ codes "IO.out_string"
    ∷ codes "String.length"
    ∷ codes "String.concat"
    ∷ codes "String.substr"
    ∷ []

-- The module has the types, the vtables and the functions that the registration asks for.
pub record Provides (rt : Runtime) : Type 0 where
  pub object_type : rt.has_type (codes "Object") ≡ true
  pub io_type : rt.has_type (codes "IO") ≡ true
  pub string_type : rt.has_type (codes "String") ≡ true
  pub object_vtable : rt.has_global (codes "Object$vtable") ≡ true
  pub io_vtable : rt.has_global (codes "IO$vtable") ≡ true
  pub string_vtable : rt.has_global (codes "String$vtable") ≡ true
  pub bool_vtable : rt.has_global (codes "Bool$vtable") ≡ true
  pub int_vtable : rt.has_global (codes "Int$vtable") ≡ true
  pub functions : Finds rt runtime_functions

abbrev builtin_method : Bytes → Bytes → Bytes → ℕ → List Bytes → Function → CoolMethod
builtin_method cls name return_type vtable_index param_types func = record {
  slot = record {
    name = name;
    return_type = return_type;
    parameter_types = param_types;
    declaring_class = cls;
    vtable_index = vtable_index;
  };
  declaring_class = cls;
  func = func;
}

abbrev class_with : Bytes → Option Bytes → Bool → LlvmType → List CoolMethod → CoolClass
class_with name parent final type methods = record {
  name = name;
  parent = parent;
  final = final;
  llvm_type = type;
  attributes = [];
  methods = methods;
}

-- The classes of the Cool manual, with the runtime's functions behind their methods.
abbrev pub builtin_classes : (rt : Runtime) → Finds rt runtime_functions → Table
builtin_classes rt
      (
        (f1, _),
        (
          (f2, _),
          (
            (f3, _),
            ((f4, _), ((f5, _), ((f6, _), ((f7, _), ((f8, _), ((f9, _), ((f10, _), _))))))),
          ),
        ),
      ) =
    class_with int (some object) true int32 []
    ∷ class_with bool (some object) true int1 []
    ∷ class_with string (some object) true (pointer string) (
        builtin_method string (codes "substr") string 0 (int ∷ int ∷ []) f10
        ∷ builtin_method string (codes "concat") string 0 (string ∷ []) f9
        ∷ builtin_method string (codes "length") int 0 [] f8
        ∷ [])
    ∷ class_with io (some object) false (pointer io) (
        builtin_method io (codes "out_string") io 4 (string ∷ []) f7
        ∷ builtin_method io (codes "out_int") io 3 (int ∷ []) f6
        ∷ builtin_method io (codes "in_string") string 2 [] f5
        ∷ builtin_method io (codes "in_int") int 1 [] f4
        ∷ [])
    ∷ class_with object none false (pointer object) (
        builtin_method object (codes "type_name") string 8 [] f3
        ∷ builtin_method object (codes "copy") object 7 [] f2
        ∷ builtin_method object (codes "abort") object 6 [] f1
        ∷ [])
    ∷ []

insert_ref_class-new :
    (rt : Runtime) (name : Bytes) (parent : Option Bytes) (final : Bool) (t : Table)
    → rt.has_type name ≡ true
    → rt.has_global (name ++ codes "$vtable") ≡ true
    → lookup_class name t ≡ none
    → insert_ref_class rt name parent final t
      ≡ some (class_with name parent final (pointer name) [] ∷ t)
unfolding insert_ref_class insert_class
insert_ref_class-new rt name parent final t e g n = rw (e, g, n, insert_class) refl

insert_value_class-new :
    (rt : Runtime) (name parent : Bytes) (type : LlvmType) (t : Table)
    → rt.has_global (name ++ codes "$vtable") ≡ true
    → lookup_class name t ≡ none
    → insert_value_class rt name parent type t
      ≡ some (class_with name (some parent) true type [] ∷ t)
unfolding insert_value_class insert_class
insert_value_class-new rt name parent type t g n = rw (g, n, insert_class) refl

add_method-new :
    (rt : Runtime) (cls name return_type : Bytes) (index : ℕ) (params : List Bytes) (t : Table)
    → (c : CoolClass) (f : Function) → lookup_class cls t ≡ some c
    → rt.get_function (c.name ++ (codes "." ++ name)) ≡ some f
    → find_method name c.methods ≡ none
    → add_method rt cls name return_type index params t
      ≡ some (
          update_class
            (record c {
              methods = builtin_method c.name name return_type index params f ∷ c.methods;
            })
            t)
unfolding add_method base_method
add_method-new rt cls name return_type index params t c f e g n = rw (e, g, n) refl

abbrev bare_classes : Table
bare_classes =
    class_with int (some object) true int32 []
    ∷ class_with bool (some object) true int1 []
    ∷ class_with string (some object) true (pointer string) []
    ∷ class_with io (some object) false (pointer io) []
    ∷ class_with object none false (pointer object) []
    ∷ []

register_classes-bare : (rt : Runtime) → Provides rt → register_classes rt [] ≡ some bare_classes
unfolding register_classes insert_ref_class insert_value_class insert_class lookup_class equal
register_classes-bare rt p =
    rw
      (
        p.object_type, p.object_vtable, p.io_type, p.io_vtable, p.string_type, p.string_vtable,
        p.bool_vtable, p.int_vtable,
      )
      refl

register_methods-builtin :
    (rt : Runtime) (p : Provides rt)
    → register_methods rt bare_classes ≡ some (builtin_classes rt p.functions)
unfolding register_methods add_method add_static_method lookup_class find_method base_method
    update_class equal
register_methods-builtin rt p =
    let (e1, (e2, (e3, (e4, (e5, (e6, (e7, (e8, (e9, (e10, _)))))))))) = p.functions in
    rw (e1.1, e2.1, e3.1, e4.1, e5.1, e6.1, e7.1, e8.1, e9.1, e10.1) refl

pub builtins_register-builtin :
    (rt : Runtime) (p : Provides rt)
    → builtins_register rt [] ≡ some (builtin_classes rt p.functions)
unfolding builtins_register
builtins_register-builtin rt p =
    >>=-some _ _ (register_classes-bare rt p) (register_methods-builtin rt p)

pub builtin_classes-IsWellFormed :
    (rt : Runtime) (fs : Finds rt runtime_functions) → IsWellFormed (builtin_classes rt fs)
unfolding lookup_class equal
builtin_classes-IsWellFormed rt fs =
    newer refl (λ e. none-ne-some _ (sym e))
      (newer refl (λ e. none-ne-some _ (sym e))
        (newer refl (λ e. none-ne-some _ (sym e))
          (newer refl (λ e. none-ne-some _ (sym e)) (newer refl refl empty))))

pub builtin_classes-Holds :
    (rt : Runtime) (fs : Finds rt runtime_functions) → Holds (builtin_classes rt fs) object
unfolding lookup_class equal
builtin_classes-Holds rt fs = λ e. none-ne-some _ (sym e)
