-- ===== src/Codegen/Run.antt =====
-- `gen_main_func`, `codegen_cls` and `codegen` (src/codegen.cpp). `none` is a failed assertion, or a
-- null pointer that is used.
use lcool.Base.{ℕ, Option, none, some, List, [], ◌∷◌, Bytes, codes, equal, if◌then◌else◌}
use lcool.Base.Options.{◌>>=◌}
use lcool.Logger.{Logger}
use lcool.Ast.{Method, Class, Program}
use lcool.Program.{CoolClass, lookup_class, find_method}
use lcool.Codegen.Builder.{Instruction, Gen, M}
use lcool.Codegen.Case.{Sort}
use lcool.Codegen.Functions.{
  Target, constructor, copy_constructor, destructor, get_object_vtable_func, gen_copy_constructor,
  gen_destructor, gen_constructor, gen_method,
}
use lcool.Codegen.Main.{gen_main_func}

-- A function that has got its code: its name, the names of its blocks, and the calls of the builder.
pub record Definition : Type 0 where
  pub name : Bytes
  pub blocks : List Bytes
  pub code : List (ℕ × Instruction)

pub record Output : Type 0 where
  pub definitions : List Definition
  pub log : Logger

abbrev pub new_gen : Logger → Gen
new_gen log = record { blocks = []; insert_block = 0; code = []; locals = []; log = log }

-- The code of the function is built from a state of the generator on. A function that has got code
-- before is defined anew, with the old blocks first.
unfoldable pub define : Bytes → Gen → M (Unit {0}) → Output → Option Output
define name start code out = elim (code start) [
  | none ↦ none
  | some (u, g) ↦ some (record {
    definitions = record { name = name; blocks = g.blocks; code = g.code } ∷ out.definitions;
    log = g.log;
  })
]

unfoldable pub find_definition : Bytes → List Definition → Option Definition
unfolding equal
find_definition name [] = none
find_definition name (d ∷ rest) = if equal d.name name then some d else find_definition name rest

-- A new builder on a function, with the blocks that it has.
abbrev pub gen_of : Option Definition → Logger → Gen
gen_of none log = new_gen log
gen_of (some d) log = record (new_gen log) { blocks = d.blocks; code = d.code }

unfoldable pub build : Bytes → M (Unit {0}) → Output → Option Output
unfolding define find_definition
build name code out = define name (gen_of (find_definition name out.definitions) out.log) code out

-- The loop over the methods of a class.
unfoldable pub gen_methods : Sort → Target → CoolClass → List Method → Output → Option Output
unfolding find_method gen_method build
gen_methods sort t cls [] out = some out
gen_methods sort t cls (input ∷ rest) out = find_method input.name cls.methods >>= λ m.
    build m.func.name (gen_method sort t input cls m) out >>= gen_methods sort t cls rest

unfoldable pub codegen_cls : Sort → Target → Class → Output → Option Output
unfolding lookup_class get_object_vtable_func gen_copy_constructor gen_destructor gen_constructor
    gen_methods build
codegen_cls sort t input out = lookup_class input.name t.program >>= λ cls.
    copy_constructor t cls.name >>= λ copy.
    build copy.name (gen_copy_constructor t cls) out >>= λ out'.
    destructor t cls.name >>= λ destroy. build destroy.name (gen_destructor t cls) out' >>= λ out''.
    constructor t cls.name >>= λ construct.
    build construct.name (gen_constructor sort t input cls) out''
    >>= gen_methods sort t cls input.methods

unfoldable pub codegen_classes : Sort → Target → Program → Output → Option Output
unfolding codegen_cls
codegen_classes sort t [] out = some out
codegen_classes sort t (c ∷ rest) out = codegen_cls sort t c out >>= codegen_classes sort t rest

unfoldable pub codegen : Sort → Target → Program → Logger → Option Output
unfolding codegen_classes define gen_main_func
codegen sort t input log =
    codegen_classes sort t input (record { definitions = []; log = log }) >>= λ out.
    define (codes "main") (new_gen out.log) (gen_main_func t.program) out
