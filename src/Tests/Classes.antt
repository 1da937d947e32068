-- ===== src/Tests/Classes.antt =====
-- The class table at a concrete program: Object, A under Object, and B and C under A.
use lcool.Base.{false, Option, none, some, List, [], ◌∷◌, ◌≡◌, ◌⊎◌, refl, sym, Bytes, codes, equal}
use mathlib.Core.Option.{none-ne-some}
use lcool.Program.{
  LlvmType, Function, CoolClass, CoolMethod, CoolMethodSlot, Table, base_method, override_method,
  lookup_class, insert_class, is_subclass_of, find_method, lookup_method, common_ancestor,
  common_ancestor_from,
}
use lcool.Program.Order.{Holds, IsWellFormed, empty, newer, Below, Below-trans, Below-antisym}
use lcool.Program.Ancestor.{Least, common_ancestor-Least, common_ancestor_returns}
use lcool.Program.Methods.{Resolves, lookup_method-Resolves}
use lcool.Program.Insert.{Inserted, insert_class-Inserted}

abbrev slot : CoolMethodSlot
slot = record {
  name = codes "copy";
  return_type = codes "Object";
  parameter_types = [];
  declaring_class = codes "Object";
  vtable_index = 1;
}

abbrev function : Bytes → Function
function name = record {
  name = name;
  return_type = some (LlvmType.pointer (codes "Object"));
  parameters = LlvmType.pointer (codes "Object") ∷ [];
}

abbrev class_of : Bytes → Option Bytes → List CoolMethod → CoolClass
class_of name parent methods = record {
  name = name;
  parent = parent;
  final = false;
  llvm_type = LlvmType.pointer name;
  attributes = [];
  methods = methods;
}

abbrev object_class : CoolClass
object_class =
    class_of (codes "Object") none (base_method slot (function (codes "Object.copy")) ∷ [])

abbrev a_class : CoolClass
a_class = class_of (codes "A") (some (codes "Object")) (
    override_method (codes "A") (base_method slot (function (codes "Object.copy")))
      (function (codes "A.copy"))
    ∷ [])

abbrev b_class : CoolClass
b_class = class_of (codes "B") (some (codes "A")) []

abbrev c_class : CoolClass
c_class = class_of (codes "C") (some (codes "A")) []

abbrev three : Table
three = b_class ∷ a_class ∷ object_class ∷ []

abbrev four : Table
four = c_class ∷ three

three-IsWellFormed : IsWellFormed three
unfolding lookup_class equal
three-IsWellFormed =
    newer refl (λ e. none-ne-some _ (sym e))
      (newer refl (λ e. none-ne-some _ (sym e)) (newer refl refl empty))

c_parent : Holds three (codes "A")
unfolding lookup_class equal
c_parent = λ e. none-ne-some _ (sym e)

four-IsWellFormed : IsWellFormed four
unfolding lookup_class equal
four-IsWellFormed = newer refl c_parent three-IsWellFormed

four_tests :
    Below four (codes "B") (codes "A")
    × Below four (codes "C") (codes "A")
    × Below four (codes "A") (codes "Object")
    × (is_subclass_of four (codes "B") (codes "C") ≡ false)
unfolding is_subclass_of equal
four_tests = (refl, refl, refl, refl)

four-Holds : Holds four (codes "B") × Holds four (codes "C")
unfolding lookup_class equal
four-Holds = (λ e. none-ne-some _ (sym e), λ e. none-ne-some _ (sym e))

nearest_common : common_ancestor four (codes "B") (codes "C") ≡ some (codes "A")
unfolding common_ancestor common_ancestor_from is_subclass_of equal
nearest_common = refl

inherited :
    lookup_method four (codes "B") (codes "copy")
    ≡ some (
        override_method
          (codes "A")
          (base_method slot (function (codes "Object.copy")))
          (function (codes "A.copy")))
unfolding lookup_method find_method equal base_method override_method
inherited = refl

common_ancestor-Least_example :
    Least four four
      (codes "B")
      (codes "C")
      (codes "A")
      (common_ancestor four (codes "B") (codes "C"))
common_ancestor-Least_example =
    common_ancestor-Least four (codes "B") (codes "C") (codes "A") four-IsWellFormed four_tests.0
      four_tests.1

common_ancestor_returns_example :
    (r : Bytes) × (common_ancestor four (codes "B") (codes "C") ≡ some r)
common_ancestor_returns_example =
    common_ancestor_returns four (codes "B") (codes "C") four-IsWellFormed four-Holds.0 four-Holds.1

lookup_method-Resolves_example :
    Resolves four (codes "B") (codes "copy") (lookup_method four (codes "B") (codes "copy"))
lookup_method-Resolves_example =
    lookup_method-Resolves four (codes "B") (codes "copy") four-IsWellFormed

Below-trans_example : Below four (codes "B") (codes "Object")
Below-trans_example =
    Below-trans four (codes "B") (codes "A") (codes "Object") four-IsWellFormed four_tests.0
      four_tests.2

a_itself : Below four (codes "A") (codes "A")
unfolding is_subclass_of equal
a_itself = refl

Below-antisym_example : codes "A" ≡ codes "A"
Below-antisym_example =
    Below-antisym four (codes "A") (codes "A") four-IsWellFormed a_itself a_itself

insert_class-Inserted_example :
    (Holds three (codes "C") × (insert_class c_class three ≡ none))
    ⊎ ((t' : Table) × (insert_class c_class three ≡ some t') × Inserted c_class three t')
insert_class-Inserted_example = insert_class-Inserted c_class three three-IsWellFormed c_parent
