-- ===== src/Tests/Vtable.antt =====
-- The vtables at a concrete program: A under Object, with an override and a method of its own.
use lcool.Base.{
  inl, inr, ap, ◌∙◌, Bool-cases, equal→eq, ◌≡◌, refl, sym, false, Option, none, some, List, [], ◌∷◌,
  Bytes, codes, equal,
}
use mathlib.Core.Option.{none-ne-some}
use lcool.Ast.{Class}
use lcool.Program.{
  pointer, CoolClass, Table, is_subclass_of, update_class, lookup_class, lookup_method,
}
use lcool.Program.Order.{IsWellFormed, empty, newer, lookup_class-there}
use lcool.Layout.Methods.{process_methods}
use lcool.Layout.Vtable.{Entry, Vtable, func, create_vtable}
use lcool.Layout.Vtable.Fits.{IsLaidOut, no_class, laid_out}
use lcool.Layout.Vtable.Dispatch.{HasParts, create_vtable-HasParts}
use lcool.Layout.Vtable.Kept.{NoneBelow, process_methods-IsLaidOut}
use lcool.Program.Update.{head-lookup_class}
use mathlib.Core.Bool.{true≢false}
use lcool.Layout.Vtable.Laid.{process_methods-HasMethodSlots}
use lcool.Tests.Layout.{log, at, method_of, source, class_of, empty_class}

-- Object and A with their methods, as `process_methods` leaves them.
abbrev methods_of : Class → CoolClass → Table → CoolClass
methods_of ast_cls cls output = (process_methods ast_cls cls output [] log).cls

abbrev object_source : Class
object_source = record {
  loc = at 1;
  name = codes "Object";
  parent = none;
  attributes = [];
  methods = method_of (codes "copy") (codes "Object") ∷ [];
}

abbrev bare_object : CoolClass
bare_object = class_of (codes "Object") none false (pointer (codes "Object")) []

abbrev object_laid_out : CoolClass
object_laid_out = methods_of object_source bare_object (bare_object ∷ [])

abbrev a_source : Class
a_source = record (source (codes "A") none) {
  methods = method_of (codes "copy") (codes "Object") ∷ method_of (codes "f") (codes "Object") ∷ [];
}

abbrev a_laid_out : CoolClass
a_laid_out = methods_of a_source empty_class (empty_class ∷ object_laid_out ∷ [])

abbrev laid : Table
laid = a_laid_out ∷ object_laid_out ∷ []

object-IsLaidOut : IsLaidOut (object_laid_out ∷ [])
unfolding lookup_class
object-IsLaidOut =
    laid_out
      (process_methods-HasMethodSlots object_source bare_object (bare_object ∷ []) [] [] log refl
        refl no_class (λ n. refl))
      no_class

-- A before it has its methods.
abbrev unfilled : Table
unfilled = empty_class ∷ object_laid_out ∷ []

unfilled-IsLaidOut : IsLaidOut unfilled
unfolding lookup_class lookup_method process_methods equal
unfilled-IsLaidOut =
    laid_out
      (process_methods-HasMethodSlots (record a_source { methods = [] }) empty_class unfilled
        (object_laid_out ∷ []) [] log refl refl object-IsLaidOut (λ n. refl))
      object-IsLaidOut

unfilled-IsWellFormed : IsWellFormed unfilled
unfolding lookup_class process_methods equal
unfilled-IsWellFormed = newer refl (λ e. none-ne-some _ (sym e)) (newer refl refl empty)

unfilled-NoneBelow : NoneBelow unfilled (codes "A")
unfolding lookup_class is_subclass_of process_methods equal
unfilled-NoneBelow d k b x = elim (Bool-cases (equal (codes "A") d.name)) [
  | inl e ↦ sym (
      ap (λ (c : CoolClass). c.methods)
        (head-lookup_class empty_class d (object_laid_out ∷ []) d.name e k))
  | inr e ↦ elim (Bool-cases (equal (codes "Object") d.name)) [
    | inl e' ↦ absurd (
        true≢false (
          sym b
          ∙ ap (λ n. is_subclass_of unfilled n (codes "A"))
              (sym (equal→eq (codes "Object") d.name e'))))
    | inr e' ↦ absurd (
        none-ne-some d (
          sym (
            lookup_class-there empty_class (object_laid_out ∷ []) d.name e
            ∙ lookup_class-there object_laid_out [] d.name e')
          ∙ k))
  ]
]

process_methods-IsLaidOut_example :
    IsWellFormed (update_class (process_methods a_source empty_class unfilled [] log).cls unfilled)
    × IsLaidOut (update_class (process_methods a_source empty_class unfilled [] log).cls unfilled)
unfolding lookup_class equal
process_methods-IsLaidOut_example =
    process_methods-IsLaidOut a_source empty_class unfilled [] log unfilled-IsWellFormed
      unfilled-IsLaidOut refl refl unfilled-NoneBelow

laid-IsLaidOut : IsLaidOut laid
unfolding lookup_class lookup_method process_methods equal
laid-IsLaidOut =
    laid_out
      (process_methods-HasMethodSlots a_source empty_class (empty_class ∷ object_laid_out ∷ [])
        (object_laid_out ∷ []) [] log refl refl object-IsLaidOut (λ n. refl))
      object-IsLaidOut

laid-IsWellFormed : IsWellFormed laid
unfolding lookup_class process_methods equal
laid-IsWellFormed = newer refl (λ e. none-ne-some _ (sym e)) (newer refl refl empty)

functions_of : Option Vtable → List (List Bytes)
functions_of none = []
functions_of (some []) = []
functions_of (some ((n, es) ∷ v)) = names_of es ∷ functions_of (some v)
  where
    names_of : List Entry → List Bytes
    names_of [] = []
    names_of (func f ∷ es) = f.name ∷ names_of es
    names_of (_ ∷ es) = names_of es

-- The part of Object has the override, the part of A has the new method.
vtable :
    functions_of (create_vtable laid a_laid_out)
    ≡ (codes "A.f" ∷ [])
      ∷ (codes "A.copy" ∷ codes "A$construct" ∷ codes "A$copyconstruct" ∷ codes "A$destroy" ∷ [])
      ∷ []
unfolding functions_of create_vtable process_methods equal
vtable = refl

create_vtable-HasParts_example :
    (v : Vtable) × (create_vtable laid a_laid_out ≡ some v)
    × HasParts laid a_laid_out laid (codes "A") v
unfolding lookup_class process_methods equal
create_vtable-HasParts_example =
    create_vtable-HasParts laid a_laid_out (codes "Object") laid-IsWellFormed laid-IsLaidOut refl
      refl
