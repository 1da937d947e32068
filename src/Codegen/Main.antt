-- ===== src/Codegen/Main.antt =====
-- `gen_main_func` (src/codegen.cpp).
use lcool.Base.{Bool, true, false, none, some, List, [], ◌∷◌, Bytes, codes, equal, if◌then◌else◌}
use lcool.Base.Int.{pos}
use lcool.Logger.{error, warning}
use lcool.Program.{CoolMethod, Table, lookup_class, lookup_method}
use lcool.Codegen.Builder.{
  Value, ValueAndCls, int_const, ret, M, ◌>>=◌, ◌>>◌, pure, skip, not_null, emit, new_block,
  set_insert_point,
}
use lcool.Codegen.Classes.{upcast_to, on_object, refcount_dec, create_object, call_method}
use lcool.Codegen.Visit.{value_and_cls}

-- Messages without a location.
unfoldable pub log_plain : Bytes → M (Unit {0})
unfolding error
log_plain msg g = some (tt, record g { log = error msg g.log })

unfoldable pub warn_plain : Bytes → M (Unit {0})
unfolding warning
warn_plain msg g = some (tt, record g { log = warning msg g.log })

-- The object as the class that declares the method.
unfoldable pub main_object : Table → CoolMethod → Value → M ValueAndCls
unfolding warn_plain upcast_to equal
main_object program m object =
    if equal m.declaring_class (codes "Main")
    then pure (value_and_cls object (codes "Main"))
    else (do
      warn_plain (codes "method 'Main.main' not declared in 'Main' class")
      up ← upcast_to program (codes "Main") object m.declaring_class
      v ← not_null up
      pure (value_and_cls v m.declaring_class))

-- The call of the method, and the end of the function.
unfoldable pub call_main : Table → CoolMethod → Value → M (Unit {0})
unfolding main_object call_method on_object emit
call_main program m object = do
  main_obj ← main_object program m object
  return_value ← call_method program m (main_obj ∷ []) true
  refcount_dec program m.slot.return_type return_value
  refcount_dec program (codes "Main") main_obj.value
  emit (ret (int_const (pos 0)))
  skip

abbrev is_empty : List Bytes → Bool
is_empty [] = true
is_empty (b ∷ bs) = false

unfoldable pub gen_main_func : Table → M (Unit {0})
unfolding new_block set_insert_point lookup_class create_object lookup_method call_main log_plain
gen_main_func program = do
  block ← new_block []
  set_insert_point block
  elim (lookup_class (codes "Main") program) [
    | none ↦ log_plain (codes "'Main' class not defined")
    | some main_cls ↦ do
      object ← create_object program (codes "Main")
      elim (lookup_method program (codes "Main") (codes "main")) [
        | none ↦ log_plain (codes "method 'Main.main' not defined")
        | some m ↦
            if is_empty m.slot.parameter_types
            then call_main program m object
            else log_plain (codes "method 'Main.main' must have no parameters")
      ]
  ]
