-- ===== src/Codegen/Case.antt =====
-- `visit(type_case)` (src/codegen.cpp), on the code of its branches.
use lcool.Base.{
  ℕ, ◌++◌, ◌||◌, Bool, true, false, not, Option, none, some, List, [], ◌∷◌, Bytes, codes, equal,
  ltb, if◌then◌else◌, length,
}
use lcool.Logger.{Location}
use lcool.Program.{Table, lookup_class, is_subclass_of, common_ancestor}
use lcool.Codegen.Builder.{
  Value, global, object_vtable, call, br, cond_br, phi, incoming, store, unreachable, ValueAndCls,
  M, ◌>>=◌, ◌>>◌, pure, skip, not_null, fault, emit, new_block, get_insert_block, set_insert_point,
  log_error, log_warning, pop,
}
use lcool.Codegen.Classes.{call_global, upcast_to, object_value, downcast, type_of, ensure_not_null}
use lcool.Codegen.Visit.{Context, value_and_cls, null_object, push_new_variable}

-- A branch of the source: its variable, its type, and the evaluation of its body.
pub record Branch : Type 0 where
  pub id : Bytes
  pub type : Bytes
  pub body : M ValueAndCls

-- `case_data`, with the position of the class in `cls_map`.
pub record CaseData : Type 0 where
  pub cls : Bytes
  pub index : ℕ
  pub branch : Branch

-- `cls_map.insert` fails.
unfoldable pub has_class : Bytes → List CaseData → Bool
unfolding equal
has_class cls [] = false
has_class cls (d ∷ rest) = equal d.cls cls || has_class cls rest

-- The loop over the branches.
unfoldable pub resolve_branches :
    Context → Location → List Branch → List CaseData → M (List CaseData)
unfolding has_class lookup_class log_error
resolve_branches ctx loc [] found = pure found
resolve_branches ctx loc (b ∷ rest) found = elim (lookup_class b.type ctx.program) [
  | none ↦ do
    log_error loc (codes "class not defined '" ++ (b.type ++ codes "'"))
    resolve_branches ctx loc rest found
  | some cls ↦ elim (has_class cls.name found) [
    | true ↦ do
      log_error loc (codes "class occurs twice in case expression '" ++ (b.type ++ codes "'"))
      resolve_branches ctx loc rest found
    | false ↦
        resolve_branches ctx loc rest
          (found ++ record { cls = cls.name; index = length found; branch = b } ∷ [])
  ]
]

-- The comparator of the sort.
unfoldable pub branch_before : Table → CaseData → CaseData → Bool
unfolding is_subclass_of equal
branch_before program a b =
    if equal a.cls b.cls
    then false
    else if is_subclass_of program a.cls b.cls
    then true
    else if is_subclass_of program b.cls a.cls
    then false
    else ltb a.index b.index

-- `std::sort`, which is not part of the program.
abbrev pub Sort : Type 0
Sort = (CaseData → CaseData → Bool) → List CaseData → List CaseData

-- `cool_class::llvm_object_vtable`, behind its assertion.
unfoldable pub llvm_object_vtable : Context → Bytes → M Value
llvm_object_vtable ctx cls = if ctx.has_vtable_type then pure (object_vtable cls) else fault

-- The end of a test block. `has_default_branch` is never set in the source.
unfoldable pub test_branch : Context → Location → ValueAndCls → Bytes → ℕ → ℕ → M (Unit {0})
unfolding is_subclass_of emit log_warning object_value llvm_object_vtable
test_branch ctx loc value cls enter next =
    if is_subclass_of ctx.program value.cls cls
    then (do emit (br enter); skip)
    else if not (is_subclass_of ctx.program cls value.cls)
    then (do
      log_warning loc (codes "unreachable case branch for type '" ++ (cls ++ codes "'"))
      emit (br next)
      skip)
    else (do
      object ← object_value ctx.program value.cls value.value
      vtable ← llvm_object_vtable ctx cls
      is_instance ← emit (call (global (codes "instance_of")) (object ∷ vtable ∷ []))
      emit (cond_br is_instance enter next)
      skip)

-- The value block of a branch: its variable, its body, and the jump to the phi block. The value and the
-- block that it comes from.
unfoldable pub value_branch : Context → Location → ValueAndCls → CaseData → ℕ → M (ValueAndCls × ℕ)
unfolding push_new_variable type_of downcast emit pop get_insert_block
value_branch ctx loc value d phi_block = do
  var_ptr ← push_new_variable ctx loc d.branch.id d.cls
  elim var_ptr [
    | none ↦ skip
    | some p ↦ do
      t ← type_of ctx.program value.cls
      v ← downcast ctx.program d.cls t value.value
      emit (store v p)
      skip
  ]
  r ← d.branch.body
  elim var_ptr [ none ↦ skip | some p ↦ pop 1 ]
  exit ← get_insert_block
  emit (br phi_block)
  pure (r, exit)

-- `final_upcast_cls` after one more branch.
unfoldable pub join : Table → Option Bytes → Bytes → M Bytes
unfolding common_ancestor
join program none cls = pure cls
join program (some final) cls = not_null (common_ancestor program final cls)

-- The loop over the sorted branches, from one whose test block is `test` on. The class of the result,
-- and the values with the blocks that they come from.
unfoldable pub case_loop :
    Context
    → Location
    → ValueAndCls
    → ℕ
    → ℕ
    → List CaseData
    → ℕ
    → Option Bytes
    → List (ValueAndCls × ℕ)
    → M (Option Bytes × List (ValueAndCls × ℕ))
unfolding new_block set_insert_point test_branch value_branch join
case_loop ctx loc value fail_block phi_block [] test final exits = pure (final, exits)
case_loop ctx loc value fail_block phi_block (d ∷ rest) test final exits = do
  enter ← new_block (codes "case_value")
  next ← elim rest [ [] ↦ pure fail_block | d' ∷ rest' ↦ new_block (codes "case_test") ]
  set_insert_point test
  test_branch ctx loc value d.cls enter next
  set_insert_point enter
  exit ← value_branch ctx loc value d phi_block
  final' ← join ctx.program final exit.0.cls
  case_loop ctx loc value fail_block phi_block rest next (some final') (exits ++ exit ∷ [])

-- The upcasts at the end of the branches, and the inputs of the phi node.
unfoldable pub incoming_loop : Context → Value → Bytes → List (ValueAndCls × ℕ) → M (Unit {0})
unfolding set_insert_point upcast_to emit
incoming_loop ctx node final [] = skip
incoming_loop ctx node final ((r, exit) ∷ rest) = do
  set_insert_point exit
  up ← upcast_to ctx.program r.cls r.value final
  v ← not_null up
  emit (incoming node v exit)
  incoming_loop ctx node final rest

-- From "Initial block" on.
unfoldable pub case_blocks : Context → Location → ValueAndCls → List CaseData → M ValueAndCls
unfolding ensure_not_null new_block emit case_loop set_insert_point type_of incoming_loop
    call_global
case_blocks ctx loc value sorted = do
  ensure_not_null ctx.program value.cls value.value
  test ← new_block (codes "case_test")
  emit (br test)
  fail_block ← new_block (codes "case_fail")
  phi_block ← new_block (codes "case_phi")
  r ← case_loop ctx loc value fail_block phi_block sorted test none []
  final ← not_null r.0
  set_insert_point phi_block
  t ← type_of ctx.program final
  node ← emit (phi t)
  incoming_loop ctx node final r.1
  set_insert_point fail_block
  call_global (codes "abort_case") []
  emit unreachable
  set_insert_point phi_block
  pure (value_and_cls node final)

-- `visit(type_case)`, after its value.
unfoldable pub visit_case : Sort → Context → Location → ValueAndCls → List Branch → M ValueAndCls
unfolding resolve_branches null_object log_error branch_before case_blocks
visit_case sort ctx loc value branches = do
  found ← resolve_branches ctx loc branches []
  elim found [
    | [] ↦ do
      elim branches [
        | [] ↦ log_error loc (codes "case expression with no branches")
        | b ∷ rest ↦ skip
      ]
      null_object ctx
    | d ∷ rest ↦ case_blocks ctx loc value (sort (branch_before ctx.program) (d ∷ rest))
  ]
