-- ===== src/Codegen/Expr.antt =====
-- `expr_codegen::evaluate` (src/codegen.cpp), by recursion on the expression.
use lcool.Base.{ℕ, suc, ◌++◌, Option, none, some, List, [], ◌∷◌, Bytes, codes}
use lcool.Logger.{Location}
use lcool.Ast.{
  Expr, MaybeExpr, Exprs, Attributes, Branches, assign, dispatch, conditional, loop, block, let_in,
  type_case, new_object, constant_bool, constant_int, constant_string, identifier, compute_unary,
  compute_binary, null, expr, no_exprs, more_exprs, attribute, no_attributes, more_attributes,
  no_branches, more_branches,
}
use lcool.Program.{lookup_class, common_ancestor}
use lcool.Codegen.Builder.{
  Value, int_const, bool_const, br, cond_br, phi, incoming, store, ValueAndCls, M, ◌>>=◌, ◌>>◌,
  pure, skip, not_null, fault, emit, check_init, new_block, get_insert_block, set_insert_point,
  log_error, pop,
}
use lcool.Codegen.Classes.{upcast_to, type_of, create_string_literal}
use lcool.Codegen.Visit.{
  Context, value_and_cls, int, bool, string, null_object, default_initializer, push_new_variable,
  coerce, load_self, visit_identifier, visit_assign, visit_dispatch, check_bool, visit_new_object,
  visit_unary, visit_binary,
}
use lcool.Codegen.Case.{Branch, Sort, visit_case}

-- The end of `visit(conditional)`: both results as their common class, and the phi node.
unfoldable pub join_results : Context → ValueAndCls → ℕ → ValueAndCls → ℕ → ℕ → M ValueAndCls
unfolding common_ancestor upcast_to set_insert_point emit type_of
join_results ctx result_true block_true result_false block_false block_done = do
  common ← not_null (common_ancestor ctx.program result_true.cls result_false.cls)
  set_insert_point block_true
  value_true ← upcast_to ctx.program result_true.cls result_true.value common
  emit (br block_done)
  set_insert_point block_false
  value_false ← upcast_to ctx.program result_false.cls result_false.value common
  emit (br block_done)
  set_insert_point block_done
  t ← type_of ctx.program common
  node ← emit (phi t)
  v ← not_null value_true
  emit (incoming node v block_true)
  w ← not_null value_false
  emit (incoming node w block_false)
  pure (value_and_cls node common)

-- `visit(conditional)` on the evaluations of its parts.
unfoldable pub visit_conditional :
    Context → Location → M ValueAndCls → M ValueAndCls → M ValueAndCls → M ValueAndCls
unfolding check_bool new_block emit set_insert_point get_insert_block join_results
visit_conditional ctx loc predicate if_true if_false = do
  p ← predicate
  p' ← check_bool loc (codes "conditional predicate must be a Bool") p
  block_true ← new_block (codes "if_true")
  block_false ← new_block (codes "if_false")
  block_done ← new_block (codes "if_done")
  emit (cond_br p'.value block_true block_false)
  set_insert_point block_true
  result_true ← if_true
  exit_true ← get_insert_block
  set_insert_point block_false
  result_false ← if_false
  exit_false ← get_insert_block
  join_results ctx result_true exit_true result_false exit_false block_done

-- `visit(loop)`
unfoldable pub visit_loop : Context → Location → M ValueAndCls → M ValueAndCls → M ValueAndCls
unfolding check_bool new_block emit set_insert_point null_object
visit_loop ctx loc predicate body = do
  block_predicate ← new_block (codes "loop_predicate")
  block_body ← new_block (codes "loop_body")
  block_done ← new_block (codes "loop_done")
  emit (br block_predicate)
  set_insert_point block_predicate
  p ← predicate
  p' ← check_bool loc (codes "loop predicate must be a Bool") p
  emit (cond_br p'.value block_body block_done)
  set_insert_point block_body
  body
  emit (br block_predicate)
  set_insert_point block_done
  null_object ctx

-- The value that a variable of a let begins with; null after an error.
unfoldable pub let_initial : Context → Location → Option ValueAndCls → Bytes → M (Option Value)
unfolding default_initializer coerce
let_initial ctx loc none cls = do v ← default_initializer ctx.program cls; pure (some v)
let_initial ctx loc (some r) cls = coerce ctx loc r cls

-- A variable of a let. The initial value is stored also where it is null.
unfoldable pub let_variable :
    Context → Location → Location → Bytes → Option ValueAndCls → Bytes → M (Unit {0})
unfolding let_initial push_new_variable emit
let_variable ctx loc var_loc name initializer cls = do
  initial ← let_initial ctx loc initializer cls
  var_ptr ← push_new_variable ctx var_loc name cls
  elim var_ptr [ none ↦ skip | some p ↦ do v ← not_null initial; emit (store v p); skip ]

-- The body of the loop over the variables, behind the initializer.
unfoldable pub visit_variable :
    Context → Location → Location → Bytes → Bytes → Option ValueAndCls → M (Unit {0})
unfolding lookup_class let_variable log_error
visit_variable ctx loc var_loc name type initializer = elim (lookup_class type ctx.program) [
  | none ↦ log_error var_loc (codes "class not defined '" ++ (type ++ codes "'"))
  | some cls ↦ let_variable ctx loc var_loc name initializer cls.name
]

abbrev pub variable_count : Attributes → ℕ
variable_count no_attributes = 0
variable_count (more_attributes a rest) = suc (variable_count rest)

-- `visit(let)` on the loop over its variables and the evaluation of its body.
unfoldable pub visit_let : ℕ → M (Unit {0}) → M ValueAndCls → M ValueAndCls
unfolding check_init pop
visit_let count variables body = do check_init; variables; r ← body; pop count; pure r

unfoldable mutual
  unfolding visit_let visit_assign visit_dispatch load_self visit_conditional visit_loop visit_case
      visit_new_object visit_identifier visit_unary visit_binary visit_variable
      create_string_literal

  pub evaluate : Sort → Context → Expr → M ValueAndCls
  evaluate sort ctx (assign loc id value) = do
    r ← evaluate sort ctx value
    visit_assign ctx loc id r
  evaluate sort ctx (dispatch loc method_name object object_type arguments) = do
    o ← evaluate_object sort ctx object
    args ← evaluate_arguments sort ctx arguments
    visit_dispatch ctx loc method_name o object_type args
  evaluate sort ctx (conditional loc predicate if_true if_false) =
      visit_conditional ctx loc (evaluate sort ctx predicate) (evaluate sort ctx if_true)
        (evaluate sort ctx if_false)
  evaluate sort ctx (loop loc predicate body) =
      visit_loop ctx loc (evaluate sort ctx predicate) (evaluate sort ctx body)
  evaluate sort ctx (block loc statements) = evaluate_block sort ctx statements
  evaluate sort ctx (let_in loc vars body) =
      visit_let (variable_count vars) (evaluate_variables sort ctx loc vars)
        (evaluate sort ctx body)
  evaluate sort ctx (type_case loc value branches) = do
    v ← evaluate sort ctx value
    visit_case sort ctx loc v (branch_bodies sort ctx branches)
  evaluate sort ctx (new_object loc type) = visit_new_object ctx loc type
  evaluate sort ctx (constant_bool loc value) = pure (value_and_cls (bool_const value) bool)
  evaluate sort ctx (constant_int loc value) = pure (value_and_cls (int_const value) int)
  evaluate sort ctx (constant_string loc value) =
      pure (value_and_cls (create_string_literal value) string)
  evaluate sort ctx (identifier loc id) = visit_identifier ctx loc id
  evaluate sort ctx (compute_unary loc op body) = do
    r ← evaluate sort ctx body
    visit_unary ctx loc op r
  evaluate sort ctx (compute_binary loc op left right) = do
    l ← evaluate sort ctx left
    r ← evaluate sort ctx right
    visit_binary ctx loc op l r

  -- The object of a dispatch.
  pub evaluate_object : Sort → Context → MaybeExpr → M ValueAndCls
  evaluate_object sort ctx null = load_self
  evaluate_object sort ctx (expr e) = evaluate sort ctx e

  pub evaluate_arguments : Sort → Context → Exprs → M (List ValueAndCls)
  evaluate_arguments sort ctx no_exprs = pure []
  evaluate_arguments sort ctx (more_exprs e rest) = do
    r ← evaluate sort ctx e
    rs ← evaluate_arguments sort ctx rest
    pure (r ∷ rs)

  -- `visit(block)`; a block without statements is a failed assertion.
  pub evaluate_block : Sort → Context → Exprs → M ValueAndCls
  evaluate_block sort ctx no_exprs = fault
  evaluate_block sort ctx (more_exprs e no_exprs) = evaluate sort ctx e
  evaluate_block sort ctx (more_exprs e (more_exprs e' rest)) = do
    evaluate sort ctx e
    evaluate_block sort ctx (more_exprs e' rest)

  -- The initializer of a variable, if it has one.
  pub evaluate_initial : Sort → Context → MaybeExpr → M (Option ValueAndCls)
  evaluate_initial sort ctx null = pure none
  evaluate_initial sort ctx (expr e) = do r ← evaluate sort ctx e; pure (some r)

  -- The loop over the variables of a let.
  pub evaluate_variables : Sort → Context → Location → Attributes → M (Unit {0})
  evaluate_variables sort ctx loc no_attributes = skip
  evaluate_variables sort ctx loc (more_attributes (attribute var_loc name type initial) rest) = do
    initializer ← evaluate_initial sort ctx initial
    visit_variable ctx loc var_loc name type initializer
    evaluate_variables sort ctx loc rest

  pub branch_bodies : Sort → Context → Branches → List Branch
  branch_bodies sort ctx no_branches = []
  branch_bodies sort ctx (more_branches id type body rest) =
      record { id = id; type = type; body = evaluate sort ctx body } ∷ branch_bodies sort ctx rest
