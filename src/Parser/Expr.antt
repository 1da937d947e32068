-- ===== src/Parser/Expr.antt =====
-- src/parser.cpp: the expression parsers. They call `parse_expr` back at a lower level, so all but
-- the last definition take it as the parameter `self`; loops take fuel from the state.
use lcool.Base.{
  ℕ, zero, suc, ◌&&◌, Bool, true, false, Option, none, some, [], Bytes, codes, equal, if◌then◌else◌,
}
use lcool.Base.Int.{signed32}
use lcool.Logger.{Location}
use lcool.Lexer.Token.{TokenType, same}
use lcool.Ast.{
  UnaryType, BinaryType, Expr, MaybeExpr, null, expr, Exprs, no_exprs, more_exprs, Attribute,
  attribute, Attributes, no_attributes, Branches, no_branches, push_expr, push_attribute,
  push_branch,
}
use lcool.Parser.Monad.{
  done, M, ◌>>=◌, ◌>>◌, pure, peek, starve, consume, expect, optional, syntax_error, with_fuel,
}
use lcool.Parser.Literals.{integer_loop, string_loop}

-- The `switch` at the head of each operator loop.
unfoldable pub compare_op : TokenType → Option BinaryType
compare_op TokenType.less_equal = some BinaryType.less_or_equal
compare_op TokenType.less = some BinaryType.less
compare_op TokenType.equals = some BinaryType.equal
compare_op _ = none

unfoldable pub add_op : TokenType → Option BinaryType
add_op TokenType.plus = some BinaryType.add
add_op TokenType.minus = some BinaryType.subtract
add_op _ = none

unfoldable pub mult_op : TokenType → Option BinaryType
mult_op TokenType.times = some BinaryType.multiply
mult_op TokenType.divide = some BinaryType.divide
mult_op _ = none

unfoldable pub unary_op : TokenType → Option UnaryType
unary_op TokenType.kw_isvoid = some UnaryType.isvoid
unary_op TokenType.negate = some UnaryType.negate
unary_op _ = none

unfoldable pub starts_dispatch : TokenType → Bool
starts_dispatch TokenType.at = true
starts_dispatch TokenType.dot = true
starts_dispatch _ = false

-- The loop of `parse_expr`, `parse_expr_add` and `parse_expr_mult`: while the lookahead is an
-- operator, read it and an operand, and put them to the left.
unfoldable pub binary_loop : (TokenType → Option BinaryType) → M Expr → ℕ → Expr → M Expr
binary_loop ops operand zero left = starve
binary_loop ops operand (suc f) left = peek λ p. elim (ops p.lookahead.type) [
  | none ↦ pure left
  | some op ↦ do
    consume
    right ← operand
    binary_loop ops operand f (Expr.compute_binary p.lookahead.loc op left right)
]

-- Literals.
unfoldable pub parse_boolean : M Expr
parse_boolean = peek λ p. do
  t ← expect TokenType.boolean
  pure (Expr.constant_bool p.lookahead.loc (equal t.value (codes "true")))

unfoldable pub convert_integer : Location → Bytes → M Expr
convert_integer loc str p =
    let (value, log) = integer_loop loc str str 0 p.log in
    done (Expr.constant_int loc (signed32 value)) (record p { log = log })

unfoldable pub parse_integer : M Expr
parse_integer = peek λ p. do t ← expect TokenType.integer; convert_integer p.lookahead.loc t.value

unfoldable pub parse_string : M Expr
parse_string = peek λ p. do
  t ← expect TokenType.string
  pure (Expr.constant_string p.lookahead.loc (string_loop false [] t.value))

abbrev pub is_no_exprs : Exprs → Bool
is_no_exprs no_exprs = true
is_no_exprs (more_exprs e es) = false

unfoldable pub parse_expr_new : M Expr
parse_expr_new = peek λ p. do
  expect TokenType.kw_new
  t ← expect TokenType.type
  pure (Expr.new_object p.lookahead.loc t.value)

module _ (self : M Expr) where
  unfoldable pub initial_value : Bool → M MaybeExpr
  initial_value true = do e ← self; pure (expr e)
  initial_value false = pure null

  unfoldable pub parse_attribute : M Attribute
  parse_attribute = do
    name ← expect TokenType.id
    expect TokenType.colon
    type ← expect TokenType.type
    has_initial ← optional TokenType.assign
    initial ← initial_value has_initial
    pure (attribute name.loc name.value type.value initial)

  unfoldable pub parse_expr_not : M Expr
  parse_expr_not = peek λ p. do
    expect TokenType.kw_not
    body ← self
    pure (Expr.compute_unary p.lookahead.loc UnaryType.logical_not body)

  unfoldable pub let_loop : ℕ → Attributes → M Attributes
  let_loop zero vars = starve
  let_loop (suc f) vars = do
    var ← parse_attribute
    more ← optional TokenType.comma
    let rest = let_loop f (push_attribute vars var)
    if more then rest else pure (push_attribute vars var)

  unfoldable pub parse_expr_let : M Expr
  parse_expr_let = peek λ p. do
    expect TokenType.kw_let
    vars ← with_fuel (λ f. let_loop f no_attributes)
    expect TokenType.kw_in
    body ← self
    pure (Expr.let_in p.lookahead.loc vars body)

  unfoldable pub parse_expr_lparen : M Expr
  parse_expr_lparen = do
    expect TokenType.lparen
    result ← self
    expect TokenType.rparen
    pure result

  unfoldable pub parse_expr_if : M Expr
  parse_expr_if = peek λ p. do
    expect TokenType.kw_if
    predicate ← self
    expect TokenType.kw_then
    if_true ← self
    expect TokenType.kw_else
    if_false ← self
    expect TokenType.kw_fi
    pure (Expr.conditional p.lookahead.loc predicate if_true if_false)

  unfoldable pub parse_expr_while : M Expr
  parse_expr_while = peek λ p. do
    expect TokenType.kw_while
    predicate ← self
    expect TokenType.kw_loop
    body ← self
    expect TokenType.kw_pool
    pure (Expr.loop p.lookahead.loc predicate body)

  unfoldable pub block_loop : ℕ → Exprs → M Exprs
  block_loop zero statements = starve
  block_loop (suc f) statements = do
    statement ← self
    expect TokenType.semicolon
    ends ← optional TokenType.rbraket
    let rest = block_loop f (push_expr statements statement)
    if ends then pure (push_expr statements statement) else rest

  unfoldable pub parse_expr_block : M Expr
  parse_expr_block = peek λ p. do
    expect TokenType.lbraket
    statements ← with_fuel (λ f. block_loop f no_exprs)
    pure (Expr.block p.lookahead.loc statements)

  unfoldable pub case_loop : ℕ → Branches → M Branches
  case_loop zero result = starve
  case_loop (suc f) result = do
    id ← expect TokenType.id
    expect TokenType.colon
    type ← expect TokenType.type
    expect TokenType.case_arrow
    body ← self
    expect TokenType.semicolon
    ends ← optional TokenType.kw_esac
    let pushed = push_branch result id.value type.value body
    let rest = case_loop f pushed
    if ends then pure pushed else rest

  unfoldable pub parse_expr_case : M Expr
  parse_expr_case = peek λ p. do
    expect TokenType.kw_case
    value ← self
    expect TokenType.kw_of
    branches ← with_fuel (λ f. case_loop f no_branches)
    pure (Expr.type_case p.lookahead.loc value branches)

  -- No argument is permitted only before the first one.
  unfoldable pub arguments_loop : ℕ → Exprs → M Exprs
  arguments_loop zero arguments = starve
  arguments_loop (suc f) arguments = peek λ p.
      let next : M Exprs = do
        argument ← self
        more ← optional TokenType.comma
        let rest = arguments_loop f (push_expr arguments argument)
        if more then rest else pure (push_expr arguments argument)
      in if is_no_exprs arguments && same p.lookahead.type TokenType.rparen
        then pure arguments
        else next

  unfoldable pub parse_dispatch_tail : Location → MaybeExpr → Option Bytes → M Expr
  parse_dispatch_tail loc object object_type = do
    name ← expect TokenType.id
    expect TokenType.lparen
    arguments ← with_fuel (λ f. arguments_loop f no_exprs)
    expect TokenType.rparen
    pure (Expr.dispatch loc name.value object object_type arguments)

  unfoldable pub parse_expr_identifier : M Expr
  parse_expr_identifier = peek λ p.
      let assignment : M Expr = do
        id ← expect TokenType.id
        expect TokenType.assign
        value ← self
        pure (Expr.assign p.lookahead.loc id.value value)
      in let read : M Expr = do
        id ← expect TokenType.id
        pure (Expr.identifier p.lookahead.loc id.value)
        in if same p.lookahead2.type TokenType.assign
          then assignment
          else if same p.lookahead2.type TokenType.lparen
          then parse_dispatch_tail p.lookahead.loc null none
          else read

  unfoldable pub base_of : TokenType → M Expr
  base_of TokenType.kw_not = parse_expr_not
  base_of TokenType.kw_let = parse_expr_let
  base_of TokenType.lparen = parse_expr_lparen
  base_of TokenType.kw_if = parse_expr_if
  base_of TokenType.kw_while = parse_expr_while
  base_of TokenType.lbraket = parse_expr_block
  base_of TokenType.kw_case = parse_expr_case
  base_of TokenType.kw_new = parse_expr_new
  base_of TokenType.id = parse_expr_identifier
  base_of TokenType.integer = parse_integer
  base_of TokenType.string = parse_string
  base_of TokenType.boolean = parse_boolean
  base_of _ = syntax_error

  unfoldable pub parse_expr_base : M Expr
  parse_expr_base = peek λ p. base_of p.lookahead.type

  unfoldable pub object_type : Bool → M (Option Bytes)
  object_type true = do t ← expect TokenType.type; pure (some t.value)
  object_type false = pure none

  unfoldable pub dispatch_loop : ℕ → Expr → M Expr
  dispatch_loop zero left = starve
  dispatch_loop (suc f) left = peek λ p.
      let next : M Expr = do
        static ← optional TokenType.at
        type ← object_type static
        expect TokenType.dot
        e ← parse_dispatch_tail p.lookahead.loc (expr left) type
        dispatch_loop f e
      in if starts_dispatch p.lookahead.type then next else pure left

  unfoldable pub parse_expr_dispatch : M Expr
  parse_expr_dispatch = do left ← parse_expr_base; with_fuel (λ f. dispatch_loop f left)

  unfoldable pub isvoid_loop : ℕ → M Expr
  isvoid_loop zero = starve
  isvoid_loop (suc f) = peek λ p. elim (unary_op p.lookahead.type) [
    | none ↦ parse_expr_dispatch
    | some op ↦ do consume; body ← isvoid_loop f; pure (Expr.compute_unary p.lookahead.loc op body)
  ]

  unfoldable pub parse_expr_isvoid : M Expr
  parse_expr_isvoid = with_fuel isvoid_loop

  unfoldable pub parse_expr_mult : M Expr
  parse_expr_mult = do
    left ← parse_expr_isvoid
    with_fuel (λ f. binary_loop mult_op parse_expr_isvoid f left)

  unfoldable pub parse_expr_add : M Expr
  parse_expr_add = do
    left ← parse_expr_mult
    with_fuel (λ f. binary_loop add_op parse_expr_mult f left)

  -- The body of `parse_expr`.
  unfoldable pub expr_body : M Expr
  expr_body = do
    left ← parse_expr_add
    with_fuel (λ f. binary_loop compare_op parse_expr_add f left)

-- A call inside reads from a state that has less left, so the fuel bounds the nesting.
unfoldable pub nested_expr : ℕ → M Expr
nested_expr zero = starve
nested_expr (suc f) = expr_body (nested_expr f)

unfoldable pub parse_expr : M Expr
parse_expr = with_fuel nested_expr
