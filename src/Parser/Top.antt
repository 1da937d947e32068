-- ===== src/Parser/Top.antt =====
-- src/parser.cpp: classes, attributes, methods, the program, and the external function `parse`.
use lcool.Base.{
  ℕ, zero, suc, ◌++◌, Bool, true, false, Option, none, some, List, [], ◌∷◌, ◌&&◌, Bytes,
  if◌then◌else◌,
}
use lcool.Logger.{Logger, error_at}
use lcool.Lexer.Token.{TokenType, Token, same}
use lcool.Ast.{Method, Class, Program}
use lcool.Parser.Monad.{
  Outcome, done, threw, starved, M, ◌>>=◌, ◌>>◌, pure, peek, starve, expect, optional, with_fuel,
  new_parser,
}
use lcool.Parser.Expr.{parse_attribute, parse_expr}

abbrev pub Params : Type 0
Params = List (Bytes × Bytes)

abbrev pub is_empty {ℓ} : {A : Type ℓ} → List A → Bool
is_empty [] = true
is_empty (x ∷ xs) = false

unfoldable pub params_loop : ℕ → Params → M Params
params_loop zero params = starve
params_loop (suc f) params = peek λ p.
    let next : M Params = do
      name_token ← expect TokenType.id
      expect TokenType.colon
      type_token ← expect TokenType.type
      more ← optional TokenType.comma
      let result = params ++ (name_token.value, type_token.value) ∷ []
      let rest = params_loop f result
      if more then rest else pure result
    in if is_empty params && same p.lookahead.type TokenType.rparen then pure params else next

unfoldable pub parse_method : M Method
parse_method = do
  name ← expect TokenType.id
  expect TokenType.lparen
  params ← with_fuel (λ f. params_loop f [])
  expect TokenType.rparen
  expect TokenType.colon
  type ← expect TokenType.type
  expect TokenType.lbraket
  body ← parse_expr
  expect TokenType.rbraket
  pure (record {
    loc = name.loc;
    name = name.value;
    type = type.value;
    params = params;
    body = body;
  })

-- A method if a '(' follows the name, else an attribute; it is added to the class.
unfoldable pub parse_feature : Class → M Class
parse_feature cls = peek λ p.
    let method : M Class = do
      m ← parse_method
      pure (record cls { methods = cls.methods ++ m ∷ [] })
    in let attribute : M Class = do
      a ← parse_attribute parse_expr
      pure (record cls { attributes = cls.attributes ++ a ∷ [] })
      in if same p.lookahead2.type TokenType.lparen then method else attribute

unfoldable pub features_loop : ℕ → Class → M Class
features_loop zero cls = starve
features_loop (suc f) cls = peek λ p.
    let next : M Class = do
      cls' ← parse_feature cls
      expect TokenType.semicolon
      features_loop f cls'
    in if same p.lookahead.type TokenType.id then next else pure cls

unfoldable pub parse_parent : Bool → M (Option Bytes)
parse_parent true = do t ← expect TokenType.type; pure (some t.value)
parse_parent false = pure none

unfoldable pub parse_class : M Class
parse_class = do
  start ← expect TokenType.kw_class
  name ← expect TokenType.type
  inherits ← optional TokenType.kw_inherits
  parent ← parse_parent inherits
  expect TokenType.lbraket
  let cls : Class = record {
    loc = start.loc;
    name = name.value;
    parent = parent;
    attributes = [];
    methods = [];
  }
  result ← with_fuel (λ f. features_loop f cls)
  expect TokenType.rbraket
  expect TokenType.semicolon
  pure result

unfoldable pub classes_loop : ℕ → Program → M Program
classes_loop zero result = starve
classes_loop (suc f) result = peek λ p.
    let next : M Program = do cls ← parse_class; classes_loop f (result ++ cls ∷ [])
    in if same p.lookahead.type TokenType.kw_class then next else pure result

-- `parser::parse`
unfoldable pub parse_program : M Program
parse_program = do result ← with_fuel (λ f. classes_loop f []); expect TokenType.eof; pure result

-- The `catch` of the external function. `none` stands for a run without enough fuel.
unfoldable pub report : Outcome Program → Option (Program × Logger)
report (done result p) = some (result, p.log)
report (threw loc msg log) = some ([], error_at loc msg log)
report starved = none

abbrev pub start_with : Outcome Token → M Program → Outcome Program
start_with (done t p) m = m p
start_with (threw loc msg log) m = threw loc msg log
start_with starved m = starved

-- `lcool::parse`: the constructor runs inside the `try` block too.
unfoldable pub parse : Bytes → Bytes → Logger → Option (Program × Logger)
parse input filename log = report (start_with (new_parser input filename log) parse_program)
