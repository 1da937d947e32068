-- ===== src/Parser/Ends.antt =====
-- The levels of src/parser.cpp above the base expressions, and `parse_expr` itself, end on any input.
use lcool.Base.{ℕ, zero, suc, ◌≤◌, ◌∙◌, refl, Bool, true, false, Bytes, arith}
use lcool.Logger.{Location, Logger}
use lcool.Lexer.Token.{TokenType}
use lcool.Ast.{Expr, expr}
use lcool.Parser.Monad.{M, peek, consume, weight, with_fuel}
use lcool.Parser.Rules.{
  Below, Stays, Eats, Below-seq, Stays-bind, Stays-pure, Stays-expect, Stays-optional,
}
use lcool.Parser.Strict.{
  Rests, Eats-expect, Eats-bind, Eats-seq, Eats-peek, Eats-syntax_error, Eats-le, Eats-consume,
  Eats-after, Eats-none, Rests-Stays, Stays-Eats, Stays-Rests, Rests-Eats, Rests-pure, Rests-none,
  Rests-peek, Rests-if, Stays-with_fuel,
}
use lcool.Parser.Expr.{
  compare_op, add_op, mult_op, unary_op, starts_dispatch, parse_boolean, convert_integer,
  parse_integer, parse_string, parse_expr_new, base_of, parse_expr_base, object_type, dispatch_loop,
  parse_expr_dispatch, isvoid_loop, parse_expr_isvoid, parse_expr_mult, parse_expr_add, expr_body,
  nested_expr, parse_expr,
}
use lcool.Parser.Total.{
  parse_expr_not-Eats, parse_expr_let-Eats, parse_expr_lparen-Eats, parse_expr_if-Eats,
  parse_expr_while-Eats, parse_expr_block-Eats, parse_expr_case-Eats, parse_expr_identifier-Eats,
  parse_dispatch_tail-Eats,
}
use lcool.Parser.Operators.{
  compare_op-count, add_op-count, mult_op-count, unary_op-count, Below-operator, binary-Eats,
}
use lcool.Parser.Literals.Integer.{integer_loop-log}

module _ (log : Logger) where
  parse_boolean-Eats : (k : ℕ) → Eats log (suc k) parse_boolean
  unfolding parse_boolean
  parse_boolean-Eats k =
      Eats-peek log _
        λ p. Eats-bind log (Eats-expect log TokenType.boolean refl) λ w le t. Stays-pure log _

  parse_string-Eats : (k : ℕ) → Eats log (suc k) parse_string
  unfolding parse_string
  parse_string-Eats k =
      Eats-peek log _
        λ p. Eats-bind log (Eats-expect log TokenType.string refl) λ w le t. Stays-pure log _

  convert_integer-Stays :
      (loc : Location) (str : Bytes) (w : ℕ) → Stays log w (convert_integer loc str)
  unfolding convert_integer weight
  convert_integer-Stays loc str w = record {
    at = λ p g lt.
        Below.below
          (record {
            synced = g.synced;
            same_log = integer_loop-log loc str str 0 p.log ∙ g.same_log;
          })
          lt;
  }

  parse_integer-Eats : (k : ℕ) → Eats log (suc k) parse_integer
  unfolding parse_integer
  parse_integer-Eats k = Eats-peek log _ λ p.
      Eats-bind log (Eats-expect log TokenType.integer refl)
        λ w le t. convert_integer-Stays p.lookahead.loc t.value w

  parse_expr_new-Eats : (k : ℕ) → Eats log (suc k) parse_expr_new
  unfolding parse_expr_new
  parse_expr_new-Eats k = Eats-peek log _ λ p.
      Eats-seq log (Eats-expect log TokenType.kw_new refl)
        λ w le. Stays-bind log (Stays-expect log TokenType.type) λ t. Stays-pure log _

  module _ (self : M Expr) (k : ℕ) (eats : Eats log k self) where
    base_of-Eats : (t : TokenType) → Eats log (suc k) (base_of self t)
    unfolding base_of
    base_of-Eats TokenType.kw_not = parse_expr_not-Eats log self k eats
    base_of-Eats TokenType.kw_let = parse_expr_let-Eats log self k eats
    base_of-Eats TokenType.lparen = parse_expr_lparen-Eats log self k eats
    base_of-Eats TokenType.kw_if = parse_expr_if-Eats log self k eats
    base_of-Eats TokenType.kw_while = parse_expr_while-Eats log self k eats
    base_of-Eats TokenType.lbraket = parse_expr_block-Eats log self k eats
    base_of-Eats TokenType.kw_case = parse_expr_case-Eats log self k eats
    base_of-Eats TokenType.kw_new = parse_expr_new-Eats k
    base_of-Eats TokenType.id = parse_expr_identifier-Eats log self k eats
    base_of-Eats TokenType.integer = parse_integer-Eats k
    base_of-Eats TokenType.string = parse_string-Eats k
    base_of-Eats TokenType.boolean = parse_boolean-Eats k
    base_of-Eats _ = Eats-syntax_error log

    parse_expr_base-Eats : Eats log (suc k) (parse_expr_base self)
    unfolding parse_expr_base
    parse_expr_base-Eats = Eats-peek log _ λ p. base_of-Eats p.lookahead.type

    object_type-Stays : {w : ℕ} (b : Bool) → Stays log w (object_type self b)
    unfolding object_type
    object_type-Stays true = Stays-bind log (Stays-expect log TokenType.type) λ t. Stays-pure log _
    object_type-Stays false = Stays-pure log _

    dispatch_loop-Rests :
        (f n : ℕ) (left : Expr) → n ≤ f → n ≤ suc k → Rests log n (dispatch_loop self f left)
    unfolding dispatch_loop
    dispatch_loop-Rests f zero left h le = Rests-none log _
    dispatch_loop-Rests zero (suc n) left h le = absurd (omega arith)
    dispatch_loop-Rests (suc f) (suc n) left h le = Rests-peek log _ λ p.
        Rests-if log (starts_dispatch p.lookahead.type)
          (Rests-Eats log (
            Eats-after log (Rests-Stays log λ w. Stays-optional log TokenType.at) λ static.
              Eats-after log (Rests-Stays log λ w. object_type-Stays static) λ type.
                Eats-seq log (Eats-expect log TokenType.dot refl) λ w less.
                  Stays-bind log
                    (Stays-Eats log
                      (parse_dispatch_tail-Eats log self k eats p.lookahead.loc (expr left) type)
                      (omega arith))
                    λ e.
                      Stays-Rests log (dispatch_loop-Rests f n e (omega arith) (omega arith)) less))
          (Rests-pure log left)

    parse_expr_dispatch-Eats : Eats log (suc k) (parse_expr_dispatch self)
    unfolding parse_expr_dispatch
    parse_expr_dispatch-Eats = Eats-bind log parse_expr_base-Eats λ w le left.
        Stays-with_fuel log {w = w} (λ f. dispatch_loop self f left)
          λ f less. dispatch_loop-Rests f f left (omega arith) (omega arith)

    isvoid_loop-Eats : (f n : ℕ) → n ≤ f → n ≤ suc k → Eats log n (isvoid_loop self f)
    unfolding isvoid_loop peek
    isvoid_loop-Eats f zero h le = Eats-none log _
    isvoid_loop-Eats zero (suc n) h le = absurd (omega arith)
    isvoid_loop-Eats (suc f) (suc n) h le = record {
      at = λ p g lt.
          Below-operator log (unary_op p.lookahead.type) _ _ p
            (λ _. (Eats-le log le parse_expr_dispatch-Eats).at p g lt)
            λ op e.
              Below-seq log consume _ p
                (Eats-consume log p g (unary_op-count p.lookahead.type op e))
                (Stays-bind log
                  (Stays-Eats log (isvoid_loop-Eats f n (omega arith) (omega arith)) (omega arith))
                  λ body. Stays-pure log _).at;
    }

    parse_expr_isvoid-Eats : Eats log (suc k) (parse_expr_isvoid self)
    unfolding parse_expr_isvoid with_fuel
    parse_expr_isvoid-Eats = record {
      at = λ p g lt.
          (isvoid_loop-Eats (suc (weight p)) (suc (weight p)) (omega arith) (omega arith)).at p g
            (omega arith);
    }

    parse_expr_mult-Eats : Eats log (suc k) (parse_expr_mult self)
    unfolding parse_expr_mult
    parse_expr_mult-Eats = binary-Eats log mult_op _ k mult_op-count parse_expr_isvoid-Eats

    parse_expr_add-Eats : Eats log (suc k) (parse_expr_add self)
    unfolding parse_expr_add
    parse_expr_add-Eats = binary-Eats log add_op _ k add_op-count parse_expr_mult-Eats

    expr_body-Eats : Eats log (suc k) (expr_body self)
    unfolding expr_body
    expr_body-Eats = binary-Eats log compare_op _ k compare_op-count parse_expr_add-Eats

  nested_expr-Eats : (f : ℕ) → Eats log f (nested_expr f)
  unfolding nested_expr
  nested_expr-Eats zero = Eats-none log _
  nested_expr-Eats (suc f) = expr_body-Eats (nested_expr f) f (nested_expr-Eats f)

  -- From any state `parse_expr` ends: it throws, or it consumes something. It logs nothing.
  pub parse_expr-Eats : (k : ℕ) → Eats log k parse_expr
  unfolding parse_expr with_fuel
  parse_expr-Eats k = record {
    at = λ p g lt. (nested_expr-Eats (suc (weight p))).at p g (omega arith);
  }
