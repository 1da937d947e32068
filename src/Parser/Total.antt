-- ===== src/Parser/Total.antt =====
-- The expression parsers of src/parser.cpp end, on any input: each consumes a token before it calls
-- `parse_expr` back, and each round of a loop consumes one.
use lcool.Base.{ℕ, zero, suc, ◌≤◌, refl, ◌&&◌, Bool, true, false, Option, none, Bytes, arith}
use lcool.Logger.{Location, Logger}
use lcool.Lexer.Token.{TokenType, same}
use lcool.Ast.{
  Expr, MaybeExpr, null, Exprs, no_exprs, Attributes, no_attributes, Branches, no_branches,
  push_attribute, push_expr,
}
use lcool.Parser.Monad.{M}
use lcool.Parser.Rules.{
  Stays, Eats, Stays-bind, Stays-seq, Stays-pure, Stays-if, Stays-expect, Stays-optional, Stays-ask,
}
use lcool.Parser.Strict.{
  Rests, Eats-expect, Eats-bind, Eats-seq, Eats-peek, Eats-if, Eats-le, Stays-Eats, Stays-Rests,
  Rests-Eats, Rests-pure, Rests-none, Rests-peek, Rests-if, Stays-with_fuel,
}
use lcool.Parser.Expr.{
  initial_value, parse_attribute, parse_expr_not, let_loop, parse_expr_let, parse_expr_lparen,
  parse_expr_if, parse_expr_while, block_loop, parse_expr_block, case_loop, parse_expr_case,
  arguments_loop, parse_dispatch_tail, parse_expr_identifier, is_no_exprs,
}

ruleset stays = (Stays-bind, Stays-seq, Stays-pure, Stays-if, Stays-expect, Stays-optional)

module _ (log : Logger) (self : M Expr) (k : ℕ) (eats : Eats log k self) where
  self-Stays : {w : ℕ} → w ≤ k → Stays log w self
  self-Stays le = Stays-Eats log eats le

  initial_value-Stays : {w : ℕ} (b : Bool) → w ≤ k → Stays log w (initial_value self b)
  unfolding initial_value
  initial_value-Stays true le = search (stays, self-Stays)
  initial_value-Stays false le = Stays-pure log _

  pub parse_attribute-Eats : Eats log (suc k) (parse_attribute self)
  unfolding parse_attribute
  parse_attribute-Eats =
      Eats-bind log (Eats-expect log TokenType.id refl)
        λ w le name. search (stays, initial_value-Stays) depth 12

  pub parse_expr_not-Eats : Eats log (suc k) (parse_expr_not self)
  unfolding parse_expr_not
  parse_expr_not-Eats =
      Eats-peek log _
        λ p. Eats-seq log (Eats-expect log TokenType.kw_not refl) λ w le. search (stays, self-Stays)

  pub parse_expr_lparen-Eats : Eats log (suc k) (parse_expr_lparen self)
  unfolding parse_expr_lparen
  parse_expr_lparen-Eats =
      Eats-seq log (Eats-expect log TokenType.lparen refl)
        λ w le. search (stays, self-Stays) depth 9

  pub parse_expr_if-Eats : Eats log (suc k) (parse_expr_if self)
  unfolding parse_expr_if
  parse_expr_if-Eats = Eats-peek log _ λ p.
      Eats-seq log (Eats-expect log TokenType.kw_if refl)
        λ w le. search (stays, self-Stays) depth 15

  pub parse_expr_while-Eats : Eats log (suc k) (parse_expr_while self)
  unfolding parse_expr_while
  parse_expr_while-Eats = Eats-peek log _ λ p.
      Eats-seq log (Eats-expect log TokenType.kw_while refl)
        λ w le. search (stays, self-Stays) depth 15

  let_loop-Rests :
      (f n : ℕ) (vars : Attributes) → n ≤ f → n ≤ suc k → Rests log n (let_loop self f vars)
  unfolding let_loop
  let_loop-Rests f zero vars h le = Rests-none log _
  let_loop-Rests zero (suc n) vars h le = absurd (omega arith)
  let_loop-Rests (suc f) (suc n) vars h le = Rests-Eats log (
      Eats-bind log (Eats-le log le parse_attribute-Eats) λ w less var.
        let again =
          Stays-Rests log (let_loop-Rests f n (push_attribute vars var) (omega arith) (omega arith))
            less in
        Stays-ask log TokenType.comma again (Stays-pure log _))

  pub parse_expr_let-Eats : Eats log (suc k) (parse_expr_let self)
  unfolding parse_expr_let
  parse_expr_let-Eats = Eats-peek log _ λ p.
      Eats-seq log (Eats-expect log TokenType.kw_let refl) λ w le.
        let vars =
          Stays-with_fuel log {w = w} (λ f. let_loop self f no_attributes)
            λ f less. let_loop-Rests f f no_attributes (omega arith) (omega arith) in
        Stays-bind log vars λ result. search (stays, self-Stays) depth 9

  block_loop-Rests :
      (f n : ℕ) (statements : Exprs) → n ≤ f → n ≤ k → Rests log n (block_loop self f statements)
  unfolding block_loop
  block_loop-Rests f zero statements h le = Rests-none log _
  block_loop-Rests zero (suc n) statements h le = absurd (omega arith)
  block_loop-Rests (suc f) (suc n) statements h le = Rests-Eats log (
      Eats-bind log (Eats-le log le eats) λ w less e.
        let again =
          Stays-Rests log
            (block_loop-Rests f n (push_expr statements e) (omega arith) (omega arith)) less in
        Stays-seq log (Stays-expect log TokenType.semicolon)
          (Stays-ask log TokenType.rbraket (Stays-pure log _) again))

  pub parse_expr_block-Eats : Eats log (suc k) (parse_expr_block self)
  unfolding parse_expr_block
  parse_expr_block-Eats = Eats-peek log _ λ p.
      Eats-seq log (Eats-expect log TokenType.lbraket refl) λ w le.
        let statements =
          Stays-with_fuel log {w = w} (λ f. block_loop self f no_exprs)
            λ f less. block_loop-Rests f f no_exprs (omega arith) (omega arith) in
        search (stays, statements) depth 9

  case_loop-Rests :
      (f n : ℕ) (result : Branches) → n ≤ f → n ≤ suc k → Rests log n (case_loop self f result)
  unfolding case_loop
  case_loop-Rests f zero result h le = Rests-none log _
  case_loop-Rests zero (suc n) result h le = absurd (omega arith)
  case_loop-Rests (suc f) (suc n) result h le = Rests-Eats log (
      Eats-bind log (Eats-expect log TokenType.id refl) λ w less id.
        let again = λ (b : Branches).
          Stays-Rests log (case_loop-Rests f n b (omega arith) (omega arith)) less in
        let inner : Stays log w self = self-Stays (omega arith) in
        Stays-seq log (Stays-expect log TokenType.colon) (
          Stays-bind log (Stays-expect log TokenType.type) λ type.
            Stays-seq log (Stays-expect log TokenType.case_arrow) (
              Stays-bind log inner λ body.
                Stays-seq log (Stays-expect log TokenType.semicolon)
                  (Stays-ask log TokenType.kw_esac (Stays-pure log _) (again _)))))

  pub parse_expr_case-Eats : Eats log (suc k) (parse_expr_case self)
  unfolding parse_expr_case
  parse_expr_case-Eats = Eats-peek log _ λ p.
      Eats-seq log (Eats-expect log TokenType.kw_case refl) λ w le.
        let branches =
          Stays-with_fuel log {w = w} (λ f. case_loop self f no_branches)
            λ f less. case_loop-Rests f f no_branches (omega arith) (omega arith) in
        Stays-bind log (self-Stays le) λ value.
          Stays-seq log (Stays-expect log TokenType.kw_of)
            (Stays-bind log branches λ result. Stays-pure log _)

  arguments_loop-Rests :
      (f n : ℕ) (arguments : Exprs) → n ≤ f → n ≤ k → Rests log n (arguments_loop self f arguments)
  unfolding arguments_loop
  arguments_loop-Rests f zero arguments h le = Rests-none log _
  arguments_loop-Rests zero (suc n) arguments h le = absurd (omega arith)
  arguments_loop-Rests (suc f) (suc n) arguments h le = Rests-peek log _ λ p.
      Rests-if log (is_no_exprs arguments && same p.lookahead.type TokenType.rparen)
        (Rests-pure log arguments)
        (Rests-Eats log (
          Eats-bind log (Eats-le log le eats) λ w less e.
            let again =
              Stays-Rests log
                (arguments_loop-Rests f n (push_expr arguments e) (omega arith) (omega arith))
                less in
            Stays-ask log TokenType.comma again (Stays-pure log _)))

  pub parse_dispatch_tail-Eats :
      (loc : Location) (object : MaybeExpr) (type : Option Bytes)
      → Eats log (suc k) (parse_dispatch_tail self loc object type)
  unfolding parse_dispatch_tail
  parse_dispatch_tail-Eats loc object type =
      Eats-bind log (Eats-expect log TokenType.id refl) λ w le name.
        let arguments =
          Stays-with_fuel log {w = w} (λ f. arguments_loop self f no_exprs)
            λ f less. arguments_loop-Rests f f no_exprs (omega arith) (omega arith) in
        Stays-seq log (Stays-expect log TokenType.lparen)
          (Stays-bind log arguments λ result. search stays)

  pub parse_expr_identifier-Eats : Eats log (suc k) (parse_expr_identifier self)
  unfolding parse_expr_identifier
  parse_expr_identifier-Eats = Eats-peek log _ λ p.
      Eats-if log (same p.lookahead2.type TokenType.assign)
        (Eats-bind log (Eats-expect log TokenType.id refl)
          λ w le id. search (stays, self-Stays) depth 9)
        (Eats-if log (same p.lookahead2.type TokenType.lparen)
          (parse_dispatch_tail-Eats p.lookahead.loc null none)
          (Eats-bind log (Eats-expect log TokenType.id refl) λ w le id. search stays))
