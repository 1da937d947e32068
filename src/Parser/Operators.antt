-- ===== src/Parser/Operators.antt =====
-- The operator loops of src/parser.cpp end, on any input.
use lcool.Base.{ℕ, zero, suc, ◌≤◌, ◌≡◌, refl, Option, none, some, arith}
use lcool.Logger.{Logger}
use lcool.Lexer.Token.{TokenType, eof}
use lcool.Ast.{UnaryType, BinaryType, Expr}
use lcool.Parser.Monad.{Parser, M, ◌>>=◌, peek, consume, count, weight, with_fuel}
use lcool.Parser.Rules.{Below, Eats, Below-le, Below-seq, Stays-bind}
use lcool.Parser.Strict.{
  Rests, Eats-bind, Eats-consume, Stays-Eats, Stays-Rests, Rests-pure, Rests-none, Stays-with_fuel,
}
use lcool.Parser.Expr.{compare_op, add_op, mult_op, unary_op, binary_loop}

pub compare_op-count : (t : TokenType) (op : BinaryType) → compare_op t ≡ some op → count t ≡ 1
unfolding compare_op
compare_op-count eof op h = cc
compare_op-count _ op h = refl

pub add_op-count : (t : TokenType) (op : BinaryType) → add_op t ≡ some op → count t ≡ 1
unfolding add_op
add_op-count eof op h = cc
add_op-count _ op h = refl

pub mult_op-count : (t : TokenType) (op : BinaryType) → mult_op t ≡ some op → count t ≡ 1
unfolding mult_op
mult_op-count eof op h = cc
mult_op-count _ op h = refl

pub unary_op-count : (t : TokenType) (op : UnaryType) → unary_op t ≡ some op → count t ≡ 1
unfolding unary_op
unary_op-count eof op h = cc
unary_op-count _ op h = refl

module _ (log : Logger) where
  -- Read a token and go on, if the lookahead is an operator; else do `m`.
  pub Below-operator :
      {A B : Type 0} {n : ℕ} (o : Option B) (m : M A) (f : B → M A) (p : Parser)
      → (o ≡ none → Below log n (m p))
      → ((b : B) → o ≡ some b → Below log n (f b p))
      → Below log n ((elim o as (λ _. M A) [ none ↦ m | some b ↦ f b ]) p)
  Below-operator none m f p hm hf = hm refl
  Below-operator (some b) m f p hm hf = hf b refl

  binary_loop-Rests :
      (ops : TokenType → Option BinaryType) (operand : M Expr) (k : ℕ)
      → ((t : TokenType) (op : BinaryType) → ops t ≡ some op → count t ≡ 1)
      → Eats log (suc k) operand
      → (f n : ℕ) (left : Expr) → n ≤ f
      → n ≤ suc k
      → Rests log n (binary_loop ops operand f left)
  unfolding binary_loop peek
  binary_loop-Rests ops operand k one eats f zero left h le = Rests-none log _
  binary_loop-Rests ops operand k one eats zero (suc n) left h le = absurd (omega arith)
  binary_loop-Rests ops operand k one eats (suc f) (suc n) left h le = record {
    at = λ p g lt.
        Below-operator (ops p.lookahead.type) _ _ p
          (λ _. (Rests-pure log {k = suc n} left).at p g lt)
          λ op e.
            let first = Eats-consume log p g (one p.lookahead.type op e) in
            let again = λ (l : Expr).
              Stays-Rests log {w = weight p}
                (binary_loop-Rests ops operand k one eats f n l (omega arith) (omega arith))
                (omega arith) in
            Below-le log {m = weight p} (omega arith) (
              Below-seq log consume _ p first
                (Stays-bind log (Stays-Eats log eats (omega arith)) λ right. again _).at);
  }

  pub binary-Eats :
      (ops : TokenType → Option BinaryType) (operand : M Expr) (k : ℕ)
      → ((t : TokenType) (op : BinaryType) → ops t ≡ some op → count t ≡ 1)
      → Eats log (suc k) operand
      → Eats log (suc k) (operand >>= λ left. with_fuel (λ f. binary_loop ops operand f left))
  binary-Eats ops operand k one eats = Eats-bind log eats λ w le left.
      Stays-with_fuel log {w = w} (λ f. binary_loop ops operand f left)
        λ f less. binary_loop-Rests ops operand k one eats f f left (omega arith) (omega arith)
