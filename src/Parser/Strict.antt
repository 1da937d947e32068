-- ===== src/Parser/Strict.antt =====
-- More rules on the parser's actions (src/parser.cpp): actions that consume something before they
-- call back, and the loops, which therefore end within their fuel.
use lcool.Base.{
  ℕ, suc, ◌≤◌, ◌<◌, ◌≡◌, ap, Bool, true, false, if◌then◌else◌, Bool-cases, inl, inr, arith,
}
use lcool.Logger.{Logger}
use lcool.Lexer.Token.{TokenType, same, same→eq}
use lcool.Parser.Monad.{
  Parser, M, ◌>>=◌, ◌>>◌, pure, peek, consume, syntax_error, expect, count, weight, with_fuel,
}
use lcool.Parser.Rules.{
  IsGood, Below, below, raised, Stays, Eats, Below-le, Below-bind, consume-Below,
}

module _ (log : Logger) where
  -- From less than `k` the action adds nothing to what is left.
  pub record Rests {A : Type 0} (k : ℕ) (m : M A) : Type 0 where
    pub at : (p : Parser) → IsGood log p → weight p < k → Below log (suc (weight p)) (m p)

  -- A token that is not `eof` is consumed for good.
  pub Eats-expect : {k : ℕ} (t : TokenType) → count t ≡ 1 → Eats log k (expect t)
  unfolding expect
  Eats-expect t one = record {
    at = λ p g lt. elim (Bool-cases (same p.lookahead.type t)) [
      | inl e ↦ rw e (
          consume-Below log p (weight p) g (omega (arith, ap count (same→eq p.lookahead.type t e))))
      | inr e ↦ rw e (unfold syntax_error in rw g.same_log raised)
    ];
  }

  pub Eats-consume :
      (p : Parser) → IsGood log p → count p.lookahead.type ≡ 1 → Below log (weight p) (consume p)
  Eats-consume p g one = consume-Below log p (weight p) g (omega arith)

  pub Eats-le : {A : Type 0} {j k : ℕ} {m : M A} → j ≤ k → Eats log k m → Eats log j m
  Eats-le le e = record { at = λ p g lt. e.at p g (omega arith) }

  -- What follows a strict action starts below the weight that the action started from.
  pub Eats-bind :
      {A B : Type 0} {k : ℕ} {m : M A} {f : A → M B}
      → Eats log (suc k) m
      → ((w : ℕ) → w ≤ k → (a : A) → Stays log w (f a))
      → Eats log (suc k) (m >>= f)
  Eats-bind {m} {f} em sf = record {
    at =
        λ p g lt. Below-bind log m f p (em.at p g lt) (λ a q. (sf (weight p) (omega arith) a).at q);
  }

  pub Eats-seq :
      {A B : Type 0} {k : ℕ} {m : M A} {n : M B}
      → Eats log (suc k) m
      → ((w : ℕ) → w ≤ k → Stays log w n)
      → Eats log (suc k) (m >> n)
  unfolding ◌>>◌
  Eats-seq em sn = Eats-bind em (λ w le _. sn w le)

  pub Eats-peek :
      {A : Type 0} {k : ℕ} (f : Parser → M A)
      → ((p : Parser) → Eats log k (f p))
      → Eats log k (peek f)
  unfolding peek
  Eats-peek f e = record { at = λ p g lt. (e p).at p g lt }

  pub Eats-if :
      {A : Type 0} {k : ℕ} (b : Bool) {m n : M A}
      → Eats log k m
      → Eats log k n
      → Eats log k (if b then m else n)
  Eats-if true em en = em
  Eats-if false em en = en

  pub Eats-syntax_error : {A : Type 0} {k : ℕ} → Eats log k (syntax_error {A = A})
  unfolding syntax_error
  Eats-syntax_error = record { at = λ p g lt. rw g.same_log raised }

  pub Stays-Eats : {A : Type 0} {w k : ℕ} {m : M A} → Eats log k m → w ≤ k → Stays log w m
  Stays-Eats e le = record { at = λ p g lt. Below-le log (omega arith) (e.at p g (omega arith)) }

  pub Stays-Rests : {A : Type 0} {w k : ℕ} {m : M A} → Rests k m → w ≤ k → Stays log w m
  Stays-Rests e le = record { at = λ p g lt. Below-le log (omega arith) (e.at p g (omega arith)) }

  pub Rests-Eats : {A : Type 0} {k : ℕ} {m : M A} → Eats log k m → Rests k m
  Rests-Eats e = record { at = λ p g lt. Below-le log (omega arith) (e.at p g lt) }

  pub Rests-pure : {A : Type 0} {k : ℕ} (a : A) → Rests k (pure a)
  unfolding pure
  Rests-pure a = record { at = λ p g lt. below g (omega arith) }

  pub Rests-none : {A : Type 0} (m : M A) → Rests 0 m
  Rests-none m = record { at = λ p g lt. elim lt [ ] }

  pub Rests-peek :
      {A : Type 0} {k : ℕ} (f : Parser → M A) → ((p : Parser) → Rests k (f p)) → Rests k (peek f)
  unfolding peek
  Rests-peek f e = record { at = λ p g lt. (e p).at p g lt }

  pub Rests-if :
      {A : Type 0} {k : ℕ} (b : Bool) {m n : M A}
      → Rests k m
      → Rests k n
      → Rests k (if b then m else n)
  Rests-if true em en = em
  Rests-if false em en = en

  -- A loop whose every fuel is enough below that fuel is started with enough.
  pub Stays-with_fuel :
      {A : Type 0} {w : ℕ} (loop : ℕ → M A)
      → ((f : ℕ) → f ≤ w → Rests f (loop f))
      → Stays log w (with_fuel loop)
  unfolding with_fuel
  Stays-with_fuel loop r = record {
    at = λ p g lt.
        Below-le log (omega arith) ((r (suc (weight p)) (omega arith)).at p g (omega arith));
  }

  -- An action that stays below every bound adds nothing.
  pub Rests-Stays : {A : Type 0} {k : ℕ} {m : M A} → ((w : ℕ) → Stays log w m) → Rests k m
  Rests-Stays s = record { at = λ p g lt. (s (suc (weight p))).at p g (omega arith) }

  -- A strict action behind one that adds nothing.
  pub Eats-after :
      {A B : Type 0} {k : ℕ} {m : M A} {f : A → M B}
      → Rests k m
      → ((a : A) → Eats log k (f a))
      → Eats log k (m >>= f)
  Eats-after {m} {f} rm ef = record {
    at = λ p g lt.
        Below-bind log m f p (rm.at p g lt)
          λ a q g' lt'. Below-le log (omega arith) ((ef a).at q g' (omega arith));
  }

  pub Eats-none : {A : Type 0} (m : M A) → Eats log 0 m
  Eats-none m = record { at = λ p g lt. elim lt [ ] }
