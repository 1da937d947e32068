-- ===== src/Parser/Rules.antt =====
-- Postconditions of the parser's actions (src/parser.cpp): a run that does not starve, leaves less to
-- read, and logs nothing. One rule for each way to build an action.
use lcool.Base.{
  ℕ, ◌+◌, ◌≤◌, ◌<◌, ◌≡◌, inl, inr, Bool, true, false, Option, none, some, Bytes, if◌then◌else◌,
  Bool-cases, arith,
}
use lcool.Logger.{Location, Logger}
use lcool.Lexer.Token.{TokenType, same, eof}
use lcool.Lexer.Chars.{Lexer, Scan}
use lcool.Lexer.Result.{Result, Ensures, holds}
use lcool.Lexer.Result
use lcool.Lexer.Scan.{scan_token, pending}
use lcool.Lexer.Stream.{IsSynced}
use lcool.Lexer.Lexeme.{IsLexeme, scan_token-IsLexeme}
use lcool.Parser.Monad.{
  Parser, Outcome, done, threw, starved, M, ◌>>=◌, ◌>>◌, pure, peek, after_scan, consume,
  syntax_error, expect, optional, count, weight,
}

pub record IsGood (log : Logger) (p : Parser) : Type 0 where
  pub synced : IsSynced p.my_lexer
  pub same_log : p.log ≡ log

count-le : (t : TokenType) → count t ≤ 1
count-le eof = omega arith
count-le _ = omega arith

-- The token scanned and what is left behind it, against what was left before.
counted : (l : Lexer) (s : Scan) → IsLexeme l s → count s.into.type + pending s.lexer ≤ pending l
counted l s z = elim z.progress [
  | inl e ↦ rw e (omega (arith, z.no_gain))
  | inr p ↦ omega (arith, count-le s.into.type)
]

module _ (log : Logger) where
  -- The run returns with less than `n` left to read, or throws; the log is as before.
  pub data Below {A : Type 0} (n : ℕ) : Outcome A → Type 0 where
    below : {a : A} {q : Parser} → IsGood log q → weight q < n → Below n (done a q)
    raised : {loc : Location} {msg : Bytes} → Below n (threw loc msg log)

  -- From less than `w` the action stays below `w`.
  pub record Stays {A : Type 0} (w : ℕ) (m : M A) : Type 0 where
    pub at : (p : Parser) → IsGood log p → weight p < w → Below w (m p)

  -- From less than `k` the action consumes something.
  pub record Eats {A : Type 0} (k : ℕ) (m : M A) : Type 0 where
    pub at : (p : Parser) → IsGood log p → weight p < k → Below (weight p) (m p)

  pub Below-le : {A : Type 0} {m n : ℕ} {o : Outcome A} → m ≤ n → Below m o → Below n o
  Below-le le (below g lt) = below g (omega arith)
  Below-le le raised = raised

  pub Below-bind :
      {A B : Type 0} {n k : ℕ} (m : M A) (f : A → M B) (p : Parser)
      → Below n (m p)
      → ((a : A) (q : Parser) → IsGood log q → weight q < n → Below k (f a q))
      → Below k ((m >>= f) p)
  unfolding ◌>>=◌
  Below-bind {A} {B} {n} {k} m f p b next = go (m p) b
    where
      go :
          (o : Outcome A)
          → Below n o
          → Below k
              (elim o [ done a q ↦ f a q | threw loc msg l ↦ threw loc msg l | starved ↦ starved ])
      go (done a q) (below g lt) = next a q g lt
      go (threw loc msg l) raised = raised
      go starved x = elim x [ ]

  pub Below-seq :
      {A B : Type 0} {n k : ℕ} (m : M A) (f : M B) (p : Parser)
      → Below n (m p)
      → ((q : Parser) → IsGood log q → weight q < n → Below k (f q))
      → Below k ((m >> f) p)
  unfolding ◌>>◌
  Below-seq m f p b next = Below-bind m (λ _. f) p b (λ _. next)

  pub Stays-bind :
      {A B : Type 0} {w : ℕ} {m : M A} {f : A → M B}
      → Stays w m
      → ((a : A) → Stays w (f a))
      → Stays w (m >>= f)
  Stays-bind {m} {f} sm sf = record {
    at = λ p g lt. Below-bind m f p (sm.at p g lt) (λ a q. (sf a).at q);
  }

  pub Stays-seq :
      {A B : Type 0} {w : ℕ} {m : M A} {k : M B} → Stays w m → Stays w k → Stays w (m >> k)
  unfolding ◌>>◌
  Stays-seq sm sk = Stays-bind sm (λ _. sk)

  pub Stays-pure : {A : Type 0} {w : ℕ} (a : A) → Stays w (pure a)
  unfolding pure
  Stays-pure a = record { at = λ p g lt. below g lt }

  pub Stays-peek :
      {A : Type 0} {w : ℕ} (f : Parser → M A) → ((p : Parser) → Stays w (f p)) → Stays w (peek f)
  unfolding peek
  Stays-peek f s = record { at = λ p g lt. (s p).at p g lt }

  pub Stays-if :
      {A : Type 0} {w : ℕ} (b : Bool) {m n : M A}
      → Stays w m
      → Stays w n
      → Stays w (if b then m else n)
  Stays-if true sm sn = sm
  Stays-if false sm sn = sn

  pub Stays-option :
      {A B : Type 0} {w : ℕ} (o : Option B) {m : M A} {f : B → M A}
      → Stays w m
      → ((b : B) → Stays w (f b))
      → Stays w (elim o [ none ↦ m | some b ↦ f b ])
  Stays-option none sm sf = sm
  Stays-option (some b) sm sf = sf b

  pub Stays-syntax_error : {A : Type 0} {w : ℕ} → Stays w (syntax_error {A = A})
  unfolding syntax_error
  Stays-syntax_error = record { at = λ p g lt. rw g.same_log raised }

  -- Reading a token never adds to what is left, and takes from it unless the lookahead is `eof`.
  pub consume-Below :
      (p : Parser) (n : ℕ)
      → IsGood log p
      → weight p < n + count p.lookahead.type
      → Below n (consume p)
  unfolding consume weight
  consume-Below p n g lt = go (scan_token p.my_lexer) (scan_token-IsLexeme p.my_lexer g.synced)
    where
      go : (r : Result Scan) → Ensures (IsLexeme p.my_lexer) r → Below n (after_scan p r)
      go (Result.ok s) (holds z) =
          below (record { synced = z.synced; same_log = g.same_log })
            (omega (arith, counted p.my_lexer s z))
      go (Result.thrown loc msg) Result.threw = rw g.same_log raised
      go Result.out_of_fuel x = elim x [ ]

  pub Stays-consume : {w : ℕ} → Stays w consume
  Stays-consume {w} = record { at = λ p g lt. consume-Below p w g (omega arith) }

  pub Stays-expect : {w : ℕ} (t : TokenType) → Stays w (expect t)
  unfolding expect
  Stays-expect t = record {
    at = λ p g lt. elim (Bool-cases (same p.lookahead.type t)) [
      | inl e ↦ rw e (Stays-consume.at p g lt)
      | inr e ↦ rw e (Stays-syntax_error.at p g lt)
    ];
  }

  pub Stays-optional : {w : ℕ} (t : TokenType) → Stays w (optional t)
  unfolding optional
  Stays-optional {w} t = record {
    at = λ p g lt. elim (Bool-cases (same p.lookahead.type t)) [
      | inl e ↦ rw e ((Stays-seq Stays-consume (Stays-pure true)).at p g lt)
      | inr e ↦ rw e (below g lt)
    ];
  }

  -- The end of a round: go on or stop, as an optional token says.
  pub Stays-ask :
      {A : Type 0} {w : ℕ} (t : TokenType) {m n : M A}
      → Stays w m
      → Stays w n
      → Stays w (optional t >>= λ b. if b then m else n)
  Stays-ask t sm sn = Stays-bind (Stays-optional t) (λ b. Stays-if b sm sn)
