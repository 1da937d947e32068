-- ===== src/Parser/Returns.antt =====
-- `lcool::parse` (src/parser.cpp) returns on every input.
use lcool.Base.{
  ℕ, zero, suc, ◌≤◌, ◌≡◌, ◌⊎◌, inl, inr, refl, Bool, true, false, Option, none, some, [], ◌∷◌, ◌++◌,
  ◌&&◌, Bytes, arith,
}
use lcool.Logger.{Location, Logger, error_at}
use lcool.Lexer.Token.{TokenType, Token, same}
use lcool.Lexer.Chars.{new_lexer}
use lcool.Lexer.Scan.{blank}
use lcool.Lexer.Lexeme.{new_lexer_start}
use lcool.Ast.{Class, Program}
use lcool.Parser.Monad.{Parser, Outcome, done, threw, starved, ◌>>◌, consume, weight, new_parser}
use lcool.Parser.Rules.{
  Below, below, raised, Stays, Eats, Stays-bind, Stays-seq, Stays-pure, Stays-expect,
  Stays-optional, Stays-ask, Stays-consume,
}
use lcool.Parser.Strict.{
  Rests, Eats-expect, Eats-bind, Eats-peek, Eats-if, Stays-Eats, Stays-Rests, Rests-Eats,
  Rests-pure, Rests-none, Rests-peek, Rests-if, Stays-with_fuel,
}
use lcool.Parser.Total.{parse_attribute-Eats}
use lcool.Parser.Ends.{parse_expr-Eats}
use lcool.Parser.Expr.{parse_expr}
use lcool.Parser.Top.{
  Params, is_empty, params_loop, parse_method, parse_feature, features_loop, parse_parent,
  parse_class, classes_loop, parse_program, start_with, report, parse,
}

ruleset stays = (Stays-bind, Stays-seq, Stays-pure, Stays-expect, Stays-optional)

module _ (log : Logger) where
  parse_expr-Stays : (w : ℕ) → Stays log w parse_expr
  parse_expr-Stays w = Stays-Eats log (parse_expr-Eats log w) (omega arith)

  params_loop-Rests : (f n : ℕ) (params : Params) → n ≤ f → Rests log n (params_loop f params)
  unfolding params_loop
  params_loop-Rests f zero params h = Rests-none log _
  params_loop-Rests zero (suc n) params h = absurd (omega arith)
  params_loop-Rests (suc f) (suc n) params h = Rests-peek log _ λ p.
      Rests-if log (is_empty params && same p.lookahead.type TokenType.rparen)
        (Rests-pure log params)
        (Rests-Eats log (
          Eats-bind log (Eats-expect log TokenType.id refl) λ w less name.
            let again =
              λ (more : Params). Stays-Rests log (params_loop-Rests f n more (omega arith)) less in
            Stays-seq log (Stays-expect log TokenType.colon) (
              Stays-bind log (Stays-expect log TokenType.type)
                λ type. Stays-ask log TokenType.comma (again _) (Stays-pure log _))))

  parse_method-Eats : (k : ℕ) → Eats log (suc k) parse_method
  unfolding parse_method
  parse_method-Eats k = Eats-bind log (Eats-expect log TokenType.id refl) λ w le name.
      let params =
        Stays-with_fuel log {w = w} (λ f. params_loop f [])
          λ f less. params_loop-Rests f f [] (omega arith) in
      Stays-seq log (Stays-expect log TokenType.lparen)
        (Stays-bind log params λ result. search (stays, parse_expr-Stays) depth 15)

  parse_feature-Eats : (k : ℕ) (cls : Class) → Eats log (suc k) (parse_feature cls)
  unfolding parse_feature
  parse_feature-Eats k cls = Eats-peek log _ λ p.
      Eats-if log (same p.lookahead2.type TokenType.lparen)
        (Eats-bind log (parse_method-Eats k) λ w le m. Stays-pure log _)
        (Eats-bind log (parse_attribute-Eats log parse_expr k (parse_expr-Eats log k))
          λ w le a. Stays-pure log _)

  features_loop-Rests : (f n : ℕ) (cls : Class) → n ≤ f → Rests log n (features_loop f cls)
  unfolding features_loop
  features_loop-Rests f zero cls h = Rests-none log _
  features_loop-Rests zero (suc n) cls h = absurd (omega arith)
  features_loop-Rests (suc f) (suc n) cls h = Rests-peek log _ λ p.
      Rests-if log (same p.lookahead.type TokenType.id)
        (Rests-Eats log (
          Eats-bind log (parse_feature-Eats n cls) λ w less cls'.
            Stays-seq log (Stays-expect log TokenType.semicolon)
              (Stays-Rests log (features_loop-Rests f n cls' (omega arith)) less)))
        (Rests-pure log cls)

  parse_parent-Stays : (w : ℕ) (b : Bool) → Stays log w (parse_parent b)
  unfolding parse_parent
  parse_parent-Stays w true = Stays-bind log (Stays-expect log TokenType.type) λ t. Stays-pure log _
  parse_parent-Stays w false = Stays-pure log _

  parse_class-Eats : (k : ℕ) → Eats log (suc k) parse_class
  unfolding parse_class
  parse_class-Eats k = Eats-bind log (Eats-expect log TokenType.kw_class refl) λ w le start.
      let features = λ (cls : Class).
        Stays-with_fuel log {w = w} (λ f. features_loop f cls)
          λ f less. features_loop-Rests f f cls (omega arith) in
      Stays-bind log (Stays-expect log TokenType.type) λ name.
        Stays-bind log (Stays-optional log TokenType.kw_inherits) λ inherits.
          Stays-bind log (parse_parent-Stays w inherits) λ parent.
            Stays-seq log (Stays-expect log TokenType.lbraket)
              (Stays-bind log (features _) λ result. search stays)

  classes_loop-Rests : (f n : ℕ) (result : Program) → n ≤ f → Rests log n (classes_loop f result)
  unfolding classes_loop
  classes_loop-Rests f zero result h = Rests-none log _
  classes_loop-Rests zero (suc n) result h = absurd (omega arith)
  classes_loop-Rests (suc f) (suc n) result h = Rests-peek log _ λ p.
      Rests-if log (same p.lookahead.type TokenType.kw_class)
        (Rests-Eats log (
          Eats-bind log (parse_class-Eats n) λ w less cls.
            Stays-Rests log (classes_loop-Rests f n (result ++ cls ∷ []) (omega arith)) less))
        (Rests-pure log result)

  parse_program-Stays : (w : ℕ) → Stays log w parse_program
  unfolding parse_program
  parse_program-Stays w =
      Stays-bind log
        (Stays-with_fuel log {w = w} (λ f. classes_loop f [])
          λ f less. classes_loop-Rests f f [] (omega arith))
        λ result. search stays

  new_parser-Below :
      (input filename : Bytes) → (n : ℕ) × Below log n (new_parser input filename log)
  unfolding new_parser
  new_parser-Below input filename =
      let lexer = new_lexer input filename in
      let p : Parser = record {
        log = log;
        my_lexer = lexer;
        lookahead = blank lexer.loc;
        lookahead2 = blank lexer.loc;
      } in
      let both : Stays log (suc (weight p)) (consume >> consume) =
        Stays-seq log (Stays-consume log) (Stays-consume log) in
      (
        suc (weight p),
        both.at p (record { synced = (new_lexer_start input filename).2; same_log = refl })
            (omega arith),
      )

  -- What a run that kept its fuel makes of the logger.
  abbrev Reported : Option (Program × Logger) → Type 0
  Reported none = ⊥
  Reported (some (result, log')) =
      (log' ≡ log)
      ⊎ ((result ≡ []) × ((loc : Location) × (msg : Bytes) × (log' ≡ error_at loc msg log)))

  report-Reported : {n : ℕ} (o : Outcome Program) → Below log n o → Reported (report o)
  unfolding report
  report-Reported (done result p) (below g lt) = inl g.same_log
  report-Reported (threw loc msg l) raised = inr (refl, (loc, msg, refl))
  report-Reported starved x = elim x [ ]

  start_with-Below :
      {n : ℕ} (o : Outcome Token) → Below log n o → Below log n (start_with o parse_program)
  start_with-Below {n} (done t p) (below g lt) = (parse_program-Stays n).at p g lt
  start_with-Below (threw loc msg l) raised = raised
  start_with-Below starved x = elim x [ ]

parse-Reported : (input filename : Bytes) (log : Logger) → Reported log (parse input filename log)
unfolding parse
parse-Reported input filename log =
    let (n, b) = new_parser-Below log input filename in
    report-Reported log _ (start_with-Below log _ b)

Reported-some :
    (log : Logger) (o : Option (Program × Logger))
    → Reported log o
    → (result : Program) × (log' : Logger) × (o ≡ some (result, log'))
      × ((log' ≡ log)
          ⊎ ((result ≡ []) × ((loc : Location) × (msg : Bytes) × (log' ≡ error_at loc msg log))))
Reported-some log none x = elim x [ ]
Reported-some log (some (result, log')) x = (result, log', refl, x)

-- On every input `parse` returns a program and a logger: the logger is as it was before, or the
-- program is empty and exactly one error, with its location, has been logged.
pub parse_returns :
    (input filename : Bytes) (log : Logger)
    → (result : Program) × (log' : Logger) × (parse input filename log ≡ some (result, log'))
      × ((log' ≡ log)
          ⊎ ((result ≡ []) × ((loc : Location) × (msg : Bytes) × (log' ≡ error_at loc msg log))))
parse_returns input filename log = Reported-some log _ (parse-Reported input filename log)
