-- ===== src/Parser/Monad.antt =====
-- src/parser.cpp: the state of the parser, and its actions on tokens. An action throws a
-- `parse_error` or returns a value and the next state; what was logged before a throw is kept.
use lcool.Base.{ℕ, suc, ◌+◌, Bool, true, false, Bytes, codes, if◌then◌else◌}
use lcool.Logger.{Location, Logger}
use lcool.Lexer.Token.{TokenType, Token, same, eof}
use lcool.Lexer.Chars.{Lexer, Scan, new_lexer}
use lcool.Lexer.Result.{Result, ok, thrown, out_of_fuel}
use lcool.Lexer.Scan.{scan_token, blank, pending}

pub record Parser : Type 0 where
  pub log : Logger
  pub my_lexer : Lexer
  pub lookahead : Token
  pub lookahead2 : Token

-- `starved` has no counterpart in the program: Parser.Total proves that it never shows.
pub data Outcome (A : Type 0) : Type 0 where
  done : A → Parser → Outcome A
  threw : Location → Bytes → Logger → Outcome A
  starved : Outcome A

abbrev pub M : Type 0 → Type 0
M A = Parser → Outcome A

infixl 5 ◌>>=◌ ◌>>◌
unfoldable pub ◌>>=◌ : {A B : Type 0} → M A → (A → M B) → M B
◌>>=◌ m f p = elim (m p) [
  | done a q ↦ f a q
  | threw loc msg log ↦ threw loc msg log
  | starved ↦ starved
]

unfoldable pub ◌>>◌ : {A B : Type 0} → M A → M B → M B
unfolding ◌>>=◌
m >> k = m >>= λ _. k

unfoldable pub pure : {A : Type 0} → A → M A
pure a p = done a p

-- An action that may look at the state first.
unfoldable pub peek : {A : Type 0} → (Parser → M A) → M A
peek f p = f p p

abbrev pub after_scan : Parser → Result Scan → Outcome Token
after_scan p (ok s) =
    done p.lookahead
      (record p { my_lexer = s.lexer; lookahead = p.lookahead2; lookahead2 = s.into })
after_scan p (thrown loc msg) = threw loc msg p.log
after_scan p out_of_fuel = starved

-- `consume()`
unfoldable pub consume : M Token
consume p = after_scan p (scan_token p.my_lexer)

unfoldable pub syntax_error : {A : Type 0} → M A
syntax_error p = threw p.lookahead.loc (codes "syntax error") p.log

-- `consume(token_type)`
unfoldable pub expect : TokenType → M Token
expect t p = if same p.lookahead.type t then consume p else syntax_error p

-- `optional(token_type)`
unfoldable pub optional : TokenType → M Bool
optional t p = if same p.lookahead.type t then (do consume; pure true) p else done false p

-- The tokens and characters that are left: a bound on what the loops can still consume.
abbrev pub count : TokenType → ℕ
count eof = 0
count _ = 1

unfoldable pub weight : Parser → ℕ
weight p = count p.lookahead.type + count p.lookahead2.type + pending p.my_lexer

-- A loop run with more fuel than there is input.
unfoldable pub with_fuel : {A : Type 0} → (ℕ → M A) → M A
with_fuel loop p = loop (suc (weight p)) p

-- The constructor. The two tokens have no value before they are scanned.
unfoldable pub new_parser : Bytes → Bytes → Logger → Outcome Token
new_parser input filename log =
    let lexer = new_lexer input filename in
    (do consume; consume)
      (record {
        log = log;
        my_lexer = lexer;
        lookahead = blank lexer.loc;
        lookahead2 = blank lexer.loc;
      })

unfoldable pub starve : {A : Type 0} → M A
starve p = starved
