-- ===== src/Tests/Front.antt =====
-- The lexer, the parser and the printer at concrete inputs.
use lcool.Base.{suc, ◌≡◌, ◌⊎◌, ◌++◌, ◌||◌, ◌%◌, ◌^◌, false, refl, some, [], ◌∷◌, Bytes, codes}
use lcool.Logger.{Location, Logger, has_errors, error_at}
use lcool.Logger.Output.{warn, fail, calls, any_error, has_errors-calls}
use lcool.Lexer.Chars.{
  Scan, digit_byte, consume_into, consume_char, append_char, next_char, after_char, Lexer,
  new_lexer,
}
use lcool.Lexer.Stream.{IsSynced, text, normalise}
use lcool.Lexer.Result.{Ensures}
use lcool.Lexer.Token.{TokenType}
use lcool.Lexer.Scan.{
  ident_byte, parse_identifier, parse_integer, classify, take_while, pending, scan_token,
  parse_comment_multi,
}
use lcool.Lexer.Lexeme.{IsLexeme, scan_token-IsLexeme, new_lexer_start}
use lcool.Lexer.Munch.{Munches, parse_identifier-Munches, parse_integer-Munches}
use lcool.Lexer.Consumes.{Skips}
use lcool.Lexer.Comments.{comment_end, text_left, parse_comment_multi-comment_end}
use lcool.Ast.{Program}
use lcool.Parser.Literals.{integer_loop}
use lcool.Parser.Literals.Integer.{decimal_from, integer_loop-value}
use lcool.Parser.Top.{parse}
use lcool.Parser.Returns.{parse_returns}
use lcool.Dump.{escape, escape_char, dump_ast, dump_program}
use lcool.Dump.Prints.{Prints, dump_program-Prints, dump_ast-append}
use lcool.Dump.Escape.{ScansString, scan_token-escape}

abbrev file : Bytes
file = codes "a.cl"

abbrev log : Logger
log = record { stream = []; errors_printed = false }

abbrev here : Location
here = record { filename = file; line = 1; column = 1 }

abbrev source : Bytes
source = codes "class A { x : Int <- (* one (* nested *) *) 12; };"

parse_returns_example :
    (result : Program) × (log' : Logger) × (parse source file log ≡ some (result, log'))
    × ((log' ≡ log)
        ⊎ ((result ≡ []) × ((loc : Location) × (msg : Bytes) × (log' ≡ error_at loc msg log))))
parse_returns_example = parse_returns source file log

scan_token-IsLexeme_example :
    Ensures (IsLexeme (new_lexer source file)) (scan_token (new_lexer source file))
scan_token-IsLexeme_example =
    scan_token-IsLexeme (new_lexer source file) (new_lexer_start source file).2

new_lexer_start_example :
    (text (new_lexer source file) ≡ normalise false source)
    × ((new_lexer source file).loc ≡ record { filename = file; line = 1; column = 1 })
    × IsSynced (new_lexer source file)
new_lexer_start_example = new_lexer_start source file

-- A lexer at the '*' behind the '(' of a comment.
abbrev in_comment : Lexer
in_comment = record { input = codes " a (* b *) c *) d"; loc = here; lookahead = some b'*' }

parse_comment_multi-comment_end_example :
    Ensures (Skips in_comment) (parse_comment_multi (suc (pending in_comment)) in_comment)
    × (text_left (parse_comment_multi (suc (pending in_comment)) in_comment)
        ≡ comment_end false 0 (text in_comment))
parse_comment_multi-comment_end_example = parse_comment_multi-comment_end in_comment (λ e. cc e)

in_comment_left : comment_end false 0 (text in_comment) ≡ some (codes " d")
unfolding comment_end text normalise
in_comment_left = refl

-- Behind the first character of a word and of a number.
abbrev in_word : Scan
in_word = record {
  lexer = record { input = codes "lAss_1 +"; loc = here; lookahead = some b'c' };
  into = record { loc = here; type = TokenType.eof; value = [] };
}

parse_identifier-Munches_example :
    Munches ident_byte in_word (parse_identifier in_word)
    × ((parse_identifier in_word).into.type ≡ classify (parse_identifier in_word).into.value)
parse_identifier-Munches_example = parse_identifier-Munches in_word (λ e. cc e)

abbrev in_number : Scan
in_number = record in_word {
  lexer = record (in_word.lexer) { input = codes "07x"; lookahead = some b'4' };
}

parse_integer-Munches_example :
    Munches digit_byte in_number (parse_integer in_number)
    × ((parse_integer in_number).into.type ≡ TokenType.integer)
parse_integer-Munches_example = parse_integer-Munches in_number (λ e. cc e)

number_value : (parse_integer in_number).into.value ≡ codes "407"
unfolding parse_integer take_while consume_into consume_char append_char next_char after_char
number_value = refl

abbrev constant : Bytes
constant = b'a' ∷ b'"' ∷ b'\n' ∷ b'\\' ∷ []

abbrev at_constant : Lexer
at_constant = record { input = codes "a\\\"\\n\\\\\" ;"; loc = here; lookahead = some b'"' }

at_constant-text : text at_constant ≡ b'"' ∷ (escape constant ++ b'"' ∷ codes " ;")
unfolding text normalise escape escape_char
at_constant-text = refl

scan_token-escape_example : ScansString at_constant constant (codes " ;")
scan_token-escape_example =
    scan_token-escape at_constant constant (codes " ;") (λ e. cc e) at_constant-text

integer_loop-value_example :
    integer_loop here (codes "4294967338") (codes "4294967338") 0 log
    ≡ (decimal_from 0 (codes "4294967338") % 2 ^ 32, log)
integer_loop-value_example = integer_loop-value here (codes "4294967338") log refl

-- The literal 4294967338 is read as 42, and nothing is logged.
wrapped : integer_loop here (codes "4294967338") (codes "4294967338") 0 log ≡ (42, log)
unfolding integer_loop
wrapped = refl

abbrev two : Program
two =
    record {
      loc = here;
      name = codes "A";
      parent = some (codes "B");
      attributes = [];
      methods = [];
    }
    ∷ []

dump_program-Prints_example : Prints (dump_program two)
dump_program-Prints_example = dump_program-Prints two

dump_ast-append_example :
    dump_ast (codes "-") (two ++ two) ≡ codes "-" ++ (dump_ast [] two ++ dump_ast [] two)
dump_ast-append_example = dump_ast-append (codes "-") two two

has_errors-calls_example :
    has_errors (calls (warn (codes "w") ∷ fail (codes "e") ∷ []) log)
    ≡ (has_errors log || any_error (warn (codes "w") ∷ fail (codes "e") ∷ []))
has_errors-calls_example = has_errors-calls (warn (codes "w") ∷ fail (codes "e") ∷ []) log
