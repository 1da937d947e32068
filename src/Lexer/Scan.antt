-- ===== src/Lexer/Scan.antt =====
-- src/lexer.cpp: the scanners. A loop takes as fuel one more than the characters that are left, which
-- is enough: each round but the last consumes one.
use lcool.Base.{
  ℕ, zero, suc, ◌+◌, ◌++◌, ◌&&◌, ◌||◌, Bool, true, false, not, Option, none, some, [], ◌∷◌, Bytes,
  codes, equal, is, ◌==◌, if◌then◌else◌, length,
}
use lcool.Logger.{Location}
use lcool.Lexer.Token.{
  TokenType, Token, kw_mappings, find, str_tolower, eof, comment, id, type, integer, string,
  boolean, semicolon, colon, comma, at, dot, lbraket, rbraket, lparen, rparen, plus, minus, times,
  divide, negate, less, less_equal, equals, assign, case_arrow,
}
use lcool.Lexer.Chars.{
  Lexer, Scan, consume_char, consume_into, on_char, digit_byte, lower_byte, alpha_byte, space_byte,
}
use lcool.Lexer.Result.{Result, ok, thrown, out_of_fuel, ◌>>=◌}

-- The characters that are left, the lookahead among them.
abbrev pub count_of : Option ℕ → ℕ
count_of none = 0
count_of (some c) = 1

abbrev pub pending : Lexer → ℕ
pending l = length l.input + count_of l.lookahead

unfoldable pub skip_while : (Option ℕ → Bool) → ℕ → Lexer → Lexer
skip_while test zero l = l
skip_while test (suc f) l = elim (test l.lookahead) [
  | true ↦ skip_while test f (consume_char l)
  | false ↦ l
]

unfoldable pub take_while : (Option ℕ → Bool) → ℕ → Scan → Scan
take_while test zero s = s
take_while test (suc f) s = elim (test s.lexer.lookahead) [
  | true ↦ take_while test f (consume_into s)
  | false ↦ s
]

abbrev pub set_type : TokenType → Scan → Scan
set_type t s = record s { into = record (s.into) { type = t } }

abbrev pub ident_byte : ℕ → Bool
ident_byte c = alpha_byte c || digit_byte c || c == b'_'

abbrev pub starts_lower : Bytes → Bool
starts_lower [] = false
starts_lower (c ∷ cs) = lower_byte c

-- The token type of an identifier, from the result of the search in the keyword table.
unfoldable pub pick : Option TokenType → Bytes → TokenType
unfolding equal
pick (some t) value = t
pick none value =
    if equal value (codes "true") || equal value (codes "false")
    then boolean
    else if starts_lower value
    then id
    else type

unfoldable pub classify : Bytes → TokenType
unfolding find str_tolower pick
classify value = pick (find (str_tolower value) kw_mappings) value

unfoldable pub parse_identifier : Scan → Scan
unfolding take_while classify
parse_identifier s =
    let read = take_while (on_char ident_byte) (pending s.lexer) s in
    set_type (classify read.into.value) read

unfoldable pub parse_integer : Scan → Scan
unfolding take_while
parse_integer s = set_type integer (take_while (on_char digit_byte) (pending s.lexer) s)

unfoldable pub parse_comment_single : Lexer → Lexer
unfolding skip_while
parse_comment_single l = skip_while (on_char (λ c. not (c == b'\n'))) (pending l) l

-- One round reads a character, and the character behind it if it is a backslash.
unfoldable pub string_next : ℕ → Scan → Scan
string_next c s = if c == b'\\' then consume_into s else s

unfoldable pub parse_string : ℕ → Scan → Result Scan
unfolding string_next
parse_string zero s = out_of_fuel
parse_string (suc f) s = elim s.lexer.lookahead [
  | none ↦ thrown (consume_into s).lexer.loc (codes "unexpected end of file in string")
  | some c ↦
      let more = parse_string f (string_next c (consume_into s)) in
      if c == b'\n'
      then thrown (consume_into s).lexer.loc (codes "unexpected new line in string")
      else if c == b'"'
      then ok (set_type string (consume_into s))
      else more
]

-- The nested call starts at the '*' of "(*" and so consumes it as its first character.
unfoldable pub parse_comment_multi : ℕ → Lexer → Result Lexer
parse_comment_multi zero l = out_of_fuel
parse_comment_multi (suc f) l =
    let l' = consume_char l in
    elim l.lookahead [
      | none ↦ thrown l'.loc (codes "unterminated multi-line comment")
      | some c ↦
          let more = parse_comment_multi f l' in
          let nested = parse_comment_multi f l' >>= parse_comment_multi f in
          if c == b'(' && is b'*' l'.lookahead
          then nested
          else if c == b'*' && is b')' l'.lookahead
          then ok (consume_char l')
          else more
    ]

-- The symbols of one character that start no other token.
unfoldable pub symbol : ℕ → Option TokenType
symbol c =
    if c == b';'
    then some semicolon
    else if c == b':'
    then some colon
    else if c == b','
    then some comma
    else if c == b'@'
    then some at
    else if c == b'.'
    then some dot
    else if c == b'{'
    then some lbraket
    else if c == b'}'
    then some rbraket
    else if c == b')'
    then some rparen
    else if c == b'+'
    then some plus
    else if c == b'*'
    then some times
    else if c == b'/'
    then some divide
    else if c == b'~'
    then some negate
    else none

-- `case '<'`, `case '='`, `case '-'`, `case '('`
unfoldable pub scan_less : Scan → Scan
scan_less s =
    if is b'-' s.lexer.lookahead
    then set_type assign (consume_into s)
    else if is b'=' s.lexer.lookahead
    then set_type less_equal (consume_into s)
    else set_type less s

unfoldable pub scan_equal : Scan → Scan
scan_equal s =
    if is b'>' s.lexer.lookahead then set_type case_arrow (consume_into s) else set_type equals s

unfoldable pub scan_minus : Scan → Scan
unfolding parse_comment_single
scan_minus s =
    if is b'-' s.lexer.lookahead
    then set_type comment (record s { lexer = parse_comment_single s.lexer })
    else set_type minus s

unfoldable pub scan_lparen : Scan → Result Scan
scan_lparen s =
    if is b'*' s.lexer.lookahead
    then (parse_comment_multi (suc (pending s.lexer)) s.lexer >>= λ l.
        ok (set_type comment (record s { lexer = l })))
    else ok (set_type lparen s)

-- The `default` case: identifiers, integers and characters that start no token.
unfoldable pub scan_default : ℕ → Scan → Result Scan
unfolding parse_identifier parse_integer
scan_default c s =
    if alpha_byte c
    then ok (parse_identifier s)
    else if digit_byte c
    then ok (parse_integer s)
    else thrown s.into.loc (codes "lexical error: " ++ c ∷ [])

-- The `switch` on the first character, which has been consumed into the token.
unfoldable pub scan_first : ℕ → Scan → Result Scan
unfolding symbol scan_less scan_equal scan_minus scan_lparen scan_default
scan_first c s = elim (symbol c) [
  | some t ↦ ok (set_type t s)
  | none ↦
      if c == b'<'
      then ok (scan_less s)
      else if c == b'='
      then ok (scan_equal s)
      else if c == b'-'
      then ok (scan_minus s)
      else if c == b'('
      then scan_lparen s
      else if c == b'"'
      then parse_string (suc (pending s.lexer)) s
      else scan_default c s
]

-- `isspace`
abbrev pub skip_space : Lexer → Lexer
skip_space l = skip_while (on_char space_byte) (pending l) l

-- A token with no type yet has `eof` here; every path gives it one before it is read.
abbrev pub blank : Location → Token
blank loc = record { loc = loc; type = eof; value = [] }

-- Behind the white space.
unfoldable pub scan_here : Lexer → Result Scan
unfolding scan_first
scan_here l =
    let s : Scan = record { lexer = l; into = blank l.loc } in
    elim l.lookahead [
      | none ↦ ok (set_type eof (consume_into s))
      | some c ↦ scan_first c (consume_into s)
    ]

unfoldable pub scan_token_all : Lexer → Result Scan
unfolding skip_while scan_here
scan_token_all l = scan_here (skip_space l)

-- `while (result.type == token_type::comment)`
unfoldable pub discard : TokenType → Scan → Result Scan → Result Scan
discard comment s more = more
discard t s more = ok s

unfoldable pub scan_loop : ℕ → Lexer → Result Scan
unfolding discard
scan_loop zero l = out_of_fuel
scan_loop (suc f) l =
    scan_token_all l >>= λ s. let more = scan_loop f s.lexer in discard s.into.type s more

unfoldable pub scan_token : Lexer → Result Scan
unfolding scan_loop
scan_token l = scan_loop (suc (pending l)) l
