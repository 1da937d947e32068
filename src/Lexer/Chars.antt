-- ===== src/Lexer/Chars.antt =====
-- src/lexer.cpp: the state of the lexer, `consume_char`, and the character classes of <cctype> in the
-- "C" locale. `none` is EOF. What `input.get()` has not read yet is the list `input`.
use lcool.Base.{
  ℕ, ◌+◌, ◌%◌, ◌^◌, ◌++◌, ◌&&◌, ◌||◌, Bool, false, Option, none, some, [], ◌∷◌, Bytes, leb, ◌==◌,
  if◌then◌else◌,
}
use lcool.Logger.{Location}
use lcool.Lexer.Token.{Token}

pub record Lexer : Type 0 where
  pub input : Bytes
  pub loc : Location
  pub lookahead : Option ℕ

abbrev pub digit_byte : ℕ → Bool
digit_byte c = leb b'0' c && leb c b'9'

abbrev pub lower_byte : ℕ → Bool
lower_byte c = leb b'a' c && leb c b'z'

abbrev pub alpha_byte : ℕ → Bool
alpha_byte c = lower_byte c || leb b'A' c && leb c b'Z'

abbrev pub space_byte : ℕ → Bool
space_byte c = c == b' ' || leb 9 c && leb c 13

-- The tests of <cctype> are false at EOF.
abbrev pub on_char : (ℕ → Bool) → Option ℕ → Bool
on_char f none = false
on_char f (some c) = f c

-- `input.get()` at a '\r': skip the next character if it is '\n'.
unfoldable pub skip_lf : Bytes → Bytes
skip_lf [] = []
skip_lf (c ∷ cs) = if c == b'\n' then cs else c ∷ cs

-- The next character with CR and CRLF read as LF.
unfoldable pub next_char : Bytes → Option ℕ
next_char [] = none
next_char (c ∷ cs) = some (if c == b'\r' then b'\n' else c)

unfoldable pub after_char : Bytes → Bytes
unfolding skip_lf
after_char [] = []
after_char (c ∷ cs) = if c == b'\r' then skip_lf cs else cs

-- `line` and `column` are `uint32_t`.
unfoldable pub advance : Option ℕ → Location → Location
advance none loc = loc
advance (some c) loc =
    if c == b'\n'
    then record loc { line = (loc.line + 1) % 2 ^ 32; column = 1 }
    else record loc { column = (loc.column + 1) % 2 ^ 32 }

-- `consume_char()`; the value that it returns is the lookahead of the state before.
unfoldable pub consume_char : Lexer → Lexer
unfolding next_char after_char advance
consume_char l = record {
  input = after_char l.input;
  loc = advance l.lookahead l.loc;
  lookahead = next_char l.input;
}

-- The constructor.
unfoldable pub new_lexer : Bytes → Bytes → Lexer
unfolding consume_char
new_lexer input filename = consume_char (record {
  input = input;
  loc = record { filename = filename; line = 1; column = 1 };
  lookahead = none;
})

-- A lexer with the token that it is reading.
pub record Scan : Type 0 where
  pub lexer : Lexer
  pub into : Token

unfoldable pub append_char : Option ℕ → Bytes → Bytes
append_char none value = value
append_char (some c) value = value ++ c ∷ []

-- `consume_char(token&)`
unfoldable pub consume_into : Scan → Scan
unfolding consume_char append_char
consume_into s = record {
  lexer = consume_char s.lexer;
  into = record (s.into) { value = append_char s.lexer.lookahead s.into.value };
}
