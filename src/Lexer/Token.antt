-- ===== src/Lexer/Token.antt =====
-- src/lexer.hpp: token types and tokens; src/lexer.cpp: the keyword table and `str_tolower`.
use lcool.Base.{
  ℕ, ◌+◌, ◌≡◌, refl, sym, ap, ◌∙◌, ◌&&◌, Bool, true, List, [], ◌∷◌, map, Bytes, codes, Option, none,
  some, equal, leb, ◌==◌, ==_iff, if◌then◌else◌, get_or, arith,
}
use lcool.Logger.{Location}

pub data TokenType : Type 0 where
  eof comment : TokenType
  id type integer string boolean : TokenType
  semicolon colon comma at dot lbraket rbraket lparen rparen plus minus times divide : TokenType
  negate less less_equal equals assign case_arrow : TokenType
  kw_case kw_class kw_else kw_esac kw_fi kw_if kw_in kw_inherits kw_isvoid kw_let kw_loop :
      TokenType
  kw_new kw_not kw_of kw_pool kw_then kw_while : TokenType

-- The number of an enumerator, by which two of them are compared.
unfoldable pub ordinal : TokenType → ℕ
ordinal eof = 0
ordinal comment = 1
ordinal id = 2
ordinal type = 3
ordinal integer = 4
ordinal string = 5
ordinal boolean = 6
ordinal semicolon = 7
ordinal colon = 8
ordinal comma = 9
ordinal at = 10
ordinal dot = 11
ordinal lbraket = 12
ordinal rbraket = 13
ordinal lparen = 14
ordinal rparen = 15
ordinal plus = 16
ordinal minus = 17
ordinal times = 18
ordinal divide = 19
ordinal negate = 20
ordinal less = 21
ordinal less_equal = 22
ordinal equals = 23
ordinal assign = 24
ordinal case_arrow = 25
ordinal kw_case = 26
ordinal kw_class = 27
ordinal kw_else = 28
ordinal kw_esac = 29
ordinal kw_fi = 30
ordinal kw_if = 31
ordinal kw_in = 32
ordinal kw_inherits = 33
ordinal kw_isvoid = 34
ordinal kw_let = 35
ordinal kw_loop = 36
ordinal kw_new = 37
ordinal kw_not = 38
ordinal kw_of = 39
ordinal kw_pool = 40
ordinal kw_then = 41
ordinal kw_while = 42

-- `operator==` on token types.
unfoldable pub same : TokenType → TokenType → Bool
unfolding ordinal
same s t = ordinal s == ordinal t

all_types : List TokenType
all_types =
    eof ∷ comment ∷ id ∷ type ∷ integer ∷ string ∷ boolean ∷ semicolon ∷ colon ∷ comma ∷ at ∷ dot
    ∷ lbraket ∷ rbraket ∷ lparen ∷ rparen ∷ plus ∷ minus ∷ times ∷ divide ∷ negate ∷ less
    ∷ less_equal ∷ equals ∷ assign ∷ case_arrow ∷ kw_case ∷ kw_class ∷ kw_else ∷ kw_esac ∷ kw_fi
    ∷ kw_if ∷ kw_in ∷ kw_inherits ∷ kw_isvoid ∷ kw_let ∷ kw_loop ∷ kw_new ∷ kw_not ∷ kw_of ∷ kw_pool
    ∷ kw_then ∷ kw_while ∷ []

get_or-ordinal : (t : TokenType) → get_or all_types (ordinal t) eof ≡ t
unfolding ordinal all_types
get_or-ordinal eof = refl
get_or-ordinal _ = refl

pub same→eq : (s t : TokenType) → same s t ≡ true → s ≡ t
unfolding same
same→eq s t h =
    sym (get_or-ordinal s)
    ∙ ap (λ n. get_or all_types n eof) ((==_iff (ordinal s) (ordinal t)).0 h)
    ∙ get_or-ordinal t

pub same_refl : (t : TokenType) → same t t ≡ true
unfolding same
same_refl t = ground arith

pub record Token : Type 0 where
  pub loc : Location
  pub type : TokenType
  pub value : Bytes

-- `kw_mappings`
abbrev pub kw_mappings : List (Bytes × TokenType)
kw_mappings =
    (codes "case", kw_case)
    ∷ (codes "class", kw_class)
    ∷ (codes "else", kw_else)
    ∷ (codes "esac", kw_esac)
    ∷ (codes "fi", kw_fi)
    ∷ (codes "if", kw_if)
    ∷ (codes "in", kw_in)
    ∷ (codes "inherits", kw_inherits)
    ∷ (codes "isvoid", kw_isvoid)
    ∷ (codes "let", kw_let)
    ∷ (codes "loop", kw_loop)
    ∷ (codes "new", kw_new)
    ∷ (codes "not", kw_not)
    ∷ (codes "of", kw_of)
    ∷ (codes "pool", kw_pool)
    ∷ (codes "then", kw_then)
    ∷ (codes "while", kw_while)
    ∷ []

-- `std::map::find`
unfoldable pub find : Bytes → List (Bytes × TokenType) → Option TokenType
unfolding equal
find key [] = none
find key ((k, t) ∷ rest) = if equal k key then some t else find key rest

-- `std::tolower` in the "C" locale, on a byte.
unfoldable pub tolower : ℕ → ℕ
tolower c = if leb b'A' c && leb c b'Z' then c + 32 else c

unfoldable pub str_tolower : Bytes → Bytes
unfolding tolower
str_tolower str = map tolower str
