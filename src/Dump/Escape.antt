-- ===== src/Dump/Escape.antt =====
-- A string constant as src/parser_dump.cpp prints it is read back by the lexer (src/lexer.cpp) as one
-- token, and by `parse_string` (src/parser.cpp) as the constant it was.
use lcool.Base.{
  ℕ, zero, suc, ◌<◌, ◌≡◌, ◌⊎◌, inl, inr, refl, sym, ap, subst, ◌∙◌, ◌++◌, false, Option, none, some,
  [], ◌∷◌, Bytes, ◌==◌, tail, get_or, append_assoc, append-nil, arith,
}
use lcool.Lexer.Token.{string}
use lcool.Lexer.Chars.{Lexer, Scan, consume_into}
use lcool.Lexer.Result.{ok}
use lcool.Lexer.Stream.{text, text_of, IsSynced}
use lcool.Lexer.Scan.{pending, set_type, string_next, parse_string, scan_token, scan_first, blank}
use lcool.Lexer.Forward.{scan_token_all-first, scan_token-of}
use lcool.Lexer.Consumes.{Appends, Appends-consume_into, Appends-trans}
use lcool.Parser.Literals.{string_loop}
use lcool.Dump.{escape_char, escape}

string_loop-escape_char :
    (c : ℕ) (acc rest : Bytes)
    → string_loop false acc (escape_char c ++ rest) ≡ string_loop false (acc ++ c ∷ []) rest
unfolding string_loop escape_char
string_loop-escape_char c acc rest = ground arith

string_loop-escape :
    (v acc rest : Bytes)
    → string_loop false acc (escape v ++ rest) ≡ string_loop false (acc ++ v) rest
unfolding escape
string_loop-escape [] acc rest = rw append-nil
string_loop-escape (c ∷ cs) acc rest = rw (append_assoc (escape_char c) (escape cs) rest) (
    string_loop-escape_char c acc (escape cs ++ rest)
    ∙ string_loop-escape cs (acc ++ c ∷ []) rest
    ∙ rw (append_assoc acc (c ∷ []) cs))

-- The value of a dumped constant, between its quotes, is the constant.
pub string_loop-quoted : (v : Bytes) → string_loop false [] (b'"' ∷ (escape v ++ b'"' ∷ [])) ≡ v
unfolding string_loop
string_loop-quoted v = string_loop-escape v [] (b'"' ∷ [])

text-head : (l : Lexer) (c : ℕ) (cs : Bytes) → text l ≡ c ∷ cs → l.lookahead ≡ some c
unfolding text
text-head l c cs h = go l.lookahead h
  where
    go : (o : Option ℕ) → text_of o l.input ≡ c ∷ cs → o ≡ some c
    go none e = cc
    go (some d) e = cc

-- One character of the text, consumed into the token.
pub eat :
    (s : Scan) (c : ℕ) (cs : Bytes)
    → text s.lexer ≡ c ∷ cs
    → (s.lexer.lookahead ≡ some c)
      × Appends s (c ∷ []) (consume_into s)
      × (text (consume_into s).lexer ≡ cs)
eat s c cs h =
    let e = text-head s.lexer c cs h in
    let a = Appends-consume_into s c e in (e, a, ap tail (sym a.reads.splits ∙ h))

-- What `escape` makes of a character: the character, if the scanner takes it as it is, or a backslash
-- and one other.
escape_char-cases :
    (c : ℕ)
    → ((escape_char c ≡ c ∷ [])
        × ((c == b'\\') ≡ false)
        × ((c == b'\n') ≡ false)
        × ((c == b'"') ≡ false))
      ⊎ (escape_char c ≡ b'\\' ∷ get_or (escape_char c) 1 0 ∷ [])
unfolding escape_char
escape_char-cases c = ground arith

parse_string-plain :
    (f : ℕ) (s : Scan) (c : ℕ)
    → s.lexer.lookahead ≡ some c
    → (c == b'\\') ≡ false
    → (c == b'\n') ≡ false
    → (c == b'"') ≡ false
    → parse_string (suc f) s ≡ parse_string f (consume_into s)
unfolding parse_string string_next
parse_string-plain f s c e h₁ h₂ h₃ = ground arith

parse_string-escaped :
    (f : ℕ) (s : Scan)
    → s.lexer.lookahead ≡ some b'\\'
    → parse_string (suc f) s ≡ parse_string f (consume_into (consume_into s))
unfolding parse_string string_next
parse_string-escaped f s e = ground arith

parse_string-quote :
    (f : ℕ) (s : Scan)
    → s.lexer.lookahead ≡ some b'"'
    → parse_string (suc f) s ≡ ok (set_type string (consume_into s))
unfolding parse_string
parse_string-quote f s e = ground arith

-- `parse_string` reads `cs` off the text and leaves `rest`.
pub record StringRead (f : ℕ) (s : Scan) (cs rest : Bytes) : Type 0 where
  pub result : Scan
  pub returns : parse_string f s ≡ ok result
  pub appended : Appends s cs result
  pub type : result.into.type ≡ string
  pub left : text result.lexer ≡ rest

read_more :
    (f g : ℕ) (s t : Scan) (xs ys rest : Bytes)
    → parse_string f s ≡ parse_string g t
    → Appends s xs t
    → StringRead g t ys rest
    → StringRead f s (xs ++ ys) rest
read_more f g s t xs ys rest e a r = record {
  result = r.result;
  returns = e ∙ r.returns;
  appended = Appends-trans s t r.result xs ys a r.appended;
  type = r.type;
  left = r.left;
}

abbrev quote : Bytes
quote = b'"' ∷ []

-- One character of the constant, with the rest read by `more`.
string_step :
    (c : ℕ) (cs rest : Bytes) (f : ℕ) (s : Scan)
    → text s.lexer ≡ escape_char c ++ (escape cs ++ b'"' ∷ rest)
    → pending s.lexer < suc f
    → ((t : Scan)
        → text t.lexer ≡ escape cs ++ b'"' ∷ rest
        → pending t.lexer < f
        → StringRead f t (escape cs ++ quote) rest)
    → StringRead (suc f) s (escape_char c ++ (escape cs ++ quote)) rest
string_step c cs rest f s h lt more = elim (escape_char-cases c) [
  | inl (e, h₁, h₂, h₃) ↦
      let (look, a, left) = eat s c _ (h ∙ ap (λ x. x ++ (escape cs ++ b'"' ∷ rest)) e) in
      rw e (
        read_more (suc f) f s (consume_into s) (c ∷ []) (escape cs ++ quote) rest
          (parse_string-plain f s c look h₁ h₂ h₃) a
          (more (consume_into s) left (omega (arith, a.reads.spent))))
  | inr e ↦
      let x = get_or (escape_char c) 1 0 in
      let s₁ = consume_into s in
      let (look, a, left) = eat s b'\\' _ (h ∙ ap (λ x. x ++ (escape cs ++ b'"' ∷ rest)) e) in
      let (_, b, left') = eat s₁ x _ left in
      let both = Appends-trans s s₁ (consume_into s₁) (b'\\' ∷ []) (x ∷ []) a b in
      subst (λ z. StringRead (suc f) s (z ++ (escape cs ++ quote)) rest) (sym e)
        (read_more (suc f) f s (consume_into s₁) (b'\\' ∷ x ∷ []) (escape cs ++ quote) rest
          (parse_string-escaped f s look) both
          (more (consume_into s₁) left' (omega (arith, both.reads.spent))))
]

-- On a text that begins with a dumped constant `parse_string` reads just that constant.
pub parse_string-escape :
    (v rest : Bytes) (f : ℕ) (s : Scan)
    → text s.lexer ≡ escape v ++ b'"' ∷ rest
    → pending s.lexer < f
    → StringRead f s (escape v ++ quote) rest
unfolding escape
parse_string-escape v rest zero s h lt = absurd (omega arith)
parse_string-escape [] rest (suc f) s h lt =
    let (e, a, left) = eat s b'"' rest h in
    record {
      result = set_type string (consume_into s);
      returns = parse_string-quote f s e;
      appended = record { reads = a.reads; value = a.value; loc = a.loc };
      type = refl;
      left = left;
    }
parse_string-escape (c ∷ cs) rest (suc f) s h lt =
    rw (append_assoc (escape_char c) (escape cs) quote) (
      string_step c cs rest f s (h ∙ append_assoc (escape_char c) (escape cs) (b'"' ∷ rest)) lt
        λ t e less. parse_string-escape cs rest f t e less)

scan_first-quote : (s : Scan) → scan_first b'"' s ≡ parse_string (suc (pending s.lexer)) s
unfolding scan_first
scan_first-quote s = refl

-- A lexer whose text begins with a quoted constant scans it as one string token.
pub record ScansString (l : Lexer) (v rest : Bytes) : Type 0 where
  pub result : Scan
  pub returns : scan_token l ≡ ok result
  pub type : result.into.type ≡ string
  pub value : string_loop false [] result.into.value ≡ v
  pub left : text result.lexer ≡ rest

-- If the text of a lexer starts with a quoted string, escaped as `dump_ast` prints it, then
-- `scan_token` returns one string token that ends at the closing quote, whatever follows, and the loop
-- of `parse_string` reads the string back from the token's value. The lexer's input is used up when it
-- has no lookahead.
pub scan_token-escape :
    (l : Lexer) (v rest : Bytes)
    → IsSynced l
    → text l ≡ b'"' ∷ (escape v ++ b'"' ∷ rest)
    → ScansString l v rest
scan_token-escape l v rest h e =
    let first : Scan = record { lexer = l; into = blank l.loc } in
    let (look, a, left) = eat first b'"' (escape v ++ b'"' ∷ rest) e in
    let read =
      parse_string-escape v rest (suc (pending (consume_into first).lexer)) (consume_into first)
        left (omega arith) in
    let all = scan_token_all-first l b'"' look refl ∙ scan_first-quote (consume_into first) in
    record {
      result = read.result;
      returns = scan_token-of l read.result (all ∙ read.returns) (rw read.type (cc));
      type = read.type;
      value = rw (read.appended.value, a.value) (string_loop-quoted v);
      left = read.left;
    }
