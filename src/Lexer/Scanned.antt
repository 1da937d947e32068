-- ===== src/Lexer/Scanned.antt =====
-- What each scanner of src/lexer.cpp does to the text and to the token.
use lcool.Base.{
  ℕ, suc, ◌≡◌, ◌≢◌, refl, ◌++◌, ◌||◌, Bool, true, false, not, List, Option, none, some, [], ◌∷◌,
  Bytes, codes, equal, is, ◌==◌, if◌then◌else◌, arith,
}
use lcool.Lexer.Token.{
  TokenType, eof, comment, integer, less, less_equal, equals, assign, case_arrow, minus, lparen,
  string, find, kw_mappings, str_tolower,
}
use lcool.Lexer.Chars.{Lexer, Scan, consume_into, on_char, alpha_byte, digit_byte}
use lcool.Lexer.Result.{
  Ensures, holds, threw, Ensures-if, Ensures-option, Ensures-bind, Ensures-map,
}
use lcool.Lexer.Stream.{IsSynced, Reads}
use lcool.Lexer.Scan.{
  pending, take_while, set_type, parse_identifier, parse_integer, classify, pick, starts_lower,
  parse_comment_single, symbol, scan_less, scan_equal, scan_minus, scan_lparen, scan_default,
  scan_first, ident_byte,
}
use lcool.Lexer.Consumes.{
  Grows, Skips, Appends-here, Grows-consume_into, skip_while-Skips, take_while-Appends,
  parse_string-Grows, parse_comment_multi-Skips,
}

-- What scanning the rest of a token does, from the state behind its first character.
pub record Scanned (s s' : Scan) : Type 0 where
  pub cs : Bytes
  pub reads : Reads s.lexer cs s'.lexer
  pub value : s'.into.type ≢ comment → s'.into.value ≡ s.into.value ++ cs
  pub loc : s'.into.loc ≡ s.into.loc
  pub not_eof : s'.into.type ≢ eof

Scanned-set_type : {s t : Scan} (ty : TokenType) → ty ≢ eof → Grows s t → Scanned s (set_type ty t)
Scanned-set_type ty ne (cs, a) = record {
  cs = cs;
  reads = a.reads;
  value = λ _. a.value;
  loc = a.loc;
  not_eof = ne;
}

Scanned-comment :
    (s : Scan) (l : Lexer) → Skips s.lexer l → Scanned s (set_type comment (record s { lexer = l }))
Scanned-comment s l (cs, r) = record {
  cs = cs;
  reads = r;
  value = λ ne. absurd (ne refl);
  loc = refl;
  not_eof = cc;
}

if_elim {ℓ κ} :
    {A : Type ℓ} (P : A → Type κ) (b : Bool) {x y : A} → P x → P y → P (if b then x else y)
if_elim P true px py = px
if_elim P false px py = py

symbol-ne-eof : (c : ℕ) {t : TokenType} → symbol c ≡ some t → t ≢ eof
unfolding symbol
symbol-ne-eof c h = ground arith

abbrev NoEof : List (Bytes × TokenType) → Type 0
NoEof [] = Unit {0}
NoEof ((k, t) ∷ rest) = (t ≢ eof) × NoEof rest

find-ne-eof :
    (key : Bytes) (m : List (Bytes × TokenType)) (t : TokenType)
    → NoEof m
    → find key m ≡ some t
    → t ≢ eof
unfolding find
find-ne-eof key [] t n h = cc
find-ne-eof key ((k, u) ∷ rest) t n h = ground (arith, n.0, find-ne-eof key rest t n.1)

NoEof-kw_mappings : NoEof kw_mappings
NoEof-kw_mappings = ground arith

pick-ne-eof :
    (o : Option TokenType) (value : Bytes)
    → ((t : TokenType) → o ≡ some t → t ≢ eof)
    → pick o value ≢ eof
unfolding pick
pick-ne-eof (some t) value h = h t refl
pick-ne-eof none value h =
    if_elim (λ t. t ≢ eof) (equal value (codes "true") || equal value (codes "false")) (cc)
      (if_elim (λ t. t ≢ eof) (starts_lower value) (cc) (cc))

classify-ne-eof : (value : Bytes) → classify value ≢ eof
unfolding classify
classify-ne-eof value =
    pick-ne-eof _ value λ t. find-ne-eof (str_tolower value) kw_mappings t NoEof-kw_mappings

parse_identifier-Scanned : (s : Scan) → IsSynced s.lexer → Scanned s (parse_identifier s)
unfolding parse_identifier
parse_identifier-Scanned s h =
    let (cs, a, _) = take_while-Appends ident_byte (pending s.lexer) s h in
    Scanned-set_type _
      (classify-ne-eof (take_while (on_char ident_byte) (pending s.lexer) s).into.value) (cs, a)

parse_integer-Scanned : (s : Scan) → IsSynced s.lexer → Scanned s (parse_integer s)
unfolding parse_integer
parse_integer-Scanned s h =
    let (cs, a, _) = take_while-Appends digit_byte (pending s.lexer) s h in
    Scanned-set_type integer (cc) (cs, a)

scan_default-Scanned :
    (c : ℕ) (s : Scan) → IsSynced s.lexer → Ensures (Scanned s) (scan_default c s)
unfolding scan_default
scan_default-Scanned c s h =
    Ensures-if (alpha_byte c) (λ _. holds (parse_identifier-Scanned s h))
      λ _. Ensures-if (digit_byte c) (λ _. holds (parse_integer-Scanned s h)) λ _. threw

-- Take the next character, or leave it, and set the type.
took :
    (s : Scan) (t : TokenType)
    → IsSynced s.lexer
    → t ≢ eof
    → Scanned s (set_type t (consume_into s))
took s t h ne = Scanned-set_type t ne (Grows-consume_into s h)

left : (s : Scan) (t : TokenType) → IsSynced s.lexer → t ≢ eof → Scanned s (set_type t s)
left s t h ne = Scanned-set_type t ne ([], Appends-here s h)

scan_less-Scanned : (s : Scan) → IsSynced s.lexer → Scanned s (scan_less s)
unfolding scan_less
scan_less-Scanned s h = if_elim (Scanned s) (is b'-' s.lexer.lookahead) (took s assign h (cc)) (
    if_elim (Scanned s) (is b'=' s.lexer.lookahead) (took s less_equal h (cc)) (left s less h (cc)))

scan_equal-Scanned : (s : Scan) → IsSynced s.lexer → Scanned s (scan_equal s)
unfolding scan_equal
scan_equal-Scanned s h =
    if_elim (Scanned s) (is b'>' s.lexer.lookahead) (took s case_arrow h (cc))
      (left s equals h (cc))

scan_minus-Scanned : (s : Scan) → IsSynced s.lexer → Scanned s (scan_minus s)
unfolding scan_minus parse_comment_single
scan_minus-Scanned s h =
    let (cs, r, _) = skip_while-Skips (λ c. not (c == b'\n')) (pending s.lexer) s.lexer h in
    if_elim (Scanned s) (is b'-' s.lexer.lookahead) (Scanned-comment s _ (cs, r))
      (left s minus h (cc))

scan_lparen-Scanned : (s : Scan) → IsSynced s.lexer → Ensures (Scanned s) (scan_lparen s)
unfolding scan_lparen
scan_lparen-Scanned s h =
    Ensures-if (is b'*' s.lexer.lookahead)
      (λ _.
        Ensures-bind (parse_comment_multi-Skips (suc (pending s.lexer)) s.lexer h (omega arith))
          λ l r. holds (Scanned-comment s l r))
      λ _. holds (left s lparen h (cc))

string-Scanned : {s : Scan} (t : Scan) → Grows s t → t.into.type ≡ string → Scanned s t
string-Scanned t (cs, a) e = record {
  cs = cs;
  reads = a.reads;
  value = λ _. a.value;
  loc = a.loc;
  not_eof = rw e (cc);
}

-- The type set on what is left to read after the first character.
pub scan_first-Scanned :
    (c : ℕ) (s : Scan) → IsSynced s.lexer → Ensures (Scanned s) (scan_first c s)
unfolding scan_first
scan_first-Scanned c s h =
    Ensures-option (symbol c)
      (λ _.
        Ensures-if (c == b'<') (λ _. holds (scan_less-Scanned s h))
          λ _.
            Ensures-if (c == b'=') (λ _. holds (scan_equal-Scanned s h))
              λ _.
                Ensures-if (c == b'-') (λ _. holds (scan_minus-Scanned s h))
                  λ _.
                    Ensures-if (c == b'(') (λ _. scan_lparen-Scanned s h)
                      λ _.
                        Ensures-if (c == b'"')
                          (λ _.
                            Ensures-map (λ t g. string-Scanned t g.0 g.1)
                              (parse_string-Grows (suc (pending s.lexer)) s h (omega arith)))
                          λ _. scan_default-Scanned c s h)
      λ t e. holds (left s t h (symbol-ne-eof c e))
