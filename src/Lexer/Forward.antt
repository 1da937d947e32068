-- ===== src/Lexer/Forward.antt =====
-- The scanner of src/lexer.cpp run forward, from the first character of a token.
use lcool.Base.{ℕ, zero, suc, ◌≡◌, ◌≢◌, refl, ap, ◌∙◌, Bool, false, Option, some, arith}
use lcool.Lexer.Token.{TokenType, comment}
use lcool.Lexer.Chars.{Lexer, Scan, consume_into, on_char, space_byte}
use lcool.Lexer.Result.{Result, ok, ◌>>=◌}
use lcool.Lexer.Scan.{
  pending, skip_while, scan_first, scan_here, scan_token_all, discard, scan_loop, scan_token, blank,
}

pub skip_while-stop :
    (test : Option ℕ → Bool) (f : ℕ) (l : Lexer)
    → test l.lookahead ≡ false
    → skip_while test f l ≡ l
unfolding skip_while
skip_while-stop test zero l h = refl
skip_while-stop test (suc f) l h = ground arith

scan_here-first :
    (l : Lexer) (c : ℕ)
    → l.lookahead ≡ some c
    → scan_here l ≡ scan_first c (consume_into (record { lexer = l; into = blank l.loc }))
unfolding scan_here
scan_here-first l c e = ground arith

pub scan_token_all-first :
    (l : Lexer) (c : ℕ)
    → l.lookahead ≡ some c
    → space_byte c ≡ false
    → scan_token_all l ≡ scan_first c (consume_into (record { lexer = l; into = blank l.loc }))
unfolding scan_token_all
scan_token_all-first l c e h =
    ap scan_here
      (skip_while-stop (on_char space_byte) (pending l) l (ap (on_char space_byte) e ∙ h))
    ∙ scan_here-first l c e

discard-ne : (t : TokenType) (s : Scan) (more : Result Scan) → t ≢ comment → discard t s more ≡ ok s
unfolding discard
discard-ne comment s more ne = absurd (ne refl)
discard-ne _ s more ne = refl

-- `scan_token` stops at the first token that is no comment.
pub scan_token-of :
    (l : Lexer) (s : Scan) → scan_token_all l ≡ ok s → s.into.type ≢ comment → scan_token l ≡ ok s
unfolding scan_token
scan_token-of l s e ne =
    ap (λ r. r >>= λ t. discard t.into.type t (scan_loop (pending l) t.lexer)) e
    ∙ discard-ne s.into.type s (scan_loop (pending l) s.lexer) ne
