-- ===== src/Lexer/Lexeme.antt =====
-- Every token that the lexer of src/lexer.cpp returns is a piece of the text, at its location.
use lcool.Base.{
  ℕ, zero, suc, ◌<◌, ◌≤◌, ◌≡◌, ◌≢◌, ◌⊎◌, refl, sym, ap, ◌∙◌, ◌++◌, false, none, some, [], ◌∷◌,
  Bytes, inl, inr, length, length-append, append_assoc, arith,
}
use mathlib.Core.Logic.{⊎_elim}
use lcool.Lexer.Token.{TokenType, eof, comment}
use lcool.Lexer.Chars.{Lexer, Scan, new_lexer, consume_into, space_byte}
use lcool.Lexer.Result.{Result, Ensures, holds, Ensures-option, Ensures-bind, Ensures-map}
use lcool.Lexer.Stream.{
  text, text_of, normalise, normalise-next_char, after_char-synced, locate, locate-append, IsSynced,
  Reads, Reads-trans,
}
use lcool.Lexer.Scan.{
  pending, set_type, skip_space, scan_here, scan_token_all, discard, scan_loop, scan_token, blank,
}
use lcool.Lexer.Consumes.{Appends-at_end, Appends-consume_into, skip_while-Skips}
use lcool.Lexer.Scanned.{Scanned, scan_first-Scanned}

-- One call of `scan_token_all`: white space, then a token or a comment.
record ScannedAll (l : Lexer) (s : Scan) : Type 0 where
  skipped : Bytes
  lexeme : Bytes
  reads : Reads l (skipped ++ lexeme) s.lexer
  loc : s.into.loc ≡ locate l.loc skipped
  value : s.into.type ≢ comment → s.into.value ≡ lexeme
  progress : (s.into.type ≡ eof) ⊎ (0 < length lexeme)
  at_end : s.into.type ≡ eof → text s.lexer ≡ []

abbrev start : Lexer → Scan
start l = record { lexer = l; into = blank l.loc }

text-at_end : (l : Lexer) → l.lookahead ≡ none → text l ≡ []
unfolding text
text-at_end l e = rw (e, text_of)

ScannedAll-eof :
    (l l' : Lexer) (ws : Bytes)
    → Reads l ws l'
    → l'.lookahead ≡ none
    → ScannedAll l (set_type eof (consume_into (start l')))
ScannedAll-eof l l' ws r e =
    let a = Appends-at_end (start l') r.synced e in
    record {
      skipped = ws;
      lexeme = [];
      reads = Reads-trans l l' _ ws [] r a.reads;
      loc = a.loc ∙ r.located;
      value = λ _. a.value;
      progress = inl refl;
      at_end = λ _. sym a.reads.splits ∙ text-at_end l' e;
    }

ScannedAll-first :
    (l l' : Lexer) (ws : Bytes) (c : ℕ) (s : Scan)
    → Reads l ws l'
    → l'.lookahead ≡ some c
    → Scanned (consume_into (start l')) s
    → ScannedAll l s
ScannedAll-first l l' ws c s r e z =
    let a = Appends-consume_into (start l') c e in
    record {
      skipped = ws;
      lexeme = c ∷ z.cs;
      reads = Reads-trans l l' _ ws (c ∷ z.cs) r (Reads-trans l' _ _ (c ∷ []) z.cs a.reads z.reads);
      loc = z.loc ∙ a.loc ∙ r.located;
      value = λ ne. z.value ne ∙ ap (λ v. v ++ z.cs) a.value;
      progress = inr (omega arith);
      at_end = λ h. absurd (z.not_eof h);
    }

scan_here-Scanned :
    (l l' : Lexer) (ws : Bytes) → Reads l ws l' → Ensures (ScannedAll l) (scan_here l')
unfolding scan_here
scan_here-Scanned l l' ws r =
    Ensures-option l'.lookahead (λ e. holds (ScannedAll-eof l l' ws r e))
      λ c e.
        Ensures-map (λ s z. ScannedAll-first l l' ws c s r e z)
          (scan_first-Scanned c (consume_into (start l'))
            (Appends-consume_into (start l') c e).reads.synced)

scan_token_all-Scanned : (l : Lexer) → IsSynced l → Ensures (ScannedAll l) (scan_token_all l)
unfolding scan_token_all
scan_token_all-Scanned l h =
    let (ws, r, _) = skip_while-Skips space_byte (pending l) l h in
    scan_here-Scanned l (skip_space l) ws r

-- The token in `s` is the piece of the text of `l` behind what was skipped: its value is that piece
-- character for character, its location that of the piece, and the lexer stands right behind it.
pub record IsLexeme (l : Lexer) (s : Scan) : Type 0 where
  pub skipped : Bytes
  pub splits : text l ≡ skipped ++ (s.into.value ++ text s.lexer)
  pub loc : s.into.loc ≡ locate l.loc skipped
  pub located : s.lexer.loc ≡ locate s.into.loc s.into.value
  pub synced : IsSynced s.lexer
  pub not_comment : s.into.type ≢ comment
  pub progress : (s.into.type ≡ eof) ⊎ (pending s.lexer < pending l)
  pub no_gain : pending s.lexer ≤ pending l
  pub at_end : s.into.type ≡ eof → text s.lexer ≡ []

IsLexeme-of : (l : Lexer) (s : Scan) → s.into.type ≢ comment → ScannedAll l s → IsLexeme l s
IsLexeme-of l s ne z =
    let total = length-append {0} z.skipped z.lexeme in
    record {
      skipped = z.skipped;
      splits = rw (z.value ne) (z.reads.splits ∙ append_assoc z.skipped z.lexeme (text s.lexer));
      loc = z.loc;
      located = rw (z.value ne, z.loc) (z.reads.located ∙ locate-append l.loc z.skipped z.lexeme);
      synced = z.reads.synced;
      not_comment = ne;
      progress = ⊎_elim inl (λ p. inr (omega (arith, z.reads.spent, total))) z.progress;
      no_gain = omega (arith, z.reads.spent);
      at_end = z.at_end;
    }

IsLexeme-after : (l m : Lexer) (s : Scan) (cs : Bytes) → Reads l cs m → IsLexeme m s → IsLexeme l s
IsLexeme-after l m s cs r z = record {
  skipped = cs ++ z.skipped;
  splits = r.splits ∙ rw z.splits (sym (append_assoc cs z.skipped _));
  loc = z.loc ∙ rw r.located (sym (locate-append l.loc cs z.skipped));
  located = z.located;
  synced = z.synced;
  not_comment = z.not_comment;
  progress = ⊎_elim inl (λ p. inr (omega (arith, r.spent))) z.progress;
  no_gain = omega (arith, r.spent, z.no_gain);
  at_end = z.at_end;
}

comment-progress :
    (l : Lexer) (s : Scan) → ScannedAll l s → s.into.type ≡ comment → pending s.lexer < pending l
comment-progress l s z e = elim z.progress [
  | inl h ↦ cc
  | inr p ↦ omega (arith, z.reads.spent, length-append {0} z.skipped z.lexeme)
]

-- Going on after a comment, and stopping at any other token.
discard-Ensures {κ} :
    {P : Scan → Type κ} (t : TokenType) (s : Scan) {more : Result Scan}
    → (t ≡ comment → Ensures P more)
    → (t ≢ comment → P s)
    → Ensures P (discard t s more)
unfolding discard
discard-Ensures comment s hm hs = hm refl
discard-Ensures _ s hm hs = holds (hs (cc))

scan_loop-IsLexeme :
    (f : ℕ) (l : Lexer) → IsSynced l → pending l < f → Ensures (IsLexeme l) (scan_loop f l)
unfolding scan_loop
scan_loop-IsLexeme zero l h lt = absurd (omega arith)
scan_loop-IsLexeme (suc f) l h lt = Ensures-bind (scan_token_all-Scanned l h) λ s z.
    discard-Ensures s.into.type s
      (λ e.
        Ensures-map (λ t y. IsLexeme-after l s.lexer t (z.skipped ++ z.lexeme) z.reads y)
          (scan_loop-IsLexeme f s.lexer z.reads.synced (omega (arith, comment-progress l s z e))))
      λ ne. IsLexeme-of l s ne z

-- From a lexer whose input is used up when it has no lookahead, `scan_token` ends: it throws, or
-- returns a token other than a comment whose value is a piece of the text, character for character,
-- whose location is that of the piece, and which is `eof` only at the end of the text. The lexer then
-- stands right behind the piece.
pub scan_token-IsLexeme : (l : Lexer) → IsSynced l → Ensures (IsLexeme l) (scan_token l)
unfolding scan_token
scan_token-IsLexeme l h = scan_loop-IsLexeme (suc (pending l)) l h (omega arith)

-- The constructor leaves the lexer at the start of the normalised input, at line 1 and column 1, and
-- the input is used up when there is no lookahead.
pub new_lexer_start :
    (input filename : Bytes)
    → (text (new_lexer input filename) ≡ normalise false input)
      × ((new_lexer input filename).loc ≡ record { filename = filename; line = 1; column = 1 })
      × IsSynced (new_lexer input filename)
unfolding text new_lexer
new_lexer_start input filename = (sym (normalise-next_char input), refl, after_char-synced input)
