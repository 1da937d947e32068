-- ===== src/Lexer/Comments.antt =====
-- Nested comments (src/lexer.cpp): the recursive `parse_comment_multi` against a machine on the text
-- that counts how many comments are open.
use lcool.Base.{
  ℕ, zero, suc, ◌<◌, ◌≡◌, refl, sym, ap, ◌∙◌, ◌&&◌, Bool, true, false, Option, none, some, [], ◌∷◌,
  Bytes, Bool-cases, Option-cases, inl, inr, is, head?, tail, ◌==◌, if◌then◌else◌, arith,
}
use lcool.Lexer.Chars.{Lexer, consume_char}
use lcool.Lexer.Result.{Result, ok, thrown, out_of_fuel, Ensures, holds, threw, ◌>>=◌}
use lcool.Lexer.Stream.{text, text_of, Reads, IsSynced, Reads-consume_char}
use lcool.Lexer.Scan.{pending, parse_comment_multi}
use lcool.Lexer.Consumes.{parse_comment_multi-Skips, Skips}

-- What is left behind the end of a comment in which `deep` others are open; `none` if it has no end.
-- The flag says that the next character is the ')' of a "*)". A "(*" leaves its '*' to be read.
unfoldable pub comment_end : Bool → ℕ → Bytes → Option Bytes
comment_end closing deep [] = none
comment_end true zero (c ∷ cs) = some cs
comment_end true (suc deep) (c ∷ cs) = comment_end false deep cs
comment_end false deep (c ∷ cs) =
    let opened = comment_end false (suc deep) cs in
    let more = comment_end (c == b'*' && is b')' (head? cs)) deep cs in
    if c == b'(' && is b'*' (head? cs) then opened else more

-- The text that a scanner leaves, if it does not throw.
abbrev pub text_left : Result Lexer → Option Bytes
text_left (ok l) = some (text l)
text_left (thrown loc msg) = none
text_left out_of_fuel = none

-- Go on behind an inner comment in which `deep` are open, one less.
resume : ℕ → Option Bytes → Option Bytes
resume deep none = none
resume zero (some rest) = some rest
resume (suc deep) (some rest) = comment_end false deep rest

text-lookahead : (l : Lexer) → head? (text l) ≡ l.lookahead
unfolding text
text-lookahead l = go l.lookahead
  where
    go : (o : Option ℕ) → head? (text_of o l.input) ≡ o
    go none = refl
    go (some c) = refl

-- The round at a character `c`, with the recursive calls as they are.
comment_round :
    (c : ℕ) (f : ℕ) (l : Lexer)
    → l.lookahead ≡ some c
    → parse_comment_multi (suc f) l ≡ (
        if c == b'(' && is b'*' (consume_char l).lookahead
        then parse_comment_multi f (consume_char l) >>= parse_comment_multi f
        else if c == b'*' && is b')' (consume_char l).lookahead
        then ok (consume_char (consume_char l))
        else parse_comment_multi f (consume_char l))
unfolding parse_comment_multi
comment_round c f l e = ground arith

comment_stop :
    (f : ℕ) (l : Lexer) → l.lookahead ≡ none → text_left (parse_comment_multi (suc f) l) ≡ none
unfolding parse_comment_multi
comment_stop f l e = ground arith

module _ (c : ℕ) (cs : Bytes) (deep : ℕ) where
  comment_end-open :
      (c == b'(' && is b'*' (head? cs)) ≡ true
      → comment_end false deep (c ∷ cs) ≡ comment_end false (suc deep) cs
  unfolding comment_end
  comment_end-open h = rw h

  comment_end-close :
      (c == b'(' && is b'*' (head? cs)) ≡ false
      → (c == b'*' && is b')' (head? cs)) ≡ true
      → comment_end false deep (c ∷ cs) ≡ comment_end true deep cs
  unfolding comment_end
  comment_end-close h h' = rw (h, h')

  comment_end-more :
      (c == b'(' && is b'*' (head? cs)) ≡ false
      → (c == b'*' && is b')' (head? cs)) ≡ false
      → comment_end false deep (c ∷ cs) ≡ comment_end false deep cs
  unfolding comment_end
  comment_end-more h h' = rw (h, h')

comment_end-closed :
    (deep : ℕ) (cs : Bytes)
    → is b')' (head? cs) ≡ true
    → comment_end true deep cs ≡ resume deep (some (tail cs))
unfolding comment_end resume
comment_end-closed deep [] h = cc
comment_end-closed zero (d ∷ cs) h = refl
comment_end-closed (suc deep) (d ∷ cs) h = refl

-- The nested call, then the outer comment behind it.
resume-bind :
    (deep : ℕ) (r : Result Lexer) (k : Lexer → Result Lexer) (P : Lexer → Type 0)
    → Ensures P r
    → ((l : Lexer) → P l → comment_end false deep (text l) ≡ resume deep (text_left (k l)))
    → resume (suc deep) (text_left r) ≡ resume deep (text_left (r >>= k))
unfolding resume
resume-bind deep r k P (holds {a} p) h = h a p
resume-bind deep r k P threw h = refl

text-at_end : (l : Lexer) → l.lookahead ≡ none → text l ≡ []
unfolding text
text-at_end l e = ap (λ o. text_of o l.input) e

tail-text : (l : Lexer) → is b')' l.lookahead ≡ true → tail (text l) ≡ text (consume_char l)
tail-text l h = elim (Option-cases l.lookahead) [
  | inl e ↦ cc (ap (is b')') e)
  | inr (c, e) ↦ ap tail (Reads-consume_char l c e).splits
]

resume-zero : (o : Option Bytes) → resume 0 o ≡ o
unfolding resume
resume-zero none = refl
resume-zero (some t) = refl

resume_end : (deep : ℕ) → resume deep none ≡ comment_end false deep []
unfolding resume comment_end
resume_end deep = refl

-- One round at the character `c`, with the induction hypothesis of the calls in it.
module _ (f : ℕ) (l : Lexer) (deep c : ℕ) (e : l.lookahead ≡ some c) (lt : pending l < suc f)
    (ih : (m : Lexer) (d : ℕ)
      → IsSynced m
      → pending m < f
      → comment_end false d (text m) ≡ resume d (text_left (parse_comment_multi f m))) where
  abbrev next : Lexer
  next = consume_char l

  read : Reads l (c ∷ []) next
  read = Reads-consume_char l c e

  less : pending next < f
  less = omega (arith, read.spent)

  abbrev opens : Bool
  opens = c == b'(' && is b'*' next.lookahead

  abbrev closes : Bool
  closes = c == b'*' && is b')' next.lookahead

  opens-text : (b : Bool) → opens ≡ b → (c == b'(' && is b'*' (head? (text next))) ≡ b
  opens-text b h = ap (λ o. c == b'(' && is b'*' o) (text-lookahead next) ∙ h

  closes-text : (b : Bool) → closes ≡ b → (c == b'*' && is b')' (head? (text next))) ≡ b
  closes-text b h = ap (λ o. c == b'*' && is b')' o) (text-lookahead next) ∙ h

  abbrev Agrees : Type 0
  Agrees = comment_end false deep (text l) ≡ resume deep (text_left (parse_comment_multi (suc f) l))

  agrees_open : opens ≡ true → Agrees
  agrees_open o =
      ap (comment_end false deep) read.splits
      ∙ comment_end-open c (text next) deep (opens-text true o)
      ∙ ih next (suc deep) read.synced less
      ∙ resume-bind deep (parse_comment_multi f next) (parse_comment_multi f) (Skips next)
          (parse_comment_multi-Skips f next read.synced less)
          (λ m s. ih m deep s.1.synced (omega (arith, less, s.1.spent)))
      ∙ sym (ap (λ r. resume deep (text_left r)) (rw o at (comment_round c f l e)))

  agrees_close : opens ≡ false → closes ≡ true → Agrees
  agrees_close o k =
      ap (comment_end false deep) read.splits
      ∙ comment_end-close c (text next) deep (opens-text false o) (closes-text true k)
      ∙ comment_end-closed deep (text next) (ap (is b')') (text-lookahead next) ∙ paren)
      ∙ ap (λ t. resume deep (some t)) (tail-text next paren)
      ∙ sym (ap (λ r. resume deep (text_left r)) (rw (o, k) at (comment_round c f l e)))
    where
      paren : is b')' next.lookahead ≡ true
      paren = ground arith

  agrees_more : opens ≡ false → closes ≡ false → Agrees
  agrees_more o k =
      ap (comment_end false deep) read.splits
      ∙ comment_end-more c (text next) deep (opens-text false o) (closes-text false k)
      ∙ ih next deep read.synced less
      ∙ sym (ap (λ r. resume deep (text_left r)) (rw (o, k) at (comment_round c f l e)))

  agrees : Agrees
  agrees = elim (Bool-cases opens) [
    | inl o ↦ agrees_open o
    | inr o ↦ elim (Bool-cases closes) [ inl k ↦ agrees_close o k | inr k ↦ agrees_more o k ]
  ]

parse_comment_multi-deep :
    (f : ℕ) (l : Lexer) (deep : ℕ)
    → IsSynced l
    → pending l < f
    → comment_end false deep (text l) ≡ resume deep (text_left (parse_comment_multi f l))
parse_comment_multi-deep zero l deep h lt = absurd (omega arith)
parse_comment_multi-deep (suc f) l deep h lt = elim (Option-cases l.lookahead) [
  | inl e ↦ ap (comment_end false deep) (text-at_end l e) ∙ sym (stopped e)
  | inr (c, e) ↦ agrees f l deep c e lt (λ m d h' lt'. parse_comment_multi-deep f m d h' lt')
]
  where
    stopped :
        l.lookahead ≡ none
        → resume deep (text_left (parse_comment_multi (suc f) l)) ≡ comment_end false deep []
    stopped e = ap (resume deep) (comment_stop f l e) ∙ resume_end deep

-- From a lexer whose input is used up when it has no lookahead, the scanner of multi-line comments
-- returns or throws. It returns exactly if the machine that counts open comments finds an end, and
-- leaves the text behind that end.
pub parse_comment_multi-comment_end :
    (l : Lexer)
    → IsSynced l
    → Ensures (Skips l) (parse_comment_multi (suc (pending l)) l)
      × (text_left (parse_comment_multi (suc (pending l)) l) ≡ comment_end false 0 (text l))
parse_comment_multi-comment_end l h = (
  parse_comment_multi-Skips (suc (pending l)) l h (omega arith),
  sym (
      parse_comment_multi-deep (suc (pending l)) l 0 h (omega arith)
      ∙ resume-zero (text_left (parse_comment_multi (suc (pending l)) l))),
)
