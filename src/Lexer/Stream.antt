-- ===== src/Lexer/Stream.antt =====
-- The character stream of src/lexer.cpp behind its state: the text that is left, with CR and CRLF
-- read as LF, and the location after a piece of it.
use lcool.Base.{
  ℕ, ◌+◌, ◌≤◌, ◌≡◌, refl, sym, ap, ◌∙◌, ◌++◌, ◌&&◌, Bool, true, false, Option, none, some, [], ◌∷◌,
  Bytes, ◌==◌, if◌then◌else◌, length, length-append, append_assoc, arith,
}
use lcool.Logger.{Location}
use lcool.Lexer.Chars.{Lexer, skip_lf, next_char, after_char, advance, consume_char}
use lcool.Lexer.Scan.{count_of, pending}

-- Line endings made uniform; the flag says that the character before was a CR.
unfoldable pub normalise : Bool → Bytes → Bytes
normalise cr [] = []
normalise cr (c ∷ cs) =
    let as_lf = b'\n' ∷ normalise true cs in
    let kept = c ∷ normalise false cs in
    if cr && c == b'\n' then normalise false cs else if c == b'\r' then as_lf else kept

abbrev pub text_of : Option ℕ → Bytes → Bytes
text_of none rest = []
text_of (some c) rest = c ∷ normalise false rest

-- The text that a lexer has still to consume.
unfoldable pub text : Lexer → Bytes
text l = text_of l.lookahead l.input

unfoldable pub locate : Location → Bytes → Location
locate loc [] = loc
locate loc (c ∷ cs) = locate (advance (some c) loc) cs

-- At the end of the file the lookahead is EOF and nothing is left to read.
abbrev pub IsSynced : Lexer → Type 0
IsSynced l = l.lookahead ≡ none → l.input ≡ []

-- Between the two states exactly the text `cs` was consumed.
pub record Reads (l : Lexer) (cs : Bytes) (l' : Lexer) : Type 0 where
  pub splits : text l ≡ cs ++ text l'
  pub located : l'.loc ≡ locate l.loc cs
  pub synced : IsSynced l'
  pub spent : length cs + pending l' ≤ pending l

normalise-skip_lf : (cs : Bytes) → normalise true cs ≡ normalise false (skip_lf cs)
unfolding normalise skip_lf
normalise-skip_lf [] = refl
normalise-skip_lf (c ∷ cs) = ground arith

pub normalise-next_char : (cs : Bytes) → normalise false cs ≡ text_of (next_char cs) (after_char cs)
unfolding normalise next_char after_char
normalise-next_char [] = refl
normalise-next_char (c ∷ cs) = ground (arith, normalise-skip_lf cs)

length-skip_lf : (cs : Bytes) → length (skip_lf cs) ≤ length cs
unfolding skip_lf
length-skip_lf [] = omega arith
length-skip_lf (c ∷ cs) = ground arith

pending-after : (cs : Bytes) → length (after_char cs) + count_of (next_char cs) ≤ length cs
unfolding after_char next_char
pending-after [] = omega arith
pending-after (c ∷ cs) = ground (arith, length-skip_lf cs)

pub after_char-synced : (cs : Bytes) → next_char cs ≡ none → after_char cs ≡ []
unfolding next_char after_char
after_char-synced [] h = refl
after_char-synced (c ∷ cs) h = cc

pub Reads-here : (l : Lexer) → IsSynced l → Reads l [] l
unfolding locate
Reads-here l h = record { splits = refl; located = refl; synced = h; spent = omega arith }

pub locate-append :
    (loc : Location) (xs ys : Bytes) → locate loc (xs ++ ys) ≡ locate (locate loc xs) ys
unfolding locate
locate-append loc [] ys = refl
locate-append loc (x ∷ xs) ys = locate-append (advance (some x) loc) xs ys

pub Reads-trans :
    (l m n : Lexer) (xs ys : Bytes) → Reads l xs m → Reads m ys n → Reads l (xs ++ ys) n
Reads-trans l m n xs ys r s = record {
  splits = r.splits ∙ rw s.splits (sym (append_assoc xs ys (text n)));
  located = s.located ∙ rw r.located (sym (locate-append l.loc xs ys));
  synced = s.synced;
  spent = omega (arith, length-append {0} xs ys, r.spent, s.spent);
}

pub consume_char-IsSynced : (l : Lexer) → IsSynced (consume_char l)
unfolding consume_char
consume_char-IsSynced l = after_char-synced l.input

-- Consuming a character takes it off the front of the text and moves the location past it.
pub Reads-consume_char :
    (l : Lexer) (c : ℕ) → l.lookahead ≡ some c → Reads l (c ∷ []) (consume_char l)
unfolding text consume_char locate
Reads-consume_char l c e = record {
  splits = rw e (ap (◌∷◌ c) (normalise-next_char l.input));
  located = rw e;
  synced = after_char-synced l.input;
  spent = rw e (omega (arith, pending-after l.input));
}
