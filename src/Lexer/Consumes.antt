-- ===== src/Lexer/Consumes.antt =====
-- What each scanner of src/lexer.cpp reads off the stream and adds to its token.
use lcool.Base.{
  ℕ, zero, suc, ◌<◌, ◌≡◌, refl, sym, ap, ◌∙◌, ◌++◌, ◌&&◌, Bool, true, Option, none, some, [], ◌∷◌,
  Bytes, Bool-cases, Option-cases, inl, inr, is, ◌==◌, all, append_assoc, append-nil, arith,
}
use lcool.Lexer.Token.{TokenType, string}
use lcool.Lexer.Chars.{Lexer, Scan, consume_char, consume_into, append_char, on_char}
use lcool.Lexer.Result.{
  Ensures, holds, threw, Ensures-if, Ensures-option, Ensures-bind, Ensures-map,
}
use lcool.Lexer.Stream.{
  text, locate, IsSynced, Reads, Reads-here, Reads-trans, Reads-consume_char, consume_char-IsSynced,
}
use lcool.Lexer.Scan.{
  pending, skip_while, take_while, set_type, string_next, parse_string, parse_comment_multi,
}

-- The text `cs` was consumed and appended to the token's value.
pub record Appends (s : Scan) (cs : Bytes) (s' : Scan) : Type 0 where
  pub reads : Reads s.lexer cs s'.lexer
  pub value : s'.into.value ≡ s.into.value ++ cs
  pub loc : s'.into.loc ≡ s.into.loc

abbrev pub Grows : Scan → Scan → Type 0
Grows s s' = (cs : Bytes) × Appends s cs s'

abbrev pub Skips : Lexer → Lexer → Type 0
Skips l l' = (cs : Bytes) × Reads l cs l'

pub Appends-here : (s : Scan) → IsSynced s.lexer → Appends s [] s
Appends-here s h = record {
  reads = Reads-here s.lexer h;
  value = sym (append-nil s.into.value);
  loc = refl;
}

pub Appends-trans :
    (s t u : Scan) (xs ys : Bytes) → Appends s xs t → Appends t ys u → Appends s (xs ++ ys) u
Appends-trans s t u xs ys a b = record {
  reads = Reads-trans s.lexer t.lexer u.lexer xs ys a.reads b.reads;
  value = b.value ∙ rw a.value (append_assoc s.into.value xs ys);
  loc = b.loc ∙ a.loc;
}

pub Appends-consume_into :
    (s : Scan) (c : ℕ) → s.lexer.lookahead ≡ some c → Appends s (c ∷ []) (consume_into s)
unfolding consume_into append_char
Appends-consume_into s c e = record {
  reads = Reads-consume_char s.lexer c e;
  value = ap (λ o. append_char o s.into.value) e;
  loc = refl;
}

-- At the end of the file a call consumes nothing.
Reads-at_end : (l : Lexer) → IsSynced l → l.lookahead ≡ none → Reads l [] (consume_char l)
unfolding text locate consume_char
Reads-at_end l h e = record {
  splits = simp (e, h e, text);
  located = simp e;
  synced = consume_char-IsSynced l;
  spent = simp (e, h e) (omega arith);
}

pub Appends-at_end :
    (s : Scan) → IsSynced s.lexer → s.lexer.lookahead ≡ none → Appends s [] (consume_into s)
unfolding consume_into append_char
Appends-at_end s h e = record {
  reads = Reads-at_end s.lexer h e;
  value = ap (λ o. append_char o s.into.value) e ∙ sym (append-nil s.into.value);
  loc = refl;
}

pub Grows-consume_into : (s : Scan) → IsSynced s.lexer → Grows s (consume_into s)
Grows-consume_into s h = elim (Option-cases s.lexer.lookahead) [
  | inl e ↦ ([], Appends-at_end s h e)
  | inr (c, e) ↦ (c ∷ [], Appends-consume_into s c e)
]

on_char-some :
    (f : ℕ → Bool) (o : Option ℕ) → on_char f o ≡ true → (c : ℕ) × (o ≡ some c) × (f c ≡ true)
on_char-some f none h = cc
on_char-some f (some c) h = (c, refl, h)

-- A loop over a class of characters reads characters of that class only.
pub skip_while-Skips :
    (f : ℕ → Bool) (n : ℕ) (l : Lexer)
    → IsSynced l
    → (cs : Bytes) × Reads l cs (skip_while (on_char f) n l) × (all f cs ≡ true)
unfolding skip_while
skip_while-Skips f zero l h = ([], Reads-here l h, refl)
skip_while-Skips f (suc n) l h = elim (Bool-cases (on_char f l.lookahead)) [
  | inl go ↦
      let (c, e, fc) = on_char-some f l.lookahead go in
      let (cs, r, a) = skip_while-Skips f n (consume_char l) (consume_char-IsSynced l) in
      (
        c ∷ cs,
        rw (go, skip_while) (Reads-trans l _ _ (c ∷ []) cs (Reads-consume_char l c e) r),
        rw (fc, a) refl,
      )
  | inr stop ↦ ([], rw (stop, skip_while) (Reads-here l h), refl)
]

pub take_while-Appends :
    (f : ℕ → Bool) (n : ℕ) (s : Scan)
    → IsSynced s.lexer
    → (cs : Bytes) × Appends s cs (take_while (on_char f) n s) × (all f cs ≡ true)
unfolding take_while
take_while-Appends f zero s h = ([], (Appends-here s h), refl)
take_while-Appends f (suc n) s h = elim (Bool-cases (on_char f s.lexer.lookahead)) [
  | inl go ↦
      let (c, e, fc) = on_char-some f s.lexer.lookahead go in
      let a = Appends-consume_into s c e in
      let (cs, r, p) = take_while-Appends f n (consume_into s) a.reads.synced in
      (c ∷ cs, rw (go, take_while) (Appends-trans s _ _ (c ∷ []) cs a r), rw (fc, p) refl)
  | inr stop ↦ ([], rw (stop, take_while) (Appends-here s h), refl)
]

pub Grows-trans : {s t u : Scan} → Grows s t → Grows t u → Grows s u
Grows-trans {s} {t} {u} (xs, a) (ys, b) = (xs ++ ys, Appends-trans s t u xs ys a b)

-- Setting the type changes neither the value nor the stream.
pub Grows-set_type : {s t : Scan} (ty : TokenType) → Grows s t → Grows s (set_type ty t)
Grows-set_type ty (cs, a) = (cs, record { reads = a.reads; value = a.value; loc = a.loc })

string_next-Grows : (c : ℕ) (s : Scan) → IsSynced s.lexer → Grows s (string_next c s)
unfolding string_next
string_next-Grows c s h = elim (Bool-cases (c == b'\\')) [
  | inl e ↦ rw e (Grows-consume_into s h)
  | inr e ↦ rw e ([], Appends-here s h)
]

-- `parse_string` ends, and what it returns has consumed and appended the same text.
pub parse_string-Grows :
    (f : ℕ) (s : Scan)
    → IsSynced s.lexer
    → pending s.lexer < f
    → Ensures (λ s'. Grows s s' × (s'.into.type ≡ string)) (parse_string f s)
unfolding parse_string
parse_string-Grows zero s h lt = absurd (omega arith)
parse_string-Grows (suc f) s h lt =
    Ensures-option s.lexer.lookahead (λ _. threw)
      λ c e.
        let first = Appends-consume_into s c e in
        let next = string_next-Grows c (consume_into s) first.reads.synced in
        let here : Grows s (consume_into s) = (c ∷ [], first) in
        let rest =
          parse_string-Grows f (string_next c (consume_into s)) next.1.reads.synced
            (omega (arith, first.reads.spent, next.1.reads.spent)) in
        Ensures-if (c == b'\n') (λ _. threw)
          λ _.
            Ensures-if (c == b'"') (λ _. holds (Grows-set_type _ here, refl))
              λ _. Ensures-map (λ u g. (Grows-trans here (Grows-trans next g.0), g.1)) rest

pub Skips-trans : {l m n : Lexer} → Skips l m → Skips m n → Skips l n
Skips-trans {l} {m} {n} (xs, r) (ys, s) = (xs ++ ys, Reads-trans l m n xs ys r s)

Skips-consume_char : (l : Lexer) → IsSynced l → Skips l (consume_char l)
Skips-consume_char l h = elim (Option-cases l.lookahead) [
  | inl e ↦ ([], Reads-at_end l h e)
  | inr (c, e) ↦ (c ∷ [], Reads-consume_char l c e)
]

-- `parse_comment_multi` ends, nested comments included.
pub parse_comment_multi-Skips :
    (f : ℕ) (l : Lexer) → IsSynced l → pending l < f → Ensures (Skips l) (parse_comment_multi f l)
unfolding parse_comment_multi
parse_comment_multi-Skips zero l h lt = absurd (omega arith)
parse_comment_multi-Skips (suc f) l h lt =
    Ensures-option l.lookahead (λ _. threw)
      λ c e.
        let first = Reads-consume_char l c e in
        let here : Skips l (consume_char l) = (c ∷ [], first) in
        let more =
          parse_comment_multi-Skips f (consume_char l) first.synced (omega (arith, first.spent)) in
        Ensures-if (c == b'(' && is b'*' (consume_char l).lookahead)
          (λ _. Ensures-bind more λ m r.
            Ensures-map (λ n r'. Skips-trans here (Skips-trans r r'))
              (parse_comment_multi-Skips f m r.1.synced (omega (arith, first.spent, r.1.spent))))
          λ _.
            Ensures-if (c == b'*' && is b')' (consume_char l).lookahead)
              (λ _. holds (Skips-trans here (Skips-consume_char (consume_char l) first.synced)))
              λ _. Ensures-map (λ n r. Skips-trans here r) more
