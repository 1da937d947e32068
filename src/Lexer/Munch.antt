-- ===== src/Lexer/Munch.antt =====
-- `parse_identifier` and `parse_integer` (src/lexer.cpp) take all the characters that they can.
use lcool.Base.{
  ℕ, zero, suc, ◌<◌, ◌≤◌, ◌≡◌, refl, sym, ap, ◌∙◌, Bool, true, false, Bytes, Bool-cases,
  Option-cases, inl, inr, all, arith,
}
use mathlib.Core.Bool.{true≢false}
use lcool.Lexer.Token.{TokenType, integer}
use lcool.Lexer.Chars.{Lexer, Scan, consume_char, consume_into, on_char, digit_byte}
use lcool.Lexer.Stream.{IsSynced, Reads-consume_char}
use lcool.Lexer.Scan.{
  count_of, pending, take_while, set_type, ident_byte, parse_identifier, parse_integer, classify,
}
use lcool.Lexer.Consumes.{Appends, take_while-Appends}

-- From `s` to `s'` the longest run of characters with `f` was moved into the token: each of them has
-- `f`, and the next character, if there is one, has not.
pub record Munches (f : ℕ → Bool) (s s' : Scan) : Type 0 where
  pub taken : Bytes
  pub appends : Appends s taken s'
  pub every : all f taken ≡ true
  pub stops : on_char f s'.lexer.lookahead ≡ false

pending-consume_char :
    (f : ℕ → Bool) (l : Lexer) → on_char f l.lookahead ≡ true → pending (consume_char l) < pending l
pending-consume_char f l go = elim (Option-cases l.lookahead) [
  | inl e ↦ absurd (true≢false (sym go ∙ ap (on_char f) e))
  | inr (c, e) ↦ omega (arith, (Reads-consume_char l c e).spent)
]

take_while_stops :
    (f : ℕ → Bool) (n : ℕ) (s : Scan)
    → pending s.lexer ≤ n
    → on_char f (take_while (on_char f) n s).lexer.lookahead ≡ false
unfolding take_while consume_into
take_while_stops f zero s le = elim (Option-cases s.lexer.lookahead) [
  | inl e ↦ ap (on_char f) e
  | inr (c, e) ↦ absurd (omega (arith, le, ap count_of e))
]
take_while_stops f (suc n) s le = elim (Bool-cases (on_char f s.lexer.lookahead)) [
  | inl go ↦
      rw (go, take_while)
        (take_while_stops f n (consume_into s) (omega (arith, pending-consume_char f s.lexer go)))
  | inr stop ↦ rw (stop, take_while) stop
]

take_while-Munches :
    (f : ℕ → Bool) (s : Scan)
    → IsSynced s.lexer
    → Munches f s (take_while (on_char f) (pending s.lexer) s)
take_while-Munches f s h =
    let (cs, a, every) = take_while-Appends f (pending s.lexer) s h in
    record {
      taken = cs;
      appends = a;
      every = every;
      stops = take_while_stops f (pending s.lexer) s (omega arith);
    }

Munches-set_type :
    {f : ℕ → Bool} {s t : Scan} (ty : TokenType) → Munches f s t → Munches f s (set_type ty t)
Munches-set_type ty m = record {
  taken = m.taken;
  appends = record { reads = m.appends.reads; value = m.appends.value; loc = m.appends.loc };
  every = m.every;
  stops = m.stops;
}

-- From a lexer whose input is used up when it has no lookahead, `parse_identifier` moves the longest
-- run of letters, digits and underscores into the token, and the type that it sets is that of the
-- token's whole value.
pub parse_identifier-Munches :
    (s : Scan)
    → IsSynced s.lexer
    → Munches ident_byte s (parse_identifier s)
      × ((parse_identifier s).into.type ≡ classify (parse_identifier s).into.value)
unfolding parse_identifier
parse_identifier-Munches s h = (Munches-set_type _ (take_while-Munches ident_byte s h), refl)

-- From a lexer whose input is used up when it has no lookahead, `parse_integer` moves the longest run
-- of digits into the token and makes it an integer.
pub parse_integer-Munches :
    (s : Scan)
    → IsSynced s.lexer
    → Munches digit_byte s (parse_integer s) × ((parse_integer s).into.type ≡ integer)
unfolding parse_integer
parse_integer-Munches s h = (Munches-set_type _ (take_while-Munches digit_byte s h), refl)
