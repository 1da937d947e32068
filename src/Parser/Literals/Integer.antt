-- ===== src/Parser/Literals/Integer.antt =====
-- What the loop of `parse_integer` (src/parser.cpp) computes.
use lcool.Base.{
  ℕ, ◌+◌, ◌-◌, ◌*◌, ◌%◌, ◌^◌, ◌≤◌, ◌≡◌, refl, ap, ◌∙◌, true, false, [], ◌∷◌, Bytes, all, arith,
}
use lcool.Base.Int.{pos, signed32_max, pattern32, pattern32-signed32, ltb_ℤ}
use lcool.Logger.{Location, Logger}
use lcool.Lexer.Chars.{digit_byte}
use lcool.Parser.Literals.{next_value, integer_loop}

next_value_max : (v c : ℕ) → ltb_ℤ (pos (2 ^ 31 - 1)) (next_value v c) ≡ false
unfolding next_value
next_value_max v c = signed32_max ((v * 10 + (c + 2 ^ 32 - b'0')) % 2 ^ 32)

-- One round, with the test that never holds taken out.
integer_loop-step :
    (loc : Location) (str cs : Bytes) (c v : ℕ) (log : Logger)
    → integer_loop loc str (c ∷ cs) v log ≡ integer_loop loc str cs (pattern32 (next_value v c)) log
unfolding integer_loop
integer_loop-step loc str cs c v log = rw (next_value_max v c) refl

-- The loop logs nothing, whatever the digits.
pub integer_loop-log :
    (loc : Location) (str cs : Bytes) (v : ℕ) (log : Logger)
    → (integer_loop loc str cs v log).1 ≡ log
unfolding integer_loop
integer_loop-log loc str [] v log = refl
integer_loop-log loc str (c ∷ cs) v log =
    rw (integer_loop-step loc str cs c v log)
      (integer_loop-log loc str cs (pattern32 (next_value v c)) log)

-- The number that a string of digits stands for, behind `n`.
abbrev pub decimal_from : ℕ → Bytes → ℕ
decimal_from n [] = n
decimal_from n (c ∷ cs) = decimal_from (n * 10 + (c - b'0')) cs

next_pattern :
    (n c : ℕ)
    → digit_byte c ≡ true
    → pattern32 (next_value (n % 2 ^ 32) c) ≡ (n * 10 + (c - b'0')) % 2 ^ 32
unfolding next_value
next_pattern n c h =
    pattern32-signed32 ((n % 2 ^ 32 * 10 + (c + 2 ^ 32 - b'0')) % 2 ^ 32) (omega arith) ∙ wrapped
  where
    le : b'0' ≤ c
    le = ground arith

    wrapped : (n % 2 ^ 32 * 10 + (c + 2 ^ 32 - b'0')) % 2 ^ 32 ≡ (n * 10 + (c - b'0')) % 2 ^ 32
    wrapped = omega (arith, le)

integer_loop-wraps :
    (loc : Location) (str cs : Bytes) (n : ℕ) (log : Logger)
    → all digit_byte cs ≡ true
    → integer_loop loc str cs (n % 2 ^ 32) log ≡ (decimal_from n cs % 2 ^ 32, log)
unfolding integer_loop
integer_loop-wraps loc str [] n log h = refl
integer_loop-wraps loc str (c ∷ cs) n log h =
    integer_loop-step loc str cs c (n % 2 ^ 32) log
    ∙ ap (λ v. integer_loop loc str cs v log) (next_pattern n c (ground arith))
    ∙ integer_loop-wraps loc str cs (n * 10 + (c - b'0')) log (ground arith)

-- For a literal of digits only, the loop of `parse_integer` ends with their number modulo 2 ^ 32 as the bit
-- pattern of the value, and with the logger unchanged: it warns of no number, however large.
pub integer_loop-value :
    (loc : Location) (str : Bytes) (log : Logger)
    → all digit_byte str ≡ true
    → integer_loop loc str str 0 log ≡ (decimal_from 0 str % 2 ^ 32, log)
integer_loop-value loc str log h = integer_loop-wraps loc str str 0 log h
