-- ===== src/Parser/Literals.antt =====
-- src/parser.cpp: the values of integer and string literals.
pub mod Integer
use lcool.Base.{
  ℕ, ◌+◌, ◌-◌, ◌*◌, ◌%◌, ◌^◌, ◌++◌, Bool, true, false, [], ◌∷◌, Bytes, codes, ◌==◌, if◌then◌else◌,
}
use lcool.Base.Int.{ℤ, pos, signed32, pattern32, ltb_ℤ}
use lcool.Logger.{Location, Logger, warning_at}

-- `(int_value * 10) + (c - '0')`. Both operands are `int`, so the sum is computed in 32 bits and
-- only then widened. Overflow of a signed sum is undefined in C++; here it wraps round.
unfoldable pub next_value : ℕ → ℕ → ℤ
next_value int_value c = signed32 ((int_value * 10 + (c + 2 ^ 32 - b'0')) % 2 ^ 32)

-- The loop of `parse_integer`; `int_value` is held as its bit pattern.
unfoldable pub integer_loop : Location → Bytes → Bytes → ℕ → Logger → ℕ × Logger
unfolding next_value
integer_loop loc str_value [] int_value log = (int_value, log)
integer_loop loc str_value (c ∷ cs) int_value log =
    let new_int_value = next_value int_value c in
    let rest = integer_loop loc str_value cs (pattern32 new_int_value) log in
    if ltb_ℤ (pos (2 ^ 31 - 1)) new_int_value
    then (int_value, warning_at loc (codes "number cannot be represented: " ++ str_value) log)
    else rest

-- The `switch` on an escaped character: \b \f \n \r \t, and any other verbatim.
unfoldable pub unescape : ℕ → ℕ
unescape c =
    if c == b'b'
    then 8
    else if c == b'f'
    then 12
    else if c == b'n'
    then b'\n'
    else if c == b'r'
    then b'\r'
    else if c == b't'
    then b'\t'
    else c

-- The loop of `parse_string`, from the state `escaped` and the value read so far.
unfoldable pub string_loop : Bool → Bytes → Bytes → Bytes
unfolding unescape
string_loop escaped value [] = value
string_loop true value (c ∷ cs) = string_loop false (value ++ unescape c ∷ []) cs
string_loop false value (c ∷ cs) =
    string_loop (c == b'\\')
      (if c == b'\\' then value else if c == b'"' then value else value ++ c ∷ []) cs
