-- ===== src/Logger/Output.antt =====
-- Sequences of calls on a logger (src/logger.cpp): what they write, and when the error flag is set.
use lcool.Base.{◌≡◌, refl, ◌||◌, Bool, true, false, List, [], ◌∷◌, Bytes, arith}
use lcool.Logger.{Location, Logger, has_errors, warning, warning_at, error, error_at}

-- One call of the interface `logger`.
pub data Call : Type 0 where
  warn : Bytes → Call
  warn_at : Location → Bytes → Call
  fail : Bytes → Call
  fail_at : Location → Bytes → Call

abbrev pub call : Call → Logger → Logger
call (warn s) = warning s
call (warn_at l s) = warning_at l s
call (fail s) = error s
call (fail_at l s) = error_at l s

abbrev pub calls : List Call → Logger → Logger
calls [] log = log
calls (c ∷ cs) log = calls cs (call c log)

abbrev pub is_error : Call → Bool
is_error (warn s) = false
is_error (warn_at l s) = false
is_error (fail s) = true
is_error (fail_at l s) = true

abbrev pub any_error : List Call → Bool
any_error [] = false
any_error (c ∷ cs) = is_error c || any_error cs

call-has_errors :
    (c : Call) (log : Logger) → has_errors (call c log) ≡ (has_errors log || is_error c)
unfolding has_errors warning warning_at error error_at
call-has_errors (warn s) log = ground arith
call-has_errors (warn_at l s) log = ground arith
call-has_errors (fail s) log = ground arith
call-has_errors (fail_at l s) log = ground arith

-- After any sequence of calls the logger has errors exactly when it had some before or one of the
-- calls was an error: warnings never set the flag and nothing clears it.
pub has_errors-calls :
    (cs : List Call) (log : Logger) → has_errors (calls cs log) ≡ (has_errors log || any_error cs)
has_errors-calls [] log = ground arith
has_errors-calls (c ∷ cs) log =
    ground (arith, call-has_errors c log, has_errors-calls cs (call c log))

pub has_errors-error_at :
    (loc : Location) (msg : Bytes) (log : Logger) → has_errors (error_at loc msg log) ≡ true
unfolding has_errors error_at
has_errors-error_at loc msg log = refl
