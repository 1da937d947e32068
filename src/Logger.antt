-- ===== src/Logger.antt =====
-- src/logger.hpp and src/logger.cpp: locations, and the logger that prints to a stream. The stream is
-- the bytes written to it; `std::endl` is a newline. The `boost::format` overloads call these with
-- the rendered text, and callers build that text themselves.
pub mod Output
use lcool.Base.{ℕ, ◌++◌, Bool, true, false, [], ◌∷◌, Bytes, codes, decimal}

pub record Location : Type 0 where
  pub filename : Bytes
  pub line : ℕ
  pub column : ℕ

unfoldable pub to_string : Location → Bytes
to_string loc = loc.filename ++ (b':' ∷ (decimal loc.line ++ (b':' ∷ decimal loc.column)))

pub record Logger : Type 0 where
  pub stream : Bytes
  pub errors_printed : Bool

unfoldable pub logger_ostream : Bytes → Logger
logger_ostream stream = record { stream = stream; errors_printed = false }

unfoldable pub has_errors : Logger → Bool
has_errors log = log.errors_printed

endl : Bytes → Bytes
endl text = text ++ b'\n' ∷ []

unfoldable pub warning : Bytes → Logger → Logger
unfolding endl
warning str log = record log { stream = log.stream ++ endl (codes "warning: " ++ str) }

unfoldable pub warning_at : Location → Bytes → Logger → Logger
unfolding endl to_string
warning_at loc str log = record log {
  stream = log.stream ++ endl (to_string loc ++ (codes ": warning: " ++ str));
}

unfoldable pub error : Bytes → Logger → Logger
unfolding endl
error str log = record {
  stream = log.stream ++ endl (codes "error: " ++ str);
  errors_printed = true;
}

unfoldable pub error_at : Location → Bytes → Logger → Logger
unfolding endl to_string
error_at loc str log = record {
  stream = log.stream ++ endl (to_string loc ++ (codes ": error: " ++ str));
  errors_printed = true;
}
