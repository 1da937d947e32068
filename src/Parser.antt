-- ===== src/Parser.antt =====
-- src/parser.hpp and src/parser.cpp: the recursive-descent parser. State and actions are in Monad,
-- literals in Literals, expressions in Expr, classes and the entry point in Top.
pub mod Monad
pub mod Literals
pub mod Expr
pub mod Top
pub mod Rules
pub mod Strict
pub mod Total
pub mod Operators
pub mod Ends
pub mod Returns
