-- ===== src/Codegen.antt =====
-- src/codegen.cpp: the code of the methods, constructors, destructors and copy constructors.
pub mod Builder
pub mod Classes
pub mod Visit
pub mod Case
pub mod Expr
pub mod Builds
pub mod Ready
pub mod Members
pub mod Upcasts
pub mod Typing
pub mod Locals
pub mod Visitors
pub mod Dispatches
pub mod Operators
pub mod Joins
pub mod Scopes
pub mod Branches
pub mod Cases
pub mod Sound
pub mod Functions
pub mod Built
pub mod Methods
pub mod Objects
pub mod Whole
pub mod Main
pub mod Run
