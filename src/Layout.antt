-- ===== src/Layout.antt =====
-- src/layout.cpp: the layout of the classes of a program. Insertion sorts the classes and enters them
-- empty into the table.
pub mod Insertion
pub mod Attributes
pub mod Methods
pub mod Vtable
pub mod Run
