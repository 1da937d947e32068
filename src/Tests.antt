-- ===== src/Tests.antt =====
-- Runs of the model and instances of its theorems.
mod Front
mod Classes
mod Layout
mod Driver
mod Vtable
mod Codegen
mod Compile
