-- ===== src/Driver/Compiles.antt =====
-- `main` (src/main.cpp) from "Create empty cool_program" on, for a program that is laid out and typed.
use lcool.Base.{false, Option, none, some, List, [], ◌≡◌, Bytes}
use lcool.Logger.{Logger, has_errors}
use lcool.Ast.{Program}
use lcool.Layout.Run.{Module, layout}
use lcool.Codegen.Run.{Output, codegen}
use lcool.Codegen.Ready.{IsReady}
use lcool.Codegen.Branches.{KeepsSorted}
use lcool.Codegen.Whole.{AllTyped, HasMain}
use lcool.Driver.{Options, World, Outcome, target, new_module}

-- A program of the source that the layout accepts, and that is typed over the classes that it leaves.
pub record IsLegal (w : World) (program : Program) (log : Logger) : Type 0 where
  pub builtins : Module
  pub registered : new_module w log ≡ some builtins
  pub laid_out : Module
  pub lays_out : layout program builtins ≡ some laid_out
  pub accepted : has_errors laid_out.log ≡ false
  pub ready : IsReady laid_out.classes
  pub functions : List Bytes
  pub typed : AllTyped (target w laid_out) [] program functions
  pub main : HasMain laid_out.classes

-- What LLVM and the file system do if nothing is wrong: the module that is generated passes the verifier,
-- the output opens.
pub record Succeeds (w : World) (program : Program) (laid_out : Module) (filename : Bytes)
    : Type 0 where
  pub sorts : KeepsSorted w.sort
  pub verifies :
      (after : Output)
      → codegen w.sort (target w laid_out) program laid_out.log ≡ some after
      → w.verify_module (record { laid_out = laid_out; output = after }) ≡ none
  pub opens : w.open_output filename ≡ none

-- The exit code is 0, and no error is in the log.
pub record Exits0 (o : Option Outcome) : Type 0 where
  pub outcome : Outcome
  pub returns : o ≡ some outcome
  pub exit_code : outcome.exit_code ≡ 0
  pub no_errors : has_errors outcome.log ≡ false
