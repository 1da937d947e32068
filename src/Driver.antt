-- ===== src/Driver.antt =====
-- src/main.cpp: `main`. The options are what boost makes of the command line. `none` stands for the
-- stops of the stages: a failed assertion, or a run without enough fuel.
pub mod Parses
pub mod Compiles
use lcool.Base.{
  ℕ, suc, ◌-◌, ◌++◌, Bool, true, false, Option, none, some, List, [], ◌∷◌, Bytes, codes, equal,
  if◌then◌else◌, length,
}
use lcool.Base.Options.{◌>>=◌}
use lcool.Logger.{Logger, logger_ostream, has_errors, error}
use lcool.Ast.{Program}
use lcool.Parser.Top.{parse}
use lcool.Dump.{dump_ast}
use lcool.Builtins.{Runtime, builtins_register}
use lcool.Program.{Function}
use lcool.Layout.Run.{Module, layout}
use lcool.Codegen.Case.{Sort}
use lcool.Codegen.Functions.{Target}
use lcool.Codegen.Run.{Output, codegen}

-- `vm`: the options that were given, and the input files, of which there may be none.
pub record Options : Type 0 where
  pub version : Bool
  pub help : Bool
  pub parse : Bool
  pub output : Option Bytes
  pub input : List Bytes

-- A file that was opened to be read, or the text of the error.
pub data Opened : Type 0 where
  contents failure : Bytes → Opened

-- The module of a program, with its functions.
pub record Generated : Type 0 where
  pub laid_out : Module
  pub output : Output

-- What `main` finds outside: the text of the options, what is left of the standard input when the
-- input of a position is read, the files, the runtime's module with the functions in its vtables, and
-- `std::sort`. LLVM's verifier and writer are functions on the module.
pub record World : Type 0 where
  pub visible : Bytes
  pub cin : ℕ → Bytes
  pub open_input : Bytes → Opened
  pub open_output : Bytes → Option Bytes
  pub runtime : Runtime
  pub runtime_function : Bytes → ℕ → Option Function
  pub sort : Sort
  pub verify_module : Generated → Option Bytes
  pub bitcode : Generated → Bytes

-- The exit code, what was printed, and the files that were written.
pub record Outcome : Type 0 where
  pub exit_code : ℕ
  pub stdout : Bytes
  pub log : Logger
  pub files : List (Bytes × Bytes)

abbrev pub return_1 : Logger → Outcome
return_1 log = record { exit_code = 1; stdout = []; log = log; files = [] }

abbrev pub log_opening : Bytes → Bytes → Logger → Logger
log_opening filename reason log =
    error (codes "error opening '" ++ (filename ++ (codes "': " ++ reason))) log

-- The body of the loop over the inputs. A file that does not open gives no classes.
unfoldable pub parse_input : World → ℕ → Bytes → Logger → Option (Program × Logger)
unfolding parse error equal
parse_input w i filename log =
    if equal filename (codes "-")
    then parse (w.cin i) (codes "stdin") log
    else elim (w.open_input filename) [
      | failure reason ↦ some ([], log_opening filename reason log)
      | contents text ↦ parse text filename log
    ]

unfoldable pub inputs_loop : World → ℕ → List Bytes → Program → Logger → Option (Program × Logger)
unfolding parse_input
inputs_loop w i [] program log = some (program, log)
inputs_loop w i (filename ∷ rest) program log =
    parse_input w i filename log >>= λ (r : Program × Logger).
    inputs_loop w (suc i) rest (program ++ r.0) r.1

abbrev pub take : ℕ → Bytes → Bytes
take ℕ.zero s = []
take (suc n) [] = []
take (suc n) (c ∷ s) = c ∷ take n s

-- boost's `ends_with`: the text behind some first part is the suffix.
unfoldable pub ends_with : Bytes → Bytes → Bool
unfolding equal
ends_with [] suffix = equal [] suffix
ends_with (c ∷ s) suffix = if equal (c ∷ s) suffix then true else ends_with s suffix

unfoldable pub out_filename : Option Bytes → Bytes → Bytes
unfolding ends_with equal
out_filename (some output) input = output
out_filename none input =
    if equal input (codes "-")
    then codes "-"
    else if ends_with input (codes ".cl")
    then take (length input - 2) input ++ codes "bc"
    else input ++ codes ".bc"

unfoldable pub write_bitcode : World → Bytes → Generated → Outcome
unfolding error equal
write_bitcode w filename m =
    if equal filename (codes "-")
    then record { exit_code = 0; stdout = w.bitcode m; log = m.output.log; files = [] }
    else elim (w.open_output filename) [
      | some reason ↦ return_1 (log_opening filename reason m.output.log)
      | none ↦ record {
        exit_code = 0;
        stdout = [];
        log = m.output.log;
        files = (filename, w.bitcode m) ∷ [];
      }
    ]

-- From "Verify module" on. The verifier's text goes to the stream of the logger.
unfoldable pub verify_and_write : World → Options → Bytes → Generated → Outcome
unfolding write_bitcode out_filename error
verify_and_write w options input m = elim (w.verify_module m) [
  | none ↦ write_bitcode w (out_filename options.output input) m
  | some errors ↦
      let log = error (codes "internal compiler error: llvm verify failed") m.output.log in
      return_1 (record log { stream = log.stream ++ errors })
]

abbrev pub target : World → Module → Target
target w m = record {
  program = m.classes;
  vtables = m.vtables;
  runtime_function = w.runtime_function;
  has_vtable_type = w.runtime.has_type (codes "Object$vtabletype");
}

abbrev pub new_module : World → Logger → Option Module
new_module w log = builtins_register w.runtime [] >>= λ t.
    some (record { classes = t; bodies = []; functions = []; vtables = []; log = log })

-- From "Create empty cool_program" on; `input` is the first of the inputs.
unfoldable pub compile : World → Options → Bytes → Program → Logger → Option Outcome
unfolding builtins_register layout codegen verify_and_write has_errors
compile w options input program log = new_module w log >>= λ m. layout program m >>= λ m'.
    let generated = codegen w.sort (target w m') program m'.log >>= λ out. some (
      if has_errors out.log
      then return_1 out.log
      else verify_and_write w options input (record { laid_out = m'; output = out })) in
    if has_errors m'.log then some (return_1 m'.log) else generated

-- From "Parse input files" on.
unfoldable pub run : World → Options → List Bytes → Logger → Option Outcome
unfolding inputs_loop compile dump_ast error has_errors
run w options [] log = some (return_1 (error (codes "no input files") log))
run w options (input ∷ rest) log =
    inputs_loop w 0 (input ∷ rest) [] log >>= λ (r : Program × Logger).
    let dumped : Outcome = record {
      exit_code = 0;
      stdout = dump_ast [] r.0;
      log = r.1;
      files = [];
    } in
    if has_errors r.1
    then some (return_1 r.1)
    else if options.parse
    then some dumped
    else compile w options input r.0 r.1

unfoldable pub main : World → Options → Option Outcome
unfolding run logger_ostream
main w options =
    let log = logger_ostream [] in
    if options.version
    then some (return_1 (record log { stream = codes "lcoolc version 0.1\n" }))
    else if options.help
    then some (
        return_1 (record log {
          stream =
              codes "lcoolc [options] input files...\n Compiles COOL sources into LLVM bitcode\n"
              ++ (w.visible ++ codes "\n");
        }))
    else run w options options.input log
