-- ===== src/Tests/Driver.antt =====
-- The command line driver on two inputs: a file, and the standard input.
use lcool.Base.{
  ℕ, ◌≡◌, ◌⊎◌, refl, true, false, Option, none, some, List, [], ◌∷◌, Bytes, codes, equal,
  if◌then◌else◌,
}
use lcool.Logger.{logger_ostream, has_errors, error}
use lcool.Ast.{Program}
use lcool.Dump.{dump_ast}
use lcool.Driver.{Options, World, contents, failure, Outcome, out_filename, main}
use lcool.Driver.Parses.{Parses, main_parse, out_filename-cl}

abbrev world : World
world = record {
  visible = codes "Allowed options:\n";
  cin = λ i. codes "class B inherits A { };";
  open_input = λ name.
      if equal name (codes "a.cl")
      then contents (codes "class A { };")
      else failure (codes "No such file or directory");
  open_output = λ name. none;
  runtime = record { has_type = λ n. true; has_global = λ n. true; get_function = λ n. none };
  runtime_function = λ name index. none;
  sort = λ before branches. branches;
  verify_module = λ m. none;
  bitcode = λ m. [];
}

abbrev options : List Bytes → Options
options inputs = record {
  version = false;
  help = false;
  parse = true;
  output = none;
  input = inputs;
}

abbrev inputs : List Bytes
inputs = codes "a.cl" ∷ codes "-" ∷ []

main_parse_example :
    (r : Outcome) × (main world (options inputs) ≡ some r)
    × (r.files ≡ [])
    × (((r.exit_code ≡ 0)
          × (r.log ≡ logger_ostream [])
          × ((program : Program) × Parses world (logger_ostream []) 0 inputs program
              × (r.stdout ≡ dump_ast [] program)))
        ⊎ ((r.exit_code ≡ 1) × (has_errors r.log ≡ true) × (r.stdout ≡ [])))
main_parse_example =
    main_parse world (options inputs) (codes "a.cl") (codes "-" ∷ []) refl refl refl refl

out_filename-cl_example : out_filename none (codes "prog.cl") ≡ codes "prog.bc"
out_filename-cl_example = out_filename-cl (codes "prog")

output_of : Option Outcome → ℕ × Bytes × Bytes
output_of none = (2, [], [])
output_of (some r) = (r.exit_code, r.stdout, r.log.stream)

missing :
    output_of (main world (options (codes "b.cl" ∷ [])))
    ≡ (1, [], codes "error: error opening 'b.cl': No such file or directory\n")
unfolding output_of main logger_ostream has_errors error equal
missing = refl
