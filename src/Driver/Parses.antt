-- ===== src/Driver/Parses.antt =====
-- What the loop over the input files of `main` (src/main.cpp) does, and the names of its output.
use lcool.Base.{
  ◌&&◌, ◌==◌, ℕ, suc, ◌-◌, ◌++◌, ◌≡◌, ◌≢◌, ◌⊎◌, refl, sym, ap, ◌∙◌, Bool, true, false, none, some,
  List, [], ◌∷◌, Bytes, codes, equal, equal→eq, equal_refl, Bool-cases, inl, inr, subst, length,
  length-append, append_assoc, append-nil, arith,
}
use mathlib.Core.Bool.{true≢false}
use lcool.Base.Options.{>>=-some}
use lcool.Logger.{Logger, logger_ostream, has_errors, error}
use lcool.Logger.Output.{has_errors-error_at}
use lcool.Ast.{Program}
use lcool.Parser.Top.{parse}
use lcool.Parser.Returns.{parse_returns}
use lcool.Dump.{dump_ast}
use lcool.Driver.{
  Options, World, Opened, contents, failure, Outcome, return_1, log_opening, parse_input,
  inputs_loop, take, ends_with, out_filename, run, main,
}

-- The text that an input file gives, with the name it has in locations.
abbrev pub Reads : World → ℕ → Bytes → Bytes → Bytes → Type 0
Reads w i filename text name =
    ((filename ≡ codes "-") × (text ≡ w.cin i) × (name ≡ codes "stdin"))
    ⊎ ((filename ≢ codes "-") × (w.open_input filename ≡ contents text) × (name ≡ filename))

-- Every file is read and parsed without a word in the log, and the program is all of their classes.
pub data Parses (w : World) (log : Logger) : ℕ → List Bytes → Program → Type 0 where
  no_inputs : {i : ℕ} → Parses w log i [] []
  next_input :
      {i : ℕ} {filename : Bytes} {rest : List Bytes} {classes more : Program}
      → (text name : Bytes) → Reads w i filename text name
      → parse text name log ≡ some (classes, log)
      → Parses w log (suc i) rest more
      → Parses w log i (filename ∷ rest) (classes ++ more)

-- One input is parsed in silence, or an error is logged.
Parsed : World → ℕ → Bytes → Logger → Program × Logger → Type 0
Parsed w i filename log r =
    ((r.1 ≡ log)
      × ((text : Bytes) × (name : Bytes) × Reads w i filename text name
          × (parse text name log ≡ some (r.0, log))))
    ⊎ (has_errors r.1 ≡ true)

parse-Parsed :
    (w : World) (i : ℕ) (filename text name : Bytes) (log : Logger)
    → Reads w i filename text name
    → (r : Program × Logger) × (parse text name log ≡ some r) × Parsed w i filename log r
unfolding Parsed
parse-Parsed w i filename text name log h =
    let (p, log', e, x) = parse_returns text name log in
    (
      (p, log'),
      e,
      elim x [
        | inl s ↦ inl (s, (text, name, h, e ∙ ap (λ l. some (p, l)) s))
        | inr (q, (loc, msg, s)) ↦ inr (ap has_errors s ∙ has_errors-error_at loc msg log)
      ],
    )

Opened-cases : (o : Opened) → ((t : Bytes) × (o ≡ contents t)) ⊎ ((x : Bytes) × (o ≡ failure x))
Opened-cases (contents t) = inl (t, refl)
Opened-cases (failure x) = inr (x, refl)

parse_input-Parsed :
    (w : World) (i : ℕ) (filename : Bytes) (log : Logger)
    → (r : Program × Logger) × (parse_input w i filename log ≡ some r) × Parsed w i filename log r
unfolding parse_input Parsed has_errors error
parse_input-Parsed w i filename log = elim (Bool-cases (equal filename (codes "-"))) [
  | inl e ↦
      let (r, q, h) =
        parse-Parsed w i filename (w.cin i) (codes "stdin") log
          (inl (equal→eq filename (codes "-") e, refl, refl)) in
      (r, rw (e, parse_input) q, h)
  | inr e ↦ elim (Opened-cases (w.open_input filename)) [
    | inl (text, o) ↦
        let (r, q, h) = parse-Parsed w i filename text filename log (inr (other e, o, refl)) in
        (r, rw (e, o, parse_input) q, h)
    | inr (reason, o) ↦
        (([], log_opening filename reason log), rw (e, o, parse_input) refl, inr refl)
  ]
]
  where
    other : equal filename (codes "-") ≡ false → filename ≢ codes "-"
    other e q = true≢false (sym (ap (λ x. equal x (codes "-")) q ∙ equal_refl (codes "-")) ∙ e)

-- The whole loop: every input is parsed in silence, or an error is logged.
ParsedAll : World → ℕ → List Bytes → Program → Logger → Program × Logger → Type 0
ParsedAll w i inputs program log r =
    ((r.1 ≡ log) × ((more : Program) × Parses w log i inputs more × (r.0 ≡ program ++ more)))
    ⊎ (has_errors r.1 ≡ true)

ParsedAll-next :
    (w : World) (i : ℕ) (filename : Bytes) (rest : List Bytes) (program : Program) (log : Logger)
    → (q r : Program × Logger) → Parsed w i filename log q
    → ParsedAll w (suc i) rest (program ++ q.0) q.1 r
    → ParsedAll w i (filename ∷ rest) program log r
unfolding Parsed ParsedAll
ParsedAll-next w i filename rest program log q r (inr e) (inr e') = inr e'
ParsedAll-next w i filename rest program log q r (inr e) (inl (s, x)) = inr (ap has_errors s ∙ e)
ParsedAll-next w i filename rest program log q r (inl x) (inr e') = inr e'
ParsedAll-next w i filename rest program log q r (inl (s, (text, name, h, p)))
      (inl (s', (more, ps, e))) =
    inl (
      s' ∙ s,
      (
        q.0 ++ more,
        next_input text name h p (subst (λ l. Parses w l (suc i) rest more) s ps),
        e ∙ append_assoc program q.0 more,
      ),
    )

inputs_loop-ParsedAll :
    (w : World) (i : ℕ) (inputs : List Bytes) (program : Program) (log : Logger)
    → (r : Program × Logger) × (inputs_loop w i inputs program log ≡ some r)
      × ParsedAll w i inputs program log r
unfolding inputs_loop ParsedAll
inputs_loop-ParsedAll w i [] program log =
    ((program, log), refl, inl (refl, ([], no_inputs, sym (append-nil program))))
inputs_loop-ParsedAll w i (filename ∷ rest) program log =
    let (q, e, h) = parse_input-Parsed w i filename log in
    let (r, e', h') = inputs_loop-ParsedAll w (suc i) rest (program ++ q.0) q.1 in
    (r, >>=-some _ _ e e', ParsedAll-next w i filename rest program log q r h h')

abbrev clog : Logger
clog = logger_ostream []

main-run :
    (w : World) (options : Options) (inputs : List Bytes)
    → options.version ≡ false
    → options.help ≡ false
    → options.input ≡ inputs
    → main w options ≡ run w options inputs clog
unfolding main
main-run w options inputs v h i = rw (v, h, main) (ap (λ l. run w options l clog) i)

run_stopped :
    (w : World) (options : Options) (input : Bytes) (rest : List Bytes) (log : Logger)
    → (r : Program × Logger) → inputs_loop w 0 (input ∷ rest) [] log ≡ some r
    → has_errors r.1 ≡ true
    → run w options (input ∷ rest) log ≡ some (return_1 r.1)
unfolding run
run_stopped w options input rest log r e x = >>=-some _ _ e (rw x refl)

run_dumped :
    (w : World) (options : Options) (input : Bytes) (rest : List Bytes) (log : Logger)
    → (r : Program × Logger) → options.parse ≡ true
    → inputs_loop w 0 (input ∷ rest) [] log ≡ some r
    → has_errors r.1 ≡ false
    → run w options (input ∷ rest) log
      ≡ some (record { exit_code = 0; stdout = dump_ast [] r.0; log = r.1; files = [] })
unfolding run
run_dumped w options input rest log r p e x = >>=-some _ _ e (rw (x, p) refl)

-- With `--parse`, without `--version` and `--help`, and with an input file, `main` returns and writes no file. Either it exits with 0 and an
-- empty log, every input was read and parsed, and the dump of all their classes is on the standard
-- output; or it exits with 1 after an error was logged and prints nothing there.
pub main_parse :
    (w : World) (options : Options) (input : Bytes) (rest : List Bytes)
    → options.version ≡ false
    → options.help ≡ false
    → options.parse ≡ true
    → options.input ≡ input ∷ rest
    → (r : Outcome) × (main w options ≡ some r)
      × (r.files ≡ [])
      × (((r.exit_code ≡ 0)
            × (r.log ≡ logger_ostream [])
            × ((program : Program) × Parses w (logger_ostream []) 0 (input ∷ rest) program
                × (r.stdout ≡ dump_ast [] program)))
          ⊎ ((r.exit_code ≡ 1) × (has_errors r.log ≡ true) × (r.stdout ≡ [])))
unfolding ParsedAll has_errors logger_ostream
main_parse w options input rest v h p i =
    let (r, e, x) = inputs_loop-ParsedAll w 0 (input ∷ rest) [] clog in
    let q = main-run w options (input ∷ rest) v h i in
    elim x [
      | inr bad ↦ (
        return_1 r.1,
        q ∙ run_stopped w options input rest clog r e bad,
        refl,
        inr (refl, bad, refl),
      )
      | inl (s, (more, ps, s')) ↦ (
        record { exit_code = 0; stdout = dump_ast [] r.0; log = r.1; files = [] },
        q ∙ run_dumped w options input rest clog r p e (ap has_errors s),
        refl,
        inl (refl, s, (more, ps, ap (dump_ast []) s')),
      )
    ]

-- Without `--output`, the bitcode of a source named with the suffix `.cl` goes to the file named with
-- `.bc` in its place.
pub out_filename-cl : (stem : Bytes) → out_filename none (stem ++ codes ".cl") ≡ stem ++ codes ".bc"
unfolding out_filename ends_with equal
out_filename-cl stem =
    rw (no_dash stem, ends stem)
      (ap (λ n. take n (stem ++ codes ".cl") ++ codes "bc") (measure stem)
        ∙ ap (λ s. s ++ codes "bc") (front stem)
        ∙ append_assoc stem (codes ".") (codes "bc"))
  where
    and_false : (x : Bool) → (x && false) ≡ false
    and_false true = refl
    and_false false = refl

    no_dash : (s : Bytes) → equal (s ++ codes ".cl") (codes "-") ≡ false
    no_dash [] = refl
    no_dash (c ∷ []) = and_false (c == b'-')
    no_dash (c ∷ d ∷ s) = and_false (c == b'-')

    ends : (s : Bytes) → ends_with (s ++ codes ".cl") (codes ".cl") ≡ true
    ends [] = refl
    ends (c ∷ s) = elim (Bool-cases (equal (c ∷ s ++ codes ".cl") (codes ".cl"))) [
      | inl e ↦ rw e refl
      | inr e ↦ rw e (ends s)
    ]

    measure : (s : Bytes) → length (s ++ codes ".cl") - 2 ≡ suc (length s)
    measure s = omega (arith, length-append s (codes ".cl"))

    front : (s : Bytes) → take (suc (length s)) (s ++ codes ".cl") ≡ s ++ codes "."
    front [] = refl
    front (c ∷ s) = ap (λ l. c ∷ l) (front s)
