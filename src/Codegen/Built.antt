-- ===== src/Codegen/Built.antt =====
-- Functions whose code is built without an error, in the output of src/codegen.cpp.
use lcool.Base.{
  ℕ, Bool, true, false, Option, none, some, List, [], ◌∷◌, ◌≡◌, ◌||◌, refl, ap, ◌∙◌, Bytes, codes,
  equal, if◌then◌else◌, map, sym, subst,
}
use mathlib.Core.Bool.{true≢false}
use lcool.Logger.{has_errors}
use lcool.Codegen.Builder.{Gen, M, ◌>>=◌, new_block, check_empty, at_init}
use lcool.Codegen.Builds.{Scope, Any, BuildsIn}
use lcool.Codegen.Scopes.{Opens}
use lcool.Codegen.Run.{Definition, Output, new_gen, gen_of, find_definition, define, build}

-- The functions that have got code, the newest first.
abbrev pub names : Output → List Bytes
names out = map (λ d. d.name) out.definitions

unfoldable pub is_defined : Bytes → List Bytes → Bool
unfolding equal
is_defined name [] = false
is_defined name (n ∷ rest) = equal n name || is_defined name rest

-- The code is built, without an error; then these functions have got code.
pub record IsBuilt (out : Output) (defined : List Bytes) (o : Option Output) : Type 0 where
  pub after : Output
  pub returns : o ≡ some after
  pub same_errors : has_errors after.log ≡ has_errors out.log
  pub defines : names after ≡ defined

or-neither : (x y : Bool) → (x || y) ≡ false → (x ≡ false) × (y ≡ false)
or-neither true y h = absurd (true≢false h)
or-neither false y h = (refl, h)

find_definition-none :
    (name : Bytes) (ds : List Definition)
    → is_defined name (map (λ d. d.name) ds) ≡ false
    → find_definition name ds ≡ none
unfolding find_definition is_defined
find_definition-none name [] h = refl
find_definition-none name (d ∷ ds) h =
    let (e, h') = or-neither (equal d.name name) _ h in
    ap (λ b. if b then some d else find_definition name ds) e ∙ find_definition-none name ds h'

-- A run of the code that returns defines the function.
define-IsBuilt :
    (name : Bytes) (start : Gen) (code : M (Unit {0})) (out : Output) (u : Unit {0}) (g : Gen)
    → code start ≡ some (u, g)
    → has_errors g.log ≡ has_errors out.log
    → IsBuilt out (name ∷ names out) (define name start code out)
unfolding define
define-IsBuilt name start code out u g e h = record {
  after = record {
    definitions = record { name = name; blocks = g.blocks; code = g.code } ∷ out.definitions;
    log = g.log;
  };
  returns =
      ap
        (λ o. elim o [
          | none ↦ none
          | some (u, g) ↦ some (record {
            definitions =
                record { name = name; blocks = g.blocks; code = g.code } ∷ out.definitions;
            log = g.log;
          })
        ])
        e;
  same_errors = h;
  defines = refl;
}

-- The first code of a function is built from an empty one.
build-new :
    (name : Bytes) (code : M (Unit {0})) (out : Output)
    → is_defined name (names out) ≡ false
    → define name (new_gen out.log) code out ≡ build name code out
unfolding build
build-new name code out n = sym (
    ap (λ o. define name (gen_of o out.log) code out) (find_definition-none name out.definitions n))

pub define-Builds :
    (name : Bytes) (code : M (Unit {0})) (out : Output)
    → BuildsIn false [] Any code
    → IsBuilt out (name ∷ names out) (define name (new_gen out.log) code out)
define-Builds name code out x =
    let d = x.run (new_gen out.log) refl (λ j. absurd (true≢false (sym j))) in
    define-IsBuilt name (new_gen out.log) code out d.value d.after d.returns d.same_errors

-- Code that asserts that the function has no block.
pub build-empty :
    (name : Bytes) (code : M (Unit {0})) (out : Output)
    → is_defined name (names out) ≡ false
    → BuildsIn false [] Any code
    → IsBuilt out (name ∷ names out) (build name (check_empty >>= λ _. code) out)
unfolding check_empty ◌>>=◌
build-empty name code out n x =
    let d = x.run (new_gen out.log) refl (λ j. absurd (true≢false (sym j))) in
    subst (IsBuilt out (name ∷ names out)) (build-new name (check_empty >>= λ _. code) out n) (
      define-IsBuilt name (new_gen out.log) (check_empty >>= λ _. code) out d.value d.after
        d.returns d.same_errors)

-- Code whose first block is "init".
pub build-init :
    {s : Scope} {n : ℕ} (name : Bytes) (f : ℕ → M (Unit {0})) (out : Output)
    → is_defined name (names out) ≡ false
    → ((b : ℕ) → Opens [] s n Any (f b))
    → IsBuilt out (name ∷ names out) (build name (new_block (codes "init") >>= f) out)
unfolding new_block ◌>>=◌ at_init equal
build-init name f out n x =
    let d = (x 0).run (record (new_gen out.log) { blocks = codes "init" ∷ [] }) refl refl in
    subst (IsBuilt out (name ∷ names out)) (build-new name (new_block (codes "init") >>= f) out n) (
      define-IsBuilt name (new_gen out.log) (new_block (codes "init") >>= f) out d.value d.after
        d.returns d.same_errors)
