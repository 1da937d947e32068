-- ===== src/Codegen/Builds.antt =====
-- Code of src/codegen.cpp that is built without an error: rules for one call of the builder and for
-- sequences.
use lcool.Base.{
  ℕ, ◌≡◌, ◌++◌, sym, refl, ap, ◌∙◌, Bool, true, false, Option, none, some, List, [], ◌∷◌, Bytes,
  if◌then◌else◌,
}
use mathlib.Core.Bool.{true≢false}
use lcool.Logger.{Location, has_errors, warning_at}
use lcool.Codegen.Builder.{
  Instruction, Locals, Gen, M, ◌>>=◌, pure, not_null, emit, new_block, set_insert_point,
  get_insert_block, log_warning, at_init, check_init,
}

abbrev pub Scope : Type 0
Scope = List (Bytes × Bytes)

-- The names and the classes of the local variables.
abbrev pub scope : Locals → Scope
scope [] = []
scope ((n, info) ∷ vars) = (n, info.cls) ∷ scope vars

-- What comes of a run from `g`: it returns, leaves the local variables as they were, and logs no error.
pub record Done {A : Type 0} (P : A → Type 0) (g : Gen) (o : Option (A × Gen)) : Type 0 where
  pub value : A
  pub after : Gen
  pub returns : o ≡ some (value, after)
  pub holds : P value
  pub same_locals : after.locals ≡ g.locals
  pub same_errors : has_errors after.log ≡ has_errors g.log
  pub keeps_init : at_init g.blocks ≡ true → at_init after.blocks ≡ true

-- `in_init` is set for code that asserts that the front block of the function is "init".
pub record BuildsIn {A : Type 0} (in_init : Bool) (s : Scope) (P : A → Type 0) (m : M A)
    : Type 0 where
  pub run :
      (g : Gen) → scope g.locals ≡ s → (in_init ≡ true → at_init g.blocks ≡ true) → Done P g (m g)

-- Code in a function whose front block is "init".
abbrev pub Builds : {A : Type 0} → Scope → (A → Type 0) → M A → Type 0
Builds s P m = BuildsIn true s P m

at_init-append : (bs cs : List Bytes) → at_init bs ≡ true → at_init (bs ++ cs) ≡ true
unfolding at_init
at_init-append [] cs h = absurd (true≢false (sym h))
at_init-append (b ∷ bs) cs h = h

abbrev pub Any : {A : Type 0} → A → Type 0
Any a = Unit {0}

module _ {in_init : Bool} {s : Scope} where
  pub Builds-pure : {A : Type 0} {P : A → Type 0} (a : A) → P a → BuildsIn in_init s P (pure a)
  unfolding pure
  Builds-pure a p = record {
    run = λ g e k. record {
      value = a;
      after = g;
      returns = refl;
      holds = p;
      same_locals = refl;
      same_errors = refl;
      keeps_init = λ k. k;
    };
  }

  pub Builds-bind :
      {A B : Type 0} {P : A → Type 0} {Q : B → Type 0} {m : M A} {f : A → M B}
      → BuildsIn in_init s P m
      → ((a : A) → P a → BuildsIn in_init s Q (f a))
      → BuildsIn in_init s Q (m >>= f)
  unfolding ◌>>=◌
  Builds-bind {m} {f} x y = record {
    run = λ g e k.
        let d = x.run g e k in
        let d' =
          (y d.value d.holds).run d.after (ap scope d.same_locals ∙ e) (λ j. d.keeps_init (k j)) in
        record {
          value = d'.value;
          after = d'.after;
          returns = ap (λ o. elim o [ none ↦ none | some (a, g') ↦ f a g' ]) d.returns ∙ d'.returns;
          holds = d'.holds;
          same_locals = d'.same_locals ∙ d.same_locals;
          same_errors = d'.same_errors ∙ d.same_errors;
          keeps_init = λ k. d'.keeps_init (d.keeps_init k);
        };
  }

  pub Builds-weaken :
      {A : Type 0} {P Q : A → Type 0} {m : M A}
      → BuildsIn in_init s P m
      → ((a : A) → P a → Q a)
      → BuildsIn in_init s Q m
  Builds-weaken x y = record {
    run = λ g e k.
        let d = x.run g e k in
        record {
          value = d.value;
          after = d.after;
          returns = d.returns;
          holds = y d.value d.holds;
          same_locals = d.same_locals;
          same_errors = d.same_errors;
          keeps_init = d.keeps_init;
        };
  }

  pub Builds-not_null :
      {A : Type 0} (o : Option A) (a : A)
      → o ≡ some a
      → BuildsIn in_init s (λ b. b ≡ a) (not_null o)
  Builds-not_null o a e = record {
    run = λ g h k. record {
      value = a;
      after = g;
      returns = ap (λ x. not_null x g) e;
      holds = refl;
      same_locals = refl;
      same_errors = refl;
      keeps_init = λ k. k;
    };
  }

  pub Builds-emit : (i : Instruction) → BuildsIn in_init s Any (emit i)
  unfolding emit
  Builds-emit i = record {
    run = λ g e k. record {
      value = _;
      after = _;
      returns = refl;
      holds = tt;
      same_locals = refl;
      same_errors = refl;
      keeps_init = λ k. k;
    };
  }

  pub Builds-new_block : (name : Bytes) → BuildsIn in_init s Any (new_block name)
  unfolding new_block
  Builds-new_block name = record {
    run = λ g e k. record {
      value = _;
      after = _;
      returns = refl;
      holds = tt;
      same_locals = refl;
      same_errors = refl;
      keeps_init = at_init-append g.blocks (name ∷ []);
    };
  }

  pub Builds-set_insert_point : (b : ℕ) → BuildsIn in_init s Any (set_insert_point b)
  unfolding set_insert_point
  Builds-set_insert_point b = record {
    run = λ g e k. record {
      value = _;
      after = _;
      returns = refl;
      holds = tt;
      same_locals = refl;
      same_errors = refl;
      keeps_init = λ k. k;
    };
  }

  pub Builds-get_insert_block : BuildsIn in_init s Any get_insert_block
  unfolding get_insert_block
  Builds-get_insert_block = record {
    run = λ g e k. record {
      value = _;
      after = _;
      returns = refl;
      holds = tt;
      same_locals = refl;
      same_errors = refl;
      keeps_init = λ k. k;
    };
  }

  pub Builds-log_warning :
      (loc : Location) (msg : Bytes) → BuildsIn in_init s Any (log_warning loc msg)
  unfolding log_warning warning_at has_errors
  Builds-log_warning loc msg = record {
    run = λ g e k. record {
      value = _;
      after = _;
      returns = refl;
      holds = tt;
      same_locals = refl;
      same_errors = refl;
      keeps_init = λ k. k;
    };
  }

  pub Builds-if :
      {A : Type 0} {P : A → Type 0} {x y : M A} (b : Bool)
      → (b ≡ true → BuildsIn in_init s P x)
      → (b ≡ false → BuildsIn in_init s P y)
      → BuildsIn in_init s P (if b then x else y)
  Builds-if true p q = p refl
  Builds-if false p q = q refl

  -- A sequence whose first part gives nothing that the second needs.
  pub Builds-then :
      {A B : Type 0} {P : A → Type 0} {Q : B → Type 0} {m : M A} {f : A → M B}
      → BuildsIn in_init s P m
      → ((a : A) → BuildsIn in_init s Q (f a))
      → BuildsIn in_init s Q (m >>= f)
  Builds-then x y = Builds-bind x (λ a p. y a)

  pub Builds-returned :
      {A B : Type 0} {Q : B → Type 0} (a : A) (f : A → M B)
      → BuildsIn in_init s Q (f a)
      → BuildsIn in_init s Q (pure a >>= f)
  unfolding ◌>>=◌ pure
  Builds-returned a f x = record { run = x.run }

if_true : {A : Type 0} (b : Bool) (x y : A) → b ≡ true → (if b then x else y) ≡ x
if_true b x y e = ap (λ c. if c then x else y) e

pub Builds-check_init : {s : Scope} → Builds s Any check_init
unfolding check_init
Builds-check_init = record {
  run = λ g e k. record {
    value = tt;
    after = g;
    returns = if_true (at_init g.blocks) _ _ (k refl);
    holds = tt;
    same_locals = refl;
    same_errors = refl;
    keeps_init = λ k. k;
  };
}
