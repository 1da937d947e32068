-- ===== src/Codegen/Locals.antt =====
-- The local variables of `expr_codegen` (src/codegen.cpp) against the scopes of the typing rules.
use lcool.Base.{
  ◌≡◌, refl, sym, ap, ◌∙◌, subst, Option, none, some, [], ◌∷◌, Bytes, equal, if◌then◌else◌,
  Bool-cases, inl, inr,
}
use mathlib.Core.Option.{none-ne-some, some-injective}
use lcool.Codegen.Builder.{ValueAndCls, Locals, M, ◌>>=◌, get, find_local}
use lcool.Codegen.Builds.{Scope, scope, Builds, Builds-bind}
use lcool.Codegen.Typing.{class_in}

-- A local variable of the class.
abbrev pub IsLocal : Bytes → Option ValueAndCls → Type 0
IsLocal c o = (info : ValueAndCls) × (o ≡ some info) × (info.cls ≡ c)

find_local-IsLocal :
    (name c : Bytes) (vars : Locals)
    → class_in name (scope vars) ≡ some c
    → IsLocal c (find_local name vars)
unfolding find_local class_in
find_local-IsLocal name c [] e = absurd (none-ne-some c e)
find_local-IsLocal name c ((n, info) ∷ vars) e = elim (Bool-cases (equal n name)) [
  | inl h ↦ (
    info,
    rw (h, find_local) refl,
    some-injective _ _
        (sym (ap (λ b. if b then some info.cls else class_in name (scope vars)) h) ∙ e),
  )
  | inr h ↦
      let (i, x, y) =
        find_local-IsLocal name c vars
          (sym (ap (λ b. if b then some info.cls else class_in name (scope vars)) h) ∙ e) in
      (i, ap (λ b. if b then some info else find_local name vars) h ∙ x, y)
]

find_local-none :
    (name : Bytes) (vars : Locals) → class_in name (scope vars) ≡ none → find_local name vars ≡ none
unfolding find_local class_in
find_local-none name [] e = refl
find_local-none name ((n, info) ∷ vars) e = elim (Bool-cases (equal n name)) [
  | inl h ↦ absurd (
      none-ne-some info.cls
        (sym e ∙ ap (λ b. if b then some info.cls else class_in name (scope vars)) h))
  | inr h ↦
      ap (λ b. if b then some info else find_local name vars) h
      ∙ find_local-none name vars
          (sym (ap (λ b. if b then some info.cls else class_in name (scope vars)) h) ∙ e)
]

get-IsLocal : {s : Scope} (id c : Bytes) → class_in id s ≡ some c → Builds s (IsLocal c) (get id)
unfolding get
get-IsLocal id c e = record {
  run = λ g h k. record {
    value = _;
    after = _;
    returns = refl;
    holds = find_local-IsLocal id c g.locals (ap (class_in id) h ∙ e);
    same_locals = refl;
    same_errors = refl;
    keeps_init = λ k. k;
  };
}

pub get-none : {s : Scope} (id : Bytes) → class_in id s ≡ none → Builds s (λ o. o ≡ none) (get id)
unfolding get
get-none id e = record {
  run = λ g h k. record {
    value = _;
    after = _;
    returns = refl;
    holds = find_local-none id g.locals (ap (class_in id) h ∙ e);
    same_locals = refl;
    same_errors = refl;
    keeps_init = λ k. k;
  };
}

module _ {s : Scope} {B : Type 0} {Q : B → Type 0} where
  -- A local variable that is in scope is found.
  pub get-then :
      (f : Option ValueAndCls → M B) (id c : Bytes)
      → class_in id s ≡ some c
      → ((info : ValueAndCls) → info.cls ≡ c → Builds s Q (f (some info)))
      → Builds s Q (get id >>= f)
  get-then f id c e y =
      Builds-bind (get-IsLocal id c e)
        (λ o p. subst (λ o'. Builds s Q (f o')) (sym p.1) (y p.0 p.2))

  pub get-none-then :
      (f : Option ValueAndCls → M B) (id : Bytes)
      → class_in id s ≡ none
      → Builds s Q (f none)
      → Builds s Q (get id >>= f)
  get-none-then f id e y =
      Builds-bind (get-none id e) (λ o p. subst (λ o'. Builds s Q (f o')) (sym p) y)
