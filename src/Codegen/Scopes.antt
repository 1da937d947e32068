-- ===== src/Codegen/Scopes.antt =====
-- Code of src/codegen.cpp that pushes local variables, and the `pop` at the end of their scope.
use lcool.Base.{
  true, ℕ, zero, suc, ◌≡◌, refl, sym, ap, ◌∙◌, subst, Option, none, some, [], ◌∷◌, Bytes,
}
use mathlib.Core.Option.{none-ne-some, some-injective}
use lcool.Logger.{has_errors}
use lcool.Codegen.Builder.{
  ValueAndCls, Locals, Gen, M, at_init, ◌>>=◌, skip, get, push, pop, pop_locals, pure,
}
use lcool.Codegen.Builds.{Scope, scope, Any, Builds}
use lcool.Codegen.Typing.{class_in}
use lcool.Codegen.Locals.{get-none}

-- What comes of a run from `g` that pushes `n` variables and logs no error.
pub record Pushed {A : Type 0} (s' : Scope) (n : ℕ) (P : A → Type 0) (g : Gen)
    (o : Option (A × Gen)) : Type 0 where
  pub value : A
  pub after : Gen
  pub returns : o ≡ some (value, after)
  pub holds : P value
  pub pops : pop_locals n after.locals ≡ some g.locals
  pub in_scope : scope after.locals ≡ s'
  pub same_errors : has_errors after.log ≡ has_errors g.log
  pub keeps_init : at_init g.blocks ≡ true → at_init after.blocks ≡ true

pub record Opens {A : Type 0} (s s' : Scope) (n : ℕ) (P : A → Type 0) (m : M A) : Type 0 where
  pub run : (g : Gen) → scope g.locals ≡ s → at_init g.blocks ≡ true → Pushed s' n P g (m g)

pub Builds-Opens :
    {A : Type 0} {s : Scope} {P : A → Type 0} {m : M A} → Builds s P m → Opens s s 0 P m
unfolding pop_locals
Builds-Opens x = record {
  run = λ g e k.
      let d = x.run g e (λ j. k) in
      record {
        value = d.value;
        after = d.after;
        returns = d.returns;
        holds = d.holds;
        pops = ap some d.same_locals;
        in_scope = ap scope d.same_locals ∙ e;
        same_errors = d.same_errors;
        keeps_init = d.keeps_init;
      };
}

pub Opens-after :
    {A B : Type 0} {s s' : Scope} {n : ℕ} {P : A → Type 0} {Q : B → Type 0} {m : M A} {f : A → M B}
    → Builds s P m
    → ((a : A) → P a → Opens s s' n Q (f a))
    → Opens s s' n Q (m >>= f)
unfolding ◌>>=◌
Opens-after {n} {f} x y = record {
  run = λ g e k.
      let d = x.run g e (λ j. k) in
      let d' = (y d.value d.holds).run d.after (ap scope d.same_locals ∙ e) (d.keeps_init k) in
      record {
        value = d'.value;
        after = d'.after;
        returns = ap (λ o. elim o [ none ↦ none | some (a, g') ↦ f a g' ]) d.returns ∙ d'.returns;
        holds = d'.holds;
        pops = d'.pops ∙ ap some d.same_locals;
        in_scope = d'.in_scope;
        same_errors = d'.same_errors ∙ d.same_errors;
        keeps_init = λ k. d'.keeps_init (d.keeps_init k);
      };
}

pub get-none-Opens :
    {B : Type 0} {s s' : Scope} {n : ℕ} {Q : B → Type 0} (f : Option ValueAndCls → M B) (id : Bytes)
    → class_in id s ≡ none
    → Opens s s' n Q (f none)
    → Opens s s' n Q (get id >>= f)
get-none-Opens {s} {s'} {n} {Q} f id e y =
    Opens-after (get-none id e) (λ o p. subst (λ o'. Opens s s' n Q (f o')) (sym p) y)

-- Variables that are pushed, and code in their scope.
pub Opens-then :
    {A B : Type 0} {s s' : Scope} {n : ℕ} {P : A → Type 0} {Q : B → Type 0} {m : M A} {f : A → M B}
    → Opens s s' n P m
    → ((a : A) → P a → Builds s' Q (f a))
    → Opens s s' n Q (m >>= f)
unfolding ◌>>=◌
Opens-then {n} {f} x y = record {
  run = λ g e k.
      let d = x.run g e k in
      let d' = (y d.value d.holds).run d.after d.in_scope (λ j. d.keeps_init k) in
      record {
        value = d'.value;
        after = d'.after;
        returns = ap (λ o. elim o [ none ↦ none | some (a, g') ↦ f a g' ]) d.returns ∙ d'.returns;
        holds = d'.holds;
        pops = ap (pop_locals n) d'.same_locals ∙ d.pops;
        in_scope = ap scope d'.same_locals ∙ d.in_scope;
        same_errors = d'.same_errors ∙ d.same_errors;
        keeps_init = λ k. d'.keeps_init (d.keeps_init k);
      };
}

pub Opens-push :
    {s : Scope} (id : Bytes) (info : ValueAndCls)
    → Opens s ((id, info.cls) ∷ s) 1 Any (push id info)
unfolding push pop_locals
Opens-push id info = record {
  run = λ g e k. record {
    value = _;
    after = _;
    returns = refl;
    holds = tt;
    pops = refl;
    in_scope = ap (λ s. (id, info.cls) ∷ s) e;
    same_errors = refl;
    keeps_init = λ k. k;
  };
}

pop_locals-suc :
    (n : ℕ) (vars mid rest : Locals)
    → pop_locals n vars ≡ some mid
    → pop_locals 1 mid ≡ some rest
    → pop_locals (suc n) vars ≡ some rest
unfolding pop_locals
pop_locals-suc zero vars mid rest e h = ap (pop_locals 1) (some-injective _ _ e) ∙ h
pop_locals-suc (suc n) [] mid rest e h = absurd (none-ne-some mid e)
pop_locals-suc (suc n) (v ∷ vars) mid rest e h = pop_locals-suc n vars mid rest e h

pub Opens-bind :
    {A B : Type 0} {s s' s'' : Scope} {n : ℕ} {P : A → Type 0} {Q : B → Type 0} {m : M A}
    {f : A → M B}
    → Opens s s' 1 P m
    → ((a : A) → P a → Opens s' s'' n Q (f a))
    → Opens s s'' (suc n) Q (m >>= f)
unfolding ◌>>=◌
Opens-bind {n} {f} x y = record {
  run = λ g e k.
      let d = x.run g e k in
      let d' = (y d.value d.holds).run d.after d.in_scope (d.keeps_init k) in
      record {
        value = d'.value;
        after = d'.after;
        returns = ap (λ o. elim o [ none ↦ none | some (a, g') ↦ f a g' ]) d.returns ∙ d'.returns;
        holds = d'.holds;
        pops = pop_locals-suc n _ _ _ d'.pops d.pops;
        in_scope = d'.in_scope;
        same_errors = d'.same_errors ∙ d.same_errors;
        keeps_init = λ k. d'.keeps_init (d.keeps_init k);
      };
}

-- Variables that are pushed, code in their scope, and the `pop`.
pub Builds-let :
    {A B : Type 0} {s s' : Scope} {n : ℕ} {P : A → Type 0} {Q : B → Type 0} {m : M A} {body : M B}
    → Opens s s' n P m
    → Builds s' Q body
    → Builds s Q (m >>= λ _. body >>= λ r. pop n >>= λ _. pure r)
unfolding ◌>>=◌ pop pure
Builds-let {n} {m} {body} x y = record {
  run = λ g e k.
      let d = x.run g e (k refl) in
      let d' = y.run d.after d.in_scope (λ j. d.keeps_init (k refl)) in
      record {
        value = d'.value;
        after = record d'.after { locals = g.locals };
        returns =
            ap
              (λ o. elim o [
                | none ↦ none
                | some (_, g') ↦ (body >>= λ r. pop n >>= λ _. pure r) g'
              ])
              d.returns
            ∙ ap (λ o. elim o [ none ↦ none | some (r, g') ↦ (pop n >>= λ _. pure r) g' ])
                d'.returns
            ∙ popped n d'.value d'.after g.locals (ap (pop_locals n) d'.same_locals ∙ d.pops);
        holds = d'.holds;
        same_locals = refl;
        same_errors = d'.same_errors ∙ d.same_errors;
        keeps_init = λ k. d'.keeps_init (d.keeps_init k);
      };
}
  where
    step : Gen → Option Locals → Option (Unit {0} × Gen)
    step g none = none
    step g (some vars) = some (tt, record g { locals = vars })

    popped :
        {A : Type 0} (n : ℕ) (r : A) (g : Gen) (vars : Locals)
        → pop_locals n g.locals ≡ some vars
        → (pop n >>= λ _. pure r) g ≡ some (r, record g { locals = vars })
    popped n r g vars e = ap (λ o. elim (step g o) [ none ↦ none | some (_, g') ↦ some (r, g') ]) e

-- A variable that is pushed, code in its scope, and the `pop`.
pub Builds-branch :
    {A B C : Type 0} {s s' : Scope} {R : B → Type 0} {Q : C → Type 0} {m : M (Option A)}
    {body : M B} {h : B → M C} (x : Option A → M (Unit {0}))
    → Opens s s' 1 (λ o. (a : A) × (o ≡ some a)) m
    → ((a : A) → Builds s' Any (x (some a)))
    → Builds s' R body
    → ((b : B) → R b → Builds s Q (h b))
    → Builds s Q
        (m >>= λ v. x v >>= λ _. body >>= λ b. elim v [ none ↦ skip | some p ↦ pop 1 ] >>= λ _. h b)
unfolding ◌>>=◌ pop pure
Builds-branch {A} {C} {m} {body} {h} x i j k l = record {
  run = λ g e j'.
      let d = i.run g e (j' refl) in
      let a = d.holds.0 in
      let d1 = (j a).run d.after d.in_scope (λ z. d.keeps_init (j' refl)) in
      let d2 =
        k.run d1.after (ap scope d1.same_locals ∙ d.in_scope)
          (λ z. d1.keeps_init (d.keeps_init (j' refl))) in
      let d3 =
        (l d2.value d2.holds).run (record d2.after { locals = g.locals }) e
          (λ z. d2.keeps_init (d1.keeps_init (d.keeps_init (j' refl)))) in
      let rest : Option A → Gen → Option (C × Gen) =
        λ v. x v >>= λ _. body >>= λ b. elim v [ none ↦ skip | some p ↦ pop 1 ] >>= λ _. h b in
      record {
        value = d3.value;
        after = d3.after;
        returns =
            ap (λ o. elim o [ none ↦ none | some (v, g') ↦ rest v g' ]) d.returns
            ∙ ap (λ v. rest v d.after) d.holds.1
            ∙ ap
                (λ o. elim o [ none ↦ none | some (_, g') ↦ (body >>= λ b. pop 1 >>= λ _. h b) g' ])
                d1.returns
            ∙ ap (λ o. elim o [ none ↦ none | some (b, g') ↦ (pop 1 >>= λ _. h b) g' ]) d2.returns
            ∙ ap (λ o. elim (pushed d2.after o) [ none ↦ none | some (_, g') ↦ h d2.value g' ])
                (ap (pop_locals 1) (d2.same_locals ∙ d1.same_locals) ∙ d.pops)
            ∙ d3.returns;
        holds = d3.holds;
        same_locals = d3.same_locals;
        same_errors = d3.same_errors ∙ d2.same_errors ∙ d1.same_errors ∙ d.same_errors;
        keeps_init = λ k. d3.keeps_init (d2.keeps_init (d1.keeps_init (d.keeps_init k)));
      };
}
  where
    pushed : Gen → Option Locals → Option (Unit {0} × Gen)
    pushed g none = none
    pushed g (some vars) = some (tt, record g { locals = vars })
