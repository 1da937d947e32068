-- ===== src/Codegen/Sound.antt =====
-- The code generator on the expressions that the typing rules accept.
use lcool.Base.{true, List, ◌∷◌, ◌≡◌, refl, sym, ap, subst, ap₂, Bytes}
use lcool.Ast.{Branches, no_branches, more_branches, Expr, MaybeExpr, Exprs, Attributes}
use lcool.Logger.{Location}
use lcool.Program.Order.{Below, Holds-Below}
use lcool.Codegen.Builder.{Gen, at_init}
use lcool.Codegen.Builds.{
  Scope, scope, Done, Any, Builds, Builds-pure, Builds-bind, Builds-then, Builds-check_init,
  Builds-weaken,
}
use lcool.Codegen.Visit.{Context}
use lcool.Codegen.Case.{Sort}
use lcool.Codegen.Expr.{
  variable_count, evaluate, evaluate_object, evaluate_arguments, evaluate_block, evaluate_initial,
  branch_bodies, evaluate_variables, visit_let,
}
use lcool.Codegen.Ready.{IsReady}
use lcool.Codegen.Typing.{
  Pass, Typed, assign_variable, assign_member, calls, calls_static, if_least, loops, blocks, lets,
  cases, news, bools, ints, strings, variable, member, tests_void, negates, nots, computes,
  compares, TypedStatement, valued, sets_member, TypedObject, on_self, on_value, TypedAll, no_more,
  and_more, TypedBlock, last_one, before, TypedBranches, no_branch, and_branch, NoneBelow,
  IsReference, branch_types, TypedVariables, no_variables, without_value, with_value,
}
use lcool.Codegen.Scopes.{Opens, Builds-Opens, Opens-after, Opens-bind, Builds-let}
use lcool.Codegen.Visitors.{
  Of, load_self-Builds, identifier-variable, identifier-attribute, assign-variable,
  assign-attribute,
}
use lcool.Codegen.Dispatches.{classes, dispatch-dynamic, dispatch-static}
use lcool.Codegen.Operators.{
  new_object-Builds, isvoid-Builds, negate-Builds, not-Builds, binary-OnInts, equal-Builds,
}
use lcool.Codegen.Branches.{KeepsSorted, BuiltBranches, types}
use lcool.Codegen.Cases.{visit_case-Builds}
use lcool.Codegen.Joins.{IsInitial, conditional-Builds, loop-Builds, visit_variable-Opens}

types-branch_bodies :
    (sort : Sort) (ctx : Context) (branches : Branches)
    → types (branch_bodies sort ctx branches) ≡ branch_types branches
unfolding branch_bodies
types-branch_bodies sort ctx no_branches = refl
types-branch_bodies sort ctx (more_branches id type body rest) =
    ap (λ ts. type ∷ ts) (types-branch_bodies sort ctx rest)

module _ (sort : Sort) (k : KeepsSorted sort) (ctx : Context) (r : IsReady ctx.program) where
  mutual
    unfolding evaluate evaluate_object evaluate_arguments evaluate_block evaluate_initial
        evaluate_variables branch_bodies visit_let

    typed :
        {s : Scope} {e : Expr} {c : Bytes} → Typed ctx s e c → Builds s (Of c) (evaluate sort ctx e)
    typed (assign_variable {c} x n e b) =
        Builds-bind (typed x) (λ v p. assign-variable ctx r _ _ c _ v p n e b)
    typed (assign_member {c} {a} x n e i b h) =
        Builds-bind (typed x) (λ v p. assign-attribute ctx r _ _ c _ a v p n e i b h)
    typed (calls {c} {m} o xs i y) = Builds-bind (typed_object o) (λ v p.
        Builds-bind (typed_all xs) (λ vs q.
          dispatch-dynamic ctx r _ _ c v vs m p i
            (subst (λ k. Pass ctx.program k m.slot.parameter_types) (sym q) y)))
    typed (calls_static {c} {d} {m} o xs b i y) = Builds-bind (typed_object o) (λ v p.
        Builds-bind (typed_all xs) (λ vs q.
          dispatch-static ctx r _ _ c d v vs m p b i
            (subst (λ k. Pass ctx.program k m.slot.parameter_types) (sym q) y)))
    typed (if_least {c} {d} {e} p x y l) =
        conditional-Builds ctx r _ c d e _ _ _ (typed p) (typed x) (typed y) l
    typed (loops p x) = loop-Builds ctx r _ _ _ (typed p) (typed_statement x)
    typed (blocks xs) = typed_block xs
    typed (lets vs x) =
        Builds-then Builds-check_init (λ u. Builds-let (typed_variables _ vs) (typed x))
    typed (cases {c} {d} {f} {ds} vt x y bs l) = Builds-bind (typed x) (λ v p.
        visit_case-Builds ctx r vt sort _ v _ d ds f k (subst (IsReference ctx.program) (sym p) y)
          (typed_branches bs) l)
    typed (news h) = new_object-Builds ctx r _ _ h
    typed bools = Builds-pure _ refl
    typed ints = Builds-pure _ refl
    typed strings = Builds-pure _ refl
    typed (variable e) = identifier-variable ctx r _ _ _ e
    typed (member e i h) = identifier-attribute ctx r _ _ _ _ e i h
    typed (tests_void x h) = Builds-bind (typed x) (λ v p. isvoid-Builds ctx r _ _ v p h)
    typed (negates x) = Builds-bind (typed x) (λ v p. negate-Builds ctx r _ v p)
    typed (nots x) = Builds-bind (typed x) (λ v p. not-Builds ctx r _ v p)
    typed (computes o x y) =
        Builds-bind (typed x)
          (λ v p. Builds-bind (typed y) (λ w q. binary-OnInts ctx r _ _ _ v w o p q))
    typed (compares x y z) =
        Builds-bind (typed x)
          (λ v p. Builds-bind (typed y) (λ w q. equal-Builds ctx r _ _ _ v w p q z))

    typed_statement :
        {s : Scope} {e : Expr} → TypedStatement ctx s e → Builds s Any (evaluate sort ctx e)
    typed_statement (valued x) = Builds-weaken (typed x) (λ v p. tt)
    typed_statement (sets_member {c} {a} x n e i b h) =
        Builds-weaken
          (Builds-bind (typed x) (λ v p. assign-attribute ctx r _ _ c _ a v p n e i b h))
          (λ v p. tt)

    typed_object :
        {s : Scope} {o : MaybeExpr} {c : Bytes}
        → TypedObject ctx s o c
        → Builds s (Of c) (evaluate_object sort ctx o)
    typed_object (on_self e) = load_self-Builds ctx r _ e
    typed_object (on_value x) = typed x

    typed_all :
        {s : Scope} {es : Exprs} {cs : List Bytes}
        → TypedAll ctx s es cs
        → Builds s (λ vs. classes vs ≡ cs) (evaluate_arguments sort ctx es)
    typed_all no_more = Builds-pure _ refl
    typed_all (and_more x xs) =
        Builds-bind (typed x)
          (λ v p. Builds-bind (typed_all xs) (λ vs q. Builds-pure _ (ap₂ ◌∷◌ p q)))

    typed_block :
        {s : Scope} {es : Exprs} {c : Bytes}
        → TypedBlock ctx s es c
        → Builds s (Of c) (evaluate_block sort ctx es)
    typed_block (last_one x) = typed x
    typed_block (before x xs) = Builds-then (typed_statement x) (λ v. typed_block xs)

    typed_variables :
        {s s' : Scope} (loc : Location) {vars : Attributes}
        → TypedVariables ctx s vars s'
        → Opens s s' (variable_count vars) Any (evaluate_variables sort ctx loc vars)
    typed_variables loc no_variables = Builds-Opens (Builds-pure _ tt)
    typed_variables loc (without_value {c} h n vs) =
        Opens-after (Builds-pure {P = IsInitial ctx.program c} _ tt) (λ o i.
          Opens-bind (visit_variable-Opens ctx r loc _ _ c o n h i)
            (λ u u'. typed_variables loc vs))
    typed_variables loc (with_value {c} {d} x b n vs) =
        Opens-after {P = IsInitial ctx.program c}
          (Builds-bind (typed x)
            (λ v p. Builds-pure _ (subst (λ k. Below ctx.program k c) (sym p) b)))
          (λ o i.
            Opens-bind (visit_variable-Opens ctx r loc _ _ c o n (Holds-Below ctx.program d c b) i)
              (λ u u'. typed_variables loc vs))

    typed_branches :
        {s : Scope} {bs : Branches} {ds : List Bytes}
        → TypedBranches ctx s bs ds
        → BuiltBranches ctx s (branch_bodies sort ctx bs) ds
    typed_branches no_branch = BuiltBranches.no_more
    typed_branches (and_branch {rest} x n y nb bs) =
        BuiltBranches.and_more x.stands x.by_reference n (typed y)
          (subst (NoneBelow ctx.program _) (sym (types-branch_bodies sort ctx rest)) nb)
          (typed_branches bs)

pub evaluate-Builds :
    (sort : Sort) (ctx : Context) (s : Scope) (e : Expr) (c : Bytes)
    → KeepsSorted sort
    → IsReady ctx.program
    → Typed ctx s e c
    → Builds s (Of c) (evaluate sort ctx e)
evaluate-Builds sort ctx s e c k r x = typed sort k ctx r x

-- In a well-formed program that has the basic classes and whose value classes are right below Object, and with
-- a std::sort that leaves a range in order as it is: an expression that has a class by the typing rules, with the
-- local variables of the generator in scope and in a function whose front block is "init", is compiled if the function
-- of every method that it calls takes an object of the class of the slot. No assertion of the program fails,
-- `evaluate` returns, its result has that class, no error is logged, and the local variables are as they were.
pub evaluate-Done :
    (sort : Sort) (ctx : Context) (g : Gen) (e : Expr) (c : Bytes)
    → KeepsSorted sort
    → IsReady ctx.program
    → Typed ctx (scope g.locals) e c
    → at_init g.blocks ≡ true
    → Done (Of c) g (evaluate sort ctx e g)
evaluate-Done sort ctx g e c k r x h =
    (evaluate-Builds sort ctx (scope g.locals) e c k r x).run g refl (λ j. h)
