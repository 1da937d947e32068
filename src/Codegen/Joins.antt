-- ===== src/Codegen/Joins.antt =====
-- `visit(conditional)`, `visit(loop)` and the variables of `visit(let)` (src/codegen.cpp) on typed parts.
use lcool.Base.{
  ℕ, false, Option, none, some, ◌∷◌, ◌≡◌, ◌||◌, refl, sym, ap, ◌∙◌, subst, Bytes, codes, equal,
}
use mathlib.Core.Option.{none-ne-some}
use lcool.Logger.{Location}
use lcool.Program.{Table, common_ancestor}
use lcool.Program.Order.{Holds, Below, Below-antisym, Holds-Below}
use lcool.Program.Ancestor.{common_ancestor-Least}
use lcool.Layout.Insertion.Grown.{lookup_class-name}
use lcool.Codegen.Builder.{Value, ValueAndCls, M, ◌>>=◌, ◌>>◌, skip, not_null, emit, store}
use lcool.Codegen.Builds.{
  Scope, Any, Builds, Builds-pure, Builds-bind, Builds-then, Builds-if, Builds-emit,
  Builds-not_null, Builds-new_block, Builds-set_insert_point, Builds-get_insert_block,
  Builds-check_init,
}
use lcool.Codegen.Visit.{
  Context, value_and_cls, int, bool, string, default_initializer, push_new_variable,
}
use lcool.Codegen.Expr.{
  join_results, visit_conditional, visit_loop, let_initial, let_variable, visit_variable,
}
use lcool.Codegen.Ready.{IsReady, Holds-class}
use lcool.Codegen.Members.{IsSome, upcast_to-Builds, type_of-Builds, create_object-Builds}
use lcool.Codegen.Typing.{self, IsLeast}
use lcool.Codegen.Scopes.{Opens, Builds-Opens, Opens-after, Opens-push, Opens-bind}
use lcool.Codegen.Visitors.{Of, coerce-IsSome}
use lcool.Codegen.Operators.{check_bool-Builds, null_object-Builds}

-- `common_ancestor` finds the least class above both.
common_ancestor-IsLeast :
    (t : Table) (a b d : Bytes) → IsReady t → IsLeast t a b d → common_ancestor t a b ≡ some d
common_ancestor-IsLeast t a b d r x =
    let l = common_ancestor-Least t a b d r.well_formed x.above_first x.above_second in
    l.found
    ∙ ap some (
        Below-antisym t l.result d r.well_formed l.below_any
          (x.below_any l.result l.above_first l.above_second))

-- The initial value, if one is written, has a class below the variable's.
abbrev pub IsInitial : Table → Bytes → Option ValueAndCls → Type 0
IsInitial t c none = Unit {0}
IsInitial t c (some v) = Below t v.cls c

stored :
    {k : Scope} (i p : Option Value)
    → IsSome i
    → IsSome p
    → Builds k Any (elim p [ none ↦ skip | some p' ↦ do v ← not_null i; emit (store v p'); skip ])
stored i none j q = absurd (none-ne-some q.0 q.1)
stored i (some p) j q =
    Builds-then (Builds-not_null i j.0 j.1)
      (λ v. Builds-then (Builds-emit _) (λ u. Builds-pure _ tt))

module _ {s : Scope} (ctx : Context) (r : IsReady ctx.program) where
  join_results-Builds :
      (c d e : Bytes) (a b : ValueAndCls) (x y z : ℕ)
      → Of c a
      → Of d b
      → IsLeast ctx.program c d e
      → Builds s (Of e) (join_results ctx a x b y z)
  unfolding join_results
  join_results-Builds c d e a b x y z p q l =
      let found =
        ap (λ k. common_ancestor ctx.program k b.cls) p
        ∙ ap (common_ancestor ctx.program c) q
        ∙ common_ancestor-IsLeast ctx.program c d e r l in
      Builds-bind (Builds-not_null (common_ancestor ctx.program a.cls b.cls) e found) (λ k i.
        Builds-then (Builds-set_insert_point x) (λ u.
          Builds-bind
            (upcast_to-Builds ctx.program r a.cls k a.value (below a.cls k c p i l.above_first))
            (λ v j. Builds-then (Builds-emit _) (λ u. Builds-then (Builds-set_insert_point y) (λ u.
              Builds-bind
                (upcast_to-Builds ctx.program r b.cls k b.value
                  (below b.cls k d q i l.above_second))
                (λ w j'. Builds-then (Builds-emit _) (λ u.
                  Builds-then (Builds-set_insert_point z) (λ u.
                    Builds-then (type_of-Builds ctx.program r k (held k i)) (λ t.
                      Builds-then (Builds-emit _) (λ node.
                        Builds-then (Builds-not_null v j.0 j.1) (λ v'.
                          Builds-then (Builds-emit _) (λ u.
                            Builds-then (Builds-not_null w j'.0 j'.1)
                              (λ w'. Builds-then (Builds-emit _) (λ u. Builds-pure _ i))))))))))))))
    where
      below : (f k g : Bytes) → f ≡ g → k ≡ e → Below ctx.program g e → Below ctx.program f k
      below f k g p i h =
          subst (λ f'. Below ctx.program f' k) (sym p) (subst (Below ctx.program g) (sym i) h)

      held : (k : Bytes) → k ≡ e → Holds ctx.program k
      held k i = subst (Holds ctx.program) (sym i) (Holds-Below ctx.program c e l.above_first)

  pub conditional-Builds :
      (loc : Location) (c d e : Bytes) (p x y : M ValueAndCls)
      → Builds s (Of (codes "Bool")) p
      → Builds s (Of c) x
      → Builds s (Of d) y
      → IsLeast ctx.program c d e
      → Builds s (Of e) (visit_conditional ctx loc p x y)
  unfolding visit_conditional
  conditional-Builds loc c d e p x y i j k l = Builds-bind i (λ v h.
      Builds-then (check_bool-Builds ctx r loc _ v h) (λ v'.
        Builds-then (Builds-new_block _) (λ block_true.
          Builds-then (Builds-new_block _) (λ block_false.
            Builds-then (Builds-new_block _) (λ block_done. Builds-then (Builds-emit _) (λ u.
              Builds-then (Builds-set_insert_point block_true) (λ u. Builds-bind j (λ a p.
                Builds-then Builds-get_insert_block (λ exit_true.
                  Builds-then (Builds-set_insert_point block_false) (λ u. Builds-bind k (λ b q.
                    Builds-then Builds-get_insert_block (λ exit_false.
                      join_results-Builds c d e a b exit_true exit_false block_done p q
                        l))))))))))))

  pub loop-Builds :
      (loc : Location) (p x : M ValueAndCls)
      → Builds s (Of (codes "Bool")) p
      → Builds s Any x
      → Builds s (Of (codes "Object")) (visit_loop ctx loc p x)
  unfolding visit_loop
  loop-Builds loc p x i j = Builds-then (Builds-new_block _) (λ block_predicate.
      Builds-then (Builds-new_block _) (λ block_body.
        Builds-then (Builds-new_block _) (λ block_done. Builds-then (Builds-emit _) (λ u.
          Builds-then (Builds-set_insert_point block_predicate) (λ u. Builds-bind i (λ v h.
            Builds-then (check_bool-Builds ctx r loc _ v h) (λ v'. Builds-then (Builds-emit _) (λ u.
              Builds-then (Builds-set_insert_point block_body) (λ u. Builds-then j (λ a.
                Builds-then (Builds-emit _) (λ u.
                  Builds-then (Builds-set_insert_point block_done)
                    (λ u. null_object-Builds ctx r))))))))))))

  pub default_initializer-Builds :
      (c : Bytes) → Holds ctx.program c → Builds s Any (default_initializer ctx.program c)
  unfolding default_initializer
  default_initializer-Builds c h =
      Builds-if (equal c int || (equal c bool || equal c string))
        (λ i. create_object-Builds ctx.program r c h)
        (λ i. Builds-then (type_of-Builds ctx.program r c h) (λ t. Builds-pure _ tt))

  let_initial-IsSome :
      (loc : Location) (c : Bytes) (o : Option ValueAndCls)
      → Holds ctx.program c
      → IsInitial ctx.program c o
      → Builds s IsSome (let_initial ctx loc o c)
  unfolding let_initial
  let_initial-IsSome loc c none h x =
      Builds-then (default_initializer-Builds c h) (λ v. Builds-pure _ (v, refl))
  let_initial-IsSome loc c (some v) h x = coerce-IsSome ctx r loc v c x

  pub push_new_variable-Opens :
      (loc : Location) (id c : Bytes)
      → equal id self ≡ false
      → Holds ctx.program c
      → Opens s ((id, c) ∷ s) 1 IsSome (push_new_variable ctx loc id c)
  unfolding push_new_variable
  push_new_variable-Opens loc id c n h =
      rw (n, push_new_variable)
        (Opens-after Builds-check_init (λ u u'. Opens-after Builds-get_insert_block (λ saved u.
          Opens-after (Builds-set_insert_point 0) (λ u u'.
            Opens-after (type_of-Builds ctx.program r c h) (λ t u.
              Opens-after (Builds-emit _) (λ p u.
                Opens-after (Builds-set_insert_point saved) (λ u u'.
                  Opens-bind (Opens-push id (value_and_cls p c))
                    (λ u u'. Builds-Opens (Builds-pure _ (p, refl))))))))))

  let_variable-Opens :
      (loc var_loc : Location) (id c : Bytes) (o : Option ValueAndCls)
      → equal id self ≡ false
      → Holds ctx.program c
      → IsInitial ctx.program c o
      → Opens s ((id, c) ∷ s) 1 Any (let_variable ctx loc var_loc id o c)
  unfolding let_variable
  let_variable-Opens loc var_loc id c o n h x = Opens-after (let_initial-IsSome loc c o h x) (λ i j.
      Opens-bind (push_new_variable-Opens var_loc id c n h) (λ p q. Builds-Opens (stored i p j q)))

  pub visit_variable-Opens :
      (loc var_loc : Location) (id c : Bytes) (o : Option ValueAndCls)
      → equal id self ≡ false
      → Holds ctx.program c
      → IsInitial ctx.program c o
      → Opens s ((id, c) ∷ s) 1 Any (visit_variable ctx loc var_loc id c o)
  unfolding visit_variable
  visit_variable-Opens loc var_loc id c o n h x =
      let (cls, e) = Holds-class ctx.program c h in
      rw (e, visit_variable)
        (subst (λ k. Opens s ((id, c) ∷ s) 1 Any (let_variable ctx loc var_loc id o k))
          (sym (lookup_class-name c ctx.program cls e))
          (let_variable-Opens loc var_loc id c o n h x))
