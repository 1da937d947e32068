-- ===== src/Codegen/Cases.antt =====
-- `visit(type_case)` (src/codegen.cpp) on typed branches that stand with subclasses first.
use lcool.Base.{
  true, ℕ, suc, false, not, Option, none, some, List, [], ◌∷◌, ◌++◌, ◌≡◌, refl, sym, ap, ◌∙◌, subst,
  Bytes, codes, equal, append_assoc, append-nil,
}
use mathlib.Core.Bool.{true≢false}
use mathlib.Core.Option.{none-ne-some}
use mathlib.Core.List.{cons-ne-nil}
use lcool.Logger.{Location}
use lcool.Program.{
  LlvmType, int1, int32, pointer, CoolClass, Table, lookup_class, is_subclass_of, common_ancestor,
}
use lcool.Program.Order.{Holds, Below, Below-refl, Below-trans, Below-antisym, Holds-Below}
use lcool.Program.Ancestor.{common_ancestor-Least}
use lcool.Codegen.Builder.{Value, ValueAndCls, pure, new_block}
use lcool.Codegen.Builds.{
  Scope, Any, Builds, Builds-pure, Builds-bind, Builds-then, Builds-if, Builds-emit,
  Builds-not_null, Builds-new_block, Builds-set_insert_point, Builds-get_insert_block,
  Builds-log_warning, Builds-weaken, Builds-returned,
}
use lcool.Codegen.Classes.{is_value, type_of, downcast, cast_pointer}
use lcool.Codegen.Visit.{Context}
use lcool.Codegen.Case.{
  Branch, CaseData, Sort, branch_before, llvm_object_vtable, test_branch, value_branch, join,
  case_loop, incoming_loop, case_blocks, visit_case,
}
use lcool.Codegen.Ready.{IsReady, Below-Holds}
use lcool.Codegen.Members.{
  class_of-Builds, call_global-Builds, upcast_to-then, object_value-Builds, type_of-Builds,
  ensure_not_null-Builds,
}
use lcool.Codegen.Typing.{IsReference, AllBelow, IsLeastOf}
use lcool.Codegen.Scopes.{Builds-branch}
use lcool.Codegen.Visitors.{Of}
use lcool.Codegen.Joins.{push_new_variable-Opens}
use lcool.Codegen.Branches.{
  KeepsSorted, BuiltBranches, no_more, and_more, types, entry, numbered, numbered-IsSorted,
  resolve_branches-numbered, nothing_found,
}

AllBelow-trans :
    (t : Table) (ks : List Bytes) (d e : Bytes)
    → IsReady t
    → AllBelow t ks d
    → Below t d e
    → AllBelow t ks e
AllBelow-trans t [] d e r x y = tt
AllBelow-trans t (k ∷ ks) d e r (x, xs) y =
    (Below-trans t k d e r.well_formed x y, AllBelow-trans t ks d e r xs y)

AllBelow-snoc :
    (t : Table) (ks : List Bytes) (k d : Bytes)
    → AllBelow t ks d
    → Below t k d
    → AllBelow t (ks ++ k ∷ []) d
AllBelow-snoc t [] k d x y = (y, tt)
AllBelow-snoc t (a ∷ ks) k d (x, xs) y = (x, AllBelow-snoc t ks k d xs y)

abbrev exit_classes : List (ValueAndCls × ℕ) → List Bytes
exit_classes [] = []
exit_classes (x ∷ rest) = x.0.cls ∷ exit_classes rest

exit_classes-snoc :
    (xs : List (ValueAndCls × ℕ)) (x : ValueAndCls × ℕ)
    → exit_classes (xs ++ x ∷ []) ≡ exit_classes xs ++ x.0.cls ∷ []
exit_classes-snoc [] x = refl
exit_classes-snoc (y ∷ xs) x = ap (λ ks. y.0.cls ∷ ks) (exit_classes-snoc xs x)

-- The class of the result so far is below `d`, and above those of the branches done.
abbrev IsUpper : Table → Bytes → Option Bytes → List (ValueAndCls × ℕ) → Type 0
IsUpper t d none exits = exits ≡ []
IsUpper t d (some x) exits = Below t x d × AllBelow t (exit_classes exits) x

record Joined (t : Table) (d k : Bytes) (final : Option Bytes) (f : Bytes) : Type 0 where
  pub above_branch : Below t k f
  pub below : Below t f d
  pub above_final :
      (exits : List (ValueAndCls × ℕ)) → IsUpper t d final exits → AllBelow t (exit_classes exits) f

module _ (ctx : Context) (r : IsReady ctx.program) (vt : ctx.has_vtable_type ≡ true) where
  llvm_object_vtable-Builds : {s : Scope} (cls : Bytes) → Builds s Any (llvm_object_vtable ctx cls)
  unfolding llvm_object_vtable
  llvm_object_vtable-Builds cls =
      Builds-if ctx.has_vtable_type (λ e. Builds-pure _ tt) (λ e. absurd (true≢false (sym vt ∙ e)))

  test_branch-Builds :
      {s : Scope} (loc : Location) (value : ValueAndCls) (cls : Bytes) (enter next : ℕ)
      → Holds ctx.program value.cls
      → Builds s Any (test_branch ctx loc value cls enter next)
  unfolding test_branch
  test_branch-Builds loc value cls enter next h =
      Builds-if (is_subclass_of ctx.program value.cls cls)
        (λ i. Builds-then (Builds-emit _) (λ u. Builds-pure _ tt))
        (λ i.
          Builds-if (not (is_subclass_of ctx.program cls value.cls))
            (λ j.
              Builds-then (Builds-log_warning loc _)
                (λ u. Builds-then (Builds-emit _) (λ u. Builds-pure _ tt)))
            (λ j. Builds-then (object_value-Builds ctx.program r value.cls value.value h) (λ o.
              Builds-then (llvm_object_vtable-Builds cls) (λ w.
                Builds-then (Builds-emit _)
                  (λ v. Builds-then (Builds-emit _) (λ u. Builds-pure _ tt))))))

  cast_pointer-Builds :
      {s : Scope} (v : Value) (from to : LlvmType)
      → is_value from ≡ false
      → Builds s Any (cast_pointer v from to)
  unfolding cast_pointer
  cast_pointer-Builds v (pointer p) to i = Builds-emit _
  cast_pointer-Builds v int1 to i = absurd (true≢false i)
  cast_pointer-Builds v int32 to i = absurd (true≢false i)

  downcast_value-Builds :
      {s : Scope} (c : Bytes) (cls : CoolClass) (from : LlvmType) (v : Value)
      → lookup_class c ctx.program ≡ some cls
      → is_value cls.llvm_type ≡ false
      → is_value from ≡ false
      → Builds s Any (downcast ctx.program c from v)
  unfolding downcast
  downcast_value-Builds c cls from v e i j =
      Builds-bind (class_of-Builds ctx.program r c cls e) (λ d p.
        Builds-if (is_value d.llvm_type)
          (λ h. absurd (true≢false (sym h ∙ ap (λ k. is_value k.llvm_type) p ∙ i)))
          (λ h. cast_pointer-Builds v from d.llvm_type j))

  value_branch-Builds :
      {s : Scope} (loc : Location) (value : ValueAndCls) (i : ℕ) (b : Branch) (cls : CoolClass)
      (k : Bytes) (phi_block : ℕ)
      → IsReference ctx.program value.cls
      → lookup_class b.type ctx.program ≡ some cls
      → is_value cls.llvm_type ≡ false
      → equal b.id (codes "self") ≡ false
      → Builds ((b.id, b.type) ∷ s) (Of k) b.body
      → Builds s (λ x. x.0.cls ≡ k) (value_branch ctx loc value (entry i b) phi_block)
  unfolding value_branch type_of
  value_branch-Builds loc value i b cls k phi_block x e v n y =
      Builds-branch _
        (push_new_variable-Opens ctx r loc b.id b.type n (λ z. none-ne-some cls (sym z ∙ e)))
        (λ p.
          Builds-bind
            (Builds-bind {Q = λ ty. is_value ty ≡ false}
              (class_of-Builds ctx.program r value.cls x.cls x.stands)
              (λ d q. Builds-pure _ (ap (λ z. is_value z.llvm_type) q ∙ x.by_reference)))
            (λ ty j.
              Builds-then (downcast_value-Builds b.type cls ty value.value e v j)
                (λ w. Builds-then (Builds-emit _) (λ u. Builds-pure _ tt))))
        y
        (λ result q.
          Builds-then Builds-get_insert_block
            (λ exit. Builds-then (Builds-emit _) (λ u. Builds-pure _ q)))

  join-Joined :
      {s : Scope} (final : Option Bytes) (k d : Bytes) (exits : List (ValueAndCls × ℕ))
      → IsUpper ctx.program d final exits
      → Below ctx.program k d
      → Builds s (Joined ctx.program d k final) (join ctx.program final k)
  unfolding join
  join-Joined none k d exits x y = Builds-pure _ (record {
    above_branch = Below-refl ctx.program k (Below-Holds ctx.program k d y);
    below = y;
    above_final = λ es e. subst (λ es'. AllBelow ctx.program (exit_classes es') k) (sym e) tt;
  })
  join-Joined (some a) k d exits (x, xs) y =
      let l = common_ancestor-Least ctx.program a k d r.well_formed x y in
      Builds-weaken (Builds-not_null (common_ancestor ctx.program a k) l.result l.found) (λ f p.
        subst (Joined ctx.program d k (some a)) (sym p) (record {
          above_branch = l.above_second;
          below = l.below_any;
          above_final =
              λ es z. AllBelow-trans ctx.program (exit_classes es) a l.result r z.1 l.above_first;
        }))

  -- What the loop over the branches gives, after those of the exits.
  abbrev pub Ends : Bytes → List Bytes → Option Bytes × List (ValueAndCls × ℕ) → Type 0
  Ends d ks res = IsUpper ctx.program d res.0 res.1 × (exit_classes res.1 ≡ ks)

  next_block-Builds :
      {s : Scope} (fail_block : ℕ) (rest : List CaseData)
      → Builds s Any
          (elim rest [ [] ↦ pure fail_block | d' ∷ rest' ↦ new_block (codes "case_test") ])
  next_block-Builds fail_block [] = Builds-pure _ tt
  next_block-Builds fail_block (d ∷ rest) = Builds-new_block _

  case_loop-Ends :
      {s : Scope} (loc : Location) (value : ValueAndCls) (d : Bytes) (fail_block phi_block i : ℕ)
      (branches : List Branch) (ks : List Bytes) (test : ℕ) (final : Option Bytes)
      (exits : List (ValueAndCls × ℕ))
      → IsReference ctx.program value.cls
      → BuiltBranches ctx s branches ks
      → AllBelow ctx.program ks d
      → IsUpper ctx.program d final exits
      → Builds s
          (Ends d (exit_classes exits ++ ks))
          (case_loop ctx loc value fail_block phi_block (numbered i branches) test final exits)
  unfolding case_loop
  case_loop-Ends loc value d fail_block phi_block i [] _ test final exits x no_more bs u =
      Builds-pure _ (u, sym (append-nil (exit_classes exits)))
  case_loop-Ends {s} loc value d fail_block phi_block i (b ∷ rest) _ test final exits x
        (and_more {k} {ks} {cls} e v n y nb xs) (h, hs) u =
      Builds-then (Builds-new_block _) (λ enter.
        Builds-then (next_block-Builds fail_block (numbered (suc i) rest)) (λ next.
          Builds-then (Builds-set_insert_point test) (λ u'.
            Builds-then
              (test_branch-Builds loc value b.type enter next
                (λ z. none-ne-some x.cls (sym z ∙ x.stands)))
              (λ u'. Builds-then (Builds-set_insert_point enter) (λ u'.
                Builds-bind (value_branch-Builds loc value i b cls k phi_block x e v n y) (λ exit p.
                  Builds-bind
                    (join-Joined final exit.0.cls d exits u
                      (subst (λ z. Below ctx.program z d) (sym p) h))
                    (λ f j.
                      Builds-weaken
                        (case_loop-Ends loc value d fail_block phi_block (suc i) rest ks next
                          (some f) (exits ++ exit ∷ []) x xs hs
                          (
                            j.below,
                            subst (λ z. AllBelow ctx.program z f)
                                (sym (exit_classes-snoc exits exit))
                                (AllBelow-snoc ctx.program (exit_classes exits) exit.0.cls f
                                  (j.above_final exits u) j.above_branch),
                          ))
                        (λ res q. (
                          q.0,
                          q.1
                              ∙ ap (λ z. z ++ ks) (exit_classes-snoc exits exit)
                              ∙ append_assoc (exit_classes exits) (exit.0.cls ∷ []) ks
                              ∙ ap (λ z. exit_classes exits ++ z ∷ ks) p,
                        )))))))))

  incoming_loop-Builds :
      {s : Scope} (node : Value) (f : Bytes) (exits : List (ValueAndCls × ℕ))
      → AllBelow ctx.program (exit_classes exits) f
      → Builds s Any (incoming_loop ctx node f exits)
  unfolding incoming_loop
  incoming_loop-Builds node f [] h = Builds-pure _ tt
  incoming_loop-Builds node f ((v, exit) ∷ rest) (h, hs) =
      Builds-then (Builds-set_insert_point exit) (λ u.
        upcast_to-then ctx.program r _ v.cls f v.value h (λ w.
          Builds-bind (Builds-not_null (some w) w refl)
            (λ w' p. Builds-then (Builds-emit _) (λ u. incoming_loop-Builds node f rest hs))))

  -- What the loop ends with, where there was a branch.
  ended :
      (d k : Bytes) (ks : List Bytes) (final : Option Bytes) (exits : List (ValueAndCls × ℕ))
      → IsLeastOf ctx.program (k ∷ ks) d
      → Ends d (k ∷ ks) (final, exits)
      → (final ≡ some d) × AllBelow ctx.program (exit_classes exits) d
  ended d k ks none exits l (u, e) = absurd (cons-ne-nil k ks (sym e ∙ ap exit_classes u))
  ended d k ks (some f) exits l ((x, xs), e) =
      let s =
        Below-antisym ctx.program f d r.well_formed x
          (l.below_any f (subst (λ z. AllBelow ctx.program z f) e xs)) in
      (ap some s, subst (λ z. AllBelow ctx.program (exit_classes exits) z) s xs)

  case_blocks-Builds :
      {s : Scope} (loc : Location) (value : ValueAndCls) (i : ℕ) (branches : List Branch)
      (k : Bytes) (ks : List Bytes) (d : Bytes)
      → IsReference ctx.program value.cls
      → BuiltBranches ctx s branches (k ∷ ks)
      → IsLeastOf ctx.program (k ∷ ks) d
      → Builds s (Of d) (case_blocks ctx loc value (numbered i branches))
  unfolding case_blocks
  case_blocks-Builds {s} loc value i branches k ks d x bs l =
      Builds-then
        (ensure_not_null-Builds ctx.program r value.cls value.value
          (λ z. none-ne-some x.cls (sym z ∙ x.stands)))
        (λ u. Builds-then (Builds-new_block _) (λ test. Builds-then (Builds-emit _) (λ u.
          Builds-then (Builds-new_block _) (λ fail_block.
            Builds-then (Builds-new_block _) (λ phi_block.
              Builds-bind
                (case_loop-Ends loc value d fail_block phi_block i branches (k ∷ ks) test none [] x
                  bs l.above refl)
                (λ res e.
                  let (p, h) = ended d k ks res.0 res.1 l e in
                  Builds-bind (Builds-not_null res.0 d p) (λ f q.
                    Builds-then (Builds-set_insert_point phi_block) (λ u.
                      Builds-then
                        (type_of-Builds ctx.program r f (
                          subst (Holds ctx.program) (sym q)
                            (Holds-Below ctx.program k d l.above.0)))
                        (λ ty. Builds-then (Builds-emit _) (λ node.
                          Builds-then
                            (incoming_loop-Builds node f res.1
                              (subst (AllBelow ctx.program (exit_classes res.1)) (sym q) h))
                            (λ u. Builds-then (Builds-set_insert_point fail_block) (λ u.
                              Builds-then (call_global-Builds ctx.program r _ _) (λ u.
                                Builds-then (Builds-emit _) (λ u.
                                  Builds-then (Builds-set_insert_point phi_block)
                                    (λ u. Builds-pure _ q)))))))))))))))

  pub visit_case-Builds :
      {s : Scope} (sort : Sort) (loc : Location) (value : ValueAndCls) (branches : List Branch)
      (k : Bytes) (ks : List Bytes) (d : Bytes)
      → KeepsSorted sort
      → IsReference ctx.program value.cls
      → BuiltBranches ctx s branches (k ∷ ks)
      → IsLeastOf ctx.program (k ∷ ks) d
      → Builds s (Of d) (visit_case sort ctx loc value branches)
  unfolding visit_case
  visit_case-Builds {s} sort loc value [] k ks d y x bs l = elim bs [ ]
  visit_case-Builds {s} sort loc value (b ∷ rest) k ks d y x bs l =
      rw
        (resolve_branches-numbered ctx r loc (b ∷ rest) [] (k ∷ ks) bs
          (nothing_found (types (b ∷ rest))))
        (Builds-returned (numbered 0 (b ∷ rest)) _ (
          rw
            (y.keeps (branch_before ctx.program) (numbered 0 (b ∷ rest))
              (numbered-IsSorted ctx r 0 (b ∷ rest) (k ∷ ks) bs))
            (case_blocks-Builds loc value 0 (b ∷ rest) k ks d x bs l)))
