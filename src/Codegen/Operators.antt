-- ===== src/Codegen/Operators.antt =====
-- The visitors of operators, `new` and `isvoid` (src/codegen.cpp) on typed operands.
use lcool.Base.{
  Bool, true, false, some, ◌≡◌, ◌||◌, ◌&&◌, refl, sym, ap, ap₂, ◌∙◌, subst, Bytes, codes, equal,
  equal_refl, inl, inr,
}
use mathlib.Core.Bool.{true≢false}
use lcool.Logger.{Location}
use lcool.Ast.{isvoid, negate, logical_not, BinaryType}
use lcool.Program.{is_subclass_of}
use lcool.Program.Order.{Holds}
use lcool.Layout.Insertion.Grown.{lookup_class-name}
use lcool.Codegen.Builder.{
  Value, ValueAndCls, M, emit, Instruction, add, sub, mul, icmp_slt, icmp_sle,
}
use lcool.Codegen.Builds.{
  Scope, Any, Builds, Builds-pure, Builds-bind, Builds-then, Builds-if, Builds-emit,
  Builds-log_warning, Builds-not_null,
}
use lcool.Codegen.Classes.{is_value}
use lcool.Codegen.Visit.{
  Context, int, bool, string, null_object, check_bool, visit_new_object, visit_unary, mixed, differ,
  visit_equal, visit_arithmetic, visit_comparison, visit_binary, divide,
}
use lcool.Codegen.Ready.{IsReady, Holds-class}
use lcool.Codegen.Members.{call_global-Builds, upcast_to-then, type_of-Builds, create_object-Builds}
use lcool.Codegen.Typing.{
  is_basic, AreComparable, OnInts, adds, subtracts, multiplies, divides, lesses, less_or_equals,
}
use lcool.Codegen.Visitors.{Of}

is-equal : (a b : Bytes) → a ≡ b → equal a b ≡ true
is-equal a b e = ap (λ x. equal x b) e ∙ equal_refl b

differ_self : (b : Bool) → differ b b ≡ false
differ_self true = refl
differ_self false = refl

or-neither : (x y : Bool) → (x || y) ≡ false → (x ≡ false) × (y ≡ false)
or-neither true y h = absurd (true≢false h)
or-neither false y h = (refl, h)

mixed_self : (c : Bytes) → mixed c c ≡ false
unfolding mixed
mixed_self c =
    ap₂ ◌||◌ (differ_self (equal c bool))
      (ap₂ ◌||◌ (differ_self (equal c int)) (differ_self (equal c string)))

mixed-objects : (c d : Bytes) → is_basic c ≡ false → is_basic d ≡ false → mixed c d ≡ false
unfolding mixed is_basic
mixed-objects c d e h =
    let (a, e') = or-neither (equal c bool) (equal c int || equal c string) e in
    let (b, h') = or-neither (equal d bool) (equal d int || equal d string) h in
    let (a', a'') = or-neither (equal c int) (equal c string) e' in
    let (b', b'') = or-neither (equal d int) (equal d string) h' in
    ap₂ ◌||◌ (ap₂ differ a b) (ap₂ ◌||◌ (ap₂ differ a' b') (ap₂ differ a'' b''))

comparable-mixed : (c d : Bytes) → AreComparable c d → mixed c d ≡ false
comparable-mixed c d (inl e) = ap (λ x. mixed x d) e ∙ mixed_self d
comparable-mixed c d (inr (e, h)) = mixed-objects c d e h

module _ {s : Scope} (ctx : Context) (r : IsReady ctx.program) where
  pub check_bool-Builds :
      (loc : Location) (msg : Bytes) (v : ValueAndCls)
      → Of (codes "Bool") v
      → Builds s Any (check_bool loc msg v)
  unfolding check_bool
  check_bool-Builds loc msg v p =
      Builds-if (equal v.cls (codes "Bool")) (λ h. Builds-pure _ tt)
        (λ h. absurd (true≢false (sym (is-equal v.cls (codes "Bool") p) ∙ h)))

  pub new_object-Builds :
      (loc : Location) (c : Bytes)
      → Holds ctx.program c
      → Builds s (Of c) (visit_new_object ctx loc c)
  unfolding visit_new_object
  new_object-Builds loc c h =
      let (cls, e) = Holds-class ctx.program c h in
      let n = lookup_class-name c ctx.program cls e in
      rw (e, visit_new_object)
        (Builds-then
          (create_object-Builds ctx.program r cls.name (subst (Holds ctx.program) (sym n) h))
          (λ v. Builds-pure _ n))

  pub null_object-Builds : Builds s (Of (codes "Object")) (null_object ctx)
  unfolding null_object
  null_object-Builds =
      Builds-then (type_of-Builds ctx.program r (codes "Object") r.holds_object)
        (λ t. Builds-pure _ refl)

  pub isvoid-Builds :
      (loc : Location) (c : Bytes) (v : ValueAndCls)
      → Of c v
      → Holds ctx.program c
      → Builds s (Of (codes "Bool")) (visit_unary ctx loc isvoid v)
  unfolding visit_unary
  isvoid-Builds loc c v p h =
      Builds-then (type_of-Builds ctx.program r v.cls (subst (Holds ctx.program) (sym p) h)) (λ t.
        Builds-if (is_value t) (λ i. Builds-then (Builds-log_warning _ _) (λ u. Builds-pure _ refl))
          (λ i. Builds-then (Builds-emit _) (λ w. Builds-pure _ refl)))

  pub negate-Builds :
      (loc : Location) (v : ValueAndCls)
      → Of (codes "Int") v
      → Builds s (Of (codes "Int")) (visit_unary ctx loc negate v)
  unfolding visit_unary
  negate-Builds loc v p =
      Builds-if (equal v.cls (codes "Int"))
        (λ h. Builds-then (Builds-emit _) (λ w. Builds-pure _ refl))
        (λ h. absurd (true≢false (sym (is-equal v.cls (codes "Int") p) ∙ h)))

  pub not-Builds :
      (loc : Location) (v : ValueAndCls)
      → Of (codes "Bool") v
      → Builds s (Of (codes "Bool")) (visit_unary ctx loc logical_not v)
  unfolding visit_unary
  not-Builds loc v p =
      Builds-if (equal v.cls (codes "Bool"))
        (λ h. Builds-then (Builds-emit _) (λ w. Builds-pure _ refl))
        (λ h. absurd (true≢false (sym (is-equal v.cls (codes "Bool") p) ∙ h)))

  arithmetic-Builds :
      (loc : Location) (build : Value → Value → M Value) (a b : ValueAndCls)
      → Of (codes "Int") a
      → Of (codes "Int") b
      → ((x y : Value) → Builds s Any (build x y))
      → Builds s (Of (codes "Int")) (visit_arithmetic loc build a b)
  unfolding visit_arithmetic
  arithmetic-Builds loc build a b p q z =
      Builds-if (equal a.cls (codes "Int") && equal b.cls (codes "Int"))
        (λ h. Builds-then (z a.value b.value) (λ w. Builds-pure _ refl))
        (λ h. absurd (
          true≢false
            (sym (ap₂ ◌&&◌ (is-equal a.cls (codes "Int") p) (is-equal b.cls (codes "Int") q)) ∙ h)))

  comparison-Builds :
      (loc : Location) (build : Value → Value → Instruction) (a b : ValueAndCls)
      → Of (codes "Int") a
      → Of (codes "Int") b
      → Builds s (Of (codes "Bool")) (visit_comparison loc build a b)
  unfolding visit_comparison
  comparison-Builds loc build a b p q =
      Builds-if (equal a.cls (codes "Int") && equal b.cls (codes "Int"))
        (λ h. Builds-then (Builds-emit _) (λ w. Builds-pure _ refl))
        (λ h. absurd (
          true≢false
            (sym (ap₂ ◌&&◌ (is-equal a.cls (codes "Int") p) (is-equal b.cls (codes "Int") q)) ∙ h)))

  divide-Builds : (x y : Value) → Builds s Any (divide x y)
  unfolding divide
  divide-Builds x y = Builds-then (call_global-Builds ctx.program r _ _) (λ u. Builds-emit _)

  pub binary-OnInts :
      (loc : Location) (op : BinaryType) (c : Bytes) (a b : ValueAndCls)
      → OnInts op c
      → Of (codes "Int") a
      → Of (codes "Int") b
      → Builds s (Of c) (visit_binary ctx loc op a b)
  unfolding visit_binary
  binary-OnInts loc _ _ a b adds p q =
      arithmetic-Builds loc (λ x y. emit (add x y)) a b p q (λ x y. Builds-emit (add x y))
  binary-OnInts loc _ _ a b subtracts p q =
      arithmetic-Builds loc (λ x y. emit (sub x y)) a b p q (λ x y. Builds-emit (sub x y))
  binary-OnInts loc _ _ a b multiplies p q =
      arithmetic-Builds loc (λ x y. emit (mul x y)) a b p q (λ x y. Builds-emit (mul x y))
  binary-OnInts loc _ _ a b divides p q = arithmetic-Builds loc divide a b p q divide-Builds
  binary-OnInts loc _ _ a b lesses p q = comparison-Builds loc icmp_slt a b p q
  binary-OnInts loc _ _ a b less_or_equals p q = comparison-Builds loc icmp_sle a b p q

  pub equal-Builds :
      (loc : Location) (c d : Bytes) (a b : ValueAndCls)
      → Of c a
      → Of d b
      → AreComparable c d
      → Builds s (Of (codes "Bool")) (visit_equal ctx loc a b)
  unfolding visit_equal
  equal-Builds loc c d a b p q x =
      Builds-if (mixed a.cls b.cls)
        (λ h. absurd (true≢false (sym h ∙ ap₂ mixed p q ∙ comparable-mixed c d x)))
        (λ h.
          Builds-if (equal a.cls (codes "String"))
            (λ i. Builds-then (call_global-Builds ctx.program r _ _) (λ v. Builds-pure _ refl))
            (λ i.
              Builds-if (is_subclass_of ctx.program a.cls b.cls)
                (λ j. upcast_to-then ctx.program r _ a.cls b.cls a.value j (λ w.
                  Builds-bind (Builds-not_null (some w) w refl)
                    (λ w' k. Builds-then (Builds-emit _) (λ v. Builds-pure _ refl))))
                (λ j.
                  Builds-if (is_subclass_of ctx.program b.cls a.cls)
                    (λ k. upcast_to-then ctx.program r _ b.cls a.cls b.value k (λ w.
                      Builds-bind (Builds-not_null (some w) w refl)
                        (λ w' k. Builds-then (Builds-emit _) (λ v. Builds-pure _ refl))))
                    (λ k. Builds-then (Builds-log_warning _ _) (λ v. Builds-pure _ refl)))))
