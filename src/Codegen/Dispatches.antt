-- ===== src/Codegen/Dispatches.antt =====
-- `visit(dispatch)` and the call of a method (src/codegen.cpp, src/cool_program.cpp) on typed parts.
use lcool.Base.{
  suc, Bool, true, false, none, some, List, [], ◌∷◌, ◌≡◌, ◌==◌, ==_iff, ◌++◌, refl, sym, ap, ◌∙◌,
  subst, Bytes, length, map,
}
use mathlib.Core.Bool.{true≢false}
use lcool.Logger.{Location}
use lcool.Program.{CoolMethod, Table, is_subclass_of}
use lcool.Program.Order.{Below, Below-refl, Below-trans, Holds-Below}
use lcool.Layout.Insertion.Grown.{lookup_class-name}
use lcool.Codegen.Builder.{ValueAndCls}
use lcool.Codegen.Builds.{Scope, Any, Builds, Builds-pure, Builds-bind, Builds-then, Builds-if}
use lcool.Codegen.Classes.{call_method}
use lcool.Codegen.Visit.{Context, coerce_args, coerce_object, dispatch_to, visit_dispatch}
use lcool.Codegen.Ready.{IsReady, Below-Holds, Holds-class}
use lcool.Codegen.Members.{upcast_to-then, ensure_not_null-Builds, call_method-Builds}
use lcool.Codegen.Typing.{IsMethod, Pass, none_left, one_more}
use lcool.Codegen.Visitors.{Of, coerce-then}

abbrev pub classes : List ValueAndCls → List Bytes
classes = map (λ a. a.cls)

length-Pass :
    (t : Table) (args : List ValueAndCls) (params : List Bytes)
    → Pass t (classes args) params
    → length args ≡ length params
length-Pass t [] [] none_left = refl
length-Pass t [] (p ∷ params) x = elim x [ ]
length-Pass t (a ∷ args) [] x = elim x [ ]
length-Pass t (a ∷ args) (p ∷ params) (one_more b x) = ap suc (length-Pass t args params x)

Pass-length :
    (t : Table) (args : List ValueAndCls) (params : List Bytes)
    → Pass t (classes args) params
    → (length args == length params) ≡ true
Pass-length t args params x = (==_iff _ _).1 (length-Pass t args params x)

module _ {s : Scope} (ctx : Context) (r : IsReady ctx.program) where
  coerce_args-Builds :
      (loc : Location) (args : List ValueAndCls) (params : List Bytes)
      → Pass ctx.program (classes args) params
      → Builds s Any (coerce_args ctx loc args params)
  unfolding coerce_args
  coerce_args-Builds loc [] [] none_left = Builds-pure _ tt
  coerce_args-Builds loc [] (p ∷ params) x = elim x [ ]
  coerce_args-Builds loc (a ∷ args) [] x = elim x [ ]
  coerce_args-Builds loc (a ∷ args) (p ∷ params) (one_more b x) =
      coerce-then ctx r _ loc a p a.cls refl b
        (λ w. Builds-then (coerce_args-Builds loc args params x) (λ rest. Builds-pure _ tt))

  dispatch_to-Builds :
      (loc : Location) (name c d : Bytes) (object : ValueAndCls) (args : List ValueAndCls)
      (m : CoolMethod) (force_static : Bool)
      → Of c object
      → Below ctx.program c d
      → IsMethod ctx.program d name m
      → Pass ctx.program (classes args) m.slot.parameter_types
      → Builds s (Of m.slot.return_type) (dispatch_to ctx loc name object args d force_static)
  unfolding dispatch_to coerce_object
  dispatch_to-Builds loc name c d object args m force_static p x i y =
      let b = Below-trans ctx.program c d m.slot.declaring_class r.well_formed x i.declared_above in
      let b' = subst (λ z. Below ctx.program z m.slot.declaring_class) (sym p) b in
      rw (i.found, dispatch_to)
        (Builds-if (length args == length m.slot.parameter_types)
          (λ h.
            Builds-bind {P = λ vs. (v : ValueAndCls) × (vs ≡ v ∷ []) × Of m.slot.declaring_class v}
              (upcast_to-then ctx.program r _ object.cls m.slot.declaring_class object.value b'
                (λ w.
                  Builds-then
                    (ensure_not_null-Builds ctx.program r object.cls object.value
                      (Below-Holds ctx.program object.cls m.slot.declaring_class b'))
                    (λ u. Builds-pure _ (_, refl, refl))))
              (λ vs q. Builds-then (coerce_args-Builds loc args m.slot.parameter_types y) (λ rest.
                Builds-then {P = Any}
                  (subst
                    (λ vs'. Builds s Any (call_method ctx.program m (vs' ++ rest) force_static))
                    (sym q.1)
                    (call_method-Builds ctx.program r m q.0 rest force_static q.2 i.takes_object
                      i.stands))
                  (λ v. Builds-pure _ refl))))
          (λ h.
            absurd (true≢false (sym (Pass-length ctx.program args m.slot.parameter_types y) ∙ h))))

  pub dispatch-dynamic :
      (loc : Location) (name c : Bytes) (object : ValueAndCls) (args : List ValueAndCls)
      (m : CoolMethod)
      → Of c object
      → IsMethod ctx.program c name m
      → Pass ctx.program (classes args) m.slot.parameter_types
      → Builds s (Of m.slot.return_type) (visit_dispatch ctx loc name object none args)
  unfolding visit_dispatch
  dispatch-dynamic loc name c object args m p i y =
      subst (λ d. Builds s (Of m.slot.return_type) (dispatch_to ctx loc name object args d false))
        (sym p)
        (dispatch_to-Builds loc name c c object args m false p
          (Below-refl ctx.program c
            (Below-Holds ctx.program c m.slot.declaring_class i.declared_above))
          i y)

  pub dispatch-static :
      (loc : Location) (name c d : Bytes) (object : ValueAndCls) (args : List ValueAndCls)
      (m : CoolMethod)
      → Of c object
      → Below ctx.program c d
      → IsMethod ctx.program d name m
      → Pass ctx.program (classes args) m.slot.parameter_types
      → Builds s (Of m.slot.return_type) (visit_dispatch ctx loc name object (some d) args)
  unfolding visit_dispatch
  dispatch-static loc name c d object args m p x i y =
      let (cls, e) = Holds-class ctx.program d (Holds-Below ctx.program c d x) in
      let n = lookup_class-name d ctx.program cls e in
      rw (e, visit_dispatch)
        (Builds-if (is_subclass_of ctx.program object.cls cls.name)
          (λ h.
            subst
              (λ d'.
                Builds s (Of m.slot.return_type) (dispatch_to ctx loc name object args d' true))
              (sym n) (dispatch_to-Builds loc name c d object args m true p x i y))
          (λ h. absurd (
            true≢false (
              sym x
              ∙ ap (λ z. is_subclass_of ctx.program z d) (sym p)
              ∙ ap (is_subclass_of ctx.program object.cls) (sym n)
              ∙ h))))
