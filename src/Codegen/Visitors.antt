-- ===== src/Codegen/Visitors.antt =====
-- The visitors of src/codegen.cpp on typed parts: each returns a value of the class of its rule.
use lcool.Base.{false, Option, none, some, ◌≡◌, refl, sym, ap, ◌∙◌, subst, Bytes, equal}
use mathlib.Core.Bool.{true≢false}
use lcool.Logger.{Location}
use lcool.Program.{CoolAttribute, lookup_attribute}
use lcool.Program.Order.{Below}
use lcool.Codegen.Builder.{Value, ValueAndCls, M, ◌>>=◌}
use lcool.Codegen.Builds.{
  Scope, Any, Builds, Builds-pure, Builds-bind, Builds-then, Builds-if, Builds-emit,
}
use lcool.Codegen.Visit.{
  Context, load_attribute, store_attribute, get_slot_pointer, coerce, load_self, visit_identifier,
  lookup_member, assign_attribute, visit_assign,
}
use lcool.Codegen.Ready.{IsReady}
use lcool.Codegen.Members.{IsSome, class_of-Builds, upcast_to-then}
use lcool.Codegen.Typing.{class_in, self, IsAttribute}
use lcool.Codegen.Locals.{get-then, get-none-then}

-- A value of the class.
abbrev pub Of : Bytes → ValueAndCls → Type 0
Of c r = r.cls ≡ c

module _ {s : Scope} (ctx : Context) (r : IsReady ctx.program) where
  pub load_self-Builds : (c : Bytes) → class_in self s ≡ some c → Builds s (Of c) load_self
  unfolding load_self
  load_self-Builds c e =
      get-then _ self c e (λ info p. Builds-then (Builds-emit _) (λ v. Builds-pure _ p))

  pub coerce-IsSome :
      (loc : Location) (v : ValueAndCls) (to : Bytes)
      → Below ctx.program v.cls to
      → Builds s IsSome (coerce ctx loc v to)
  unfolding coerce
  coerce-IsSome loc v to x =
      upcast_to-then ctx.program r _ v.cls to v.value x (λ w. Builds-pure _ (w, refl))

  -- A conversion whose result goes on.
  pub coerce-then :
      {B : Type 0} {Q : B → Type 0} (f : Option Value → M B) (loc : Location) (v : ValueAndCls)
      (to c : Bytes)
      → Of c v
      → Below ctx.program c to
      → ((w : Value) → Builds s Q (f (some w)))
      → Builds s Q (coerce ctx loc v to >>= f)
  coerce-then {Q} f loc v to c p x y =
      Builds-bind (coerce-IsSome loc v to (subst (λ d. Below ctx.program d to) (sym p) x))
        (λ o q. subst (λ o'. Builds s Q (f o')) (sym q.1) (y q.0))

  lookup_member-then :
      {B : Type 0} {Q : B → Type 0} (f : Option CoolAttribute → M B) (id : Bytes)
      (a : CoolAttribute)
      → IsAttribute ctx id a
      → Builds s Q (f (some a))
      → Builds s Q (lookup_member ctx id >>= f)
  lookup_member-then {Q} f id a x y =
      Builds-bind
        (Builds-bind (class_of-Builds ctx.program r ctx.declaring_cls x.cls x.stands) (λ d p.
          Builds-pure {P = λ o. o ≡ some a} _ (ap (λ c. lookup_attribute c id) p ∙ x.found)))
        (λ o q. subst (λ o'. Builds s Q (f o')) (sym q) y)

  pub identifier-variable :
      (loc : Location) (id c : Bytes)
      → class_in id s ≡ some c
      → Builds s (Of c) (visit_identifier ctx loc id)
  unfolding visit_identifier
  identifier-variable loc id c e =
      get-then _ id c e (λ info p. Builds-then (Builds-emit _) (λ v. Builds-pure _ p))

  pub identifier-attribute :
      (loc : Location) (id d : Bytes) (a : CoolAttribute)
      → class_in id s ≡ none
      → IsAttribute ctx id a
      → class_in self s ≡ some d
      → Builds s (Of a.type) (visit_identifier ctx loc id)
  unfolding visit_identifier load_attribute get_slot_pointer
  identifier-attribute loc id d a e x h = get-none-then _ id e (
      lookup_member-then _ id a x (
        Builds-then (load_self-Builds d h) (λ v.
          Builds-then (Builds-then (Builds-emit _) (λ p. Builds-emit _))
            (λ w. Builds-pure _ refl))))

  pub assign-variable :
      (loc : Location) (id c d : Bytes) (v : ValueAndCls)
      → Of c v
      → equal id self ≡ false
      → class_in id s ≡ some d
      → Below ctx.program c d
      → Builds s (Of c) (visit_assign ctx loc id v)
  unfolding visit_assign
  assign-variable loc id c d v p n e x =
      Builds-if (equal id self) (λ h. absurd (true≢false (sym h ∙ n)))
        (λ h. get-then _ id d e (λ info q.
          coerce-then _ loc v info.cls c p (subst (Below ctx.program c) (sym q) x)
            (λ w. Builds-then (Builds-emit _) (λ u. Builds-pure _ p))))

  pub assign-attribute :
      (loc : Location) (id c d : Bytes) (a : CoolAttribute) (v : ValueAndCls)
      → Of c v
      → equal id self ≡ false
      → class_in id s ≡ none
      → IsAttribute ctx id a
      → Below ctx.program c a.type
      → class_in self s ≡ some d
      → Builds s (Of d) (visit_assign ctx loc id v)
  unfolding visit_assign assign_attribute store_attribute get_slot_pointer
  assign-attribute loc id c d a v p n e x b h =
      Builds-if (equal id self) (λ k. absurd (true≢false (sym k ∙ n)))
        (λ k. get-none-then _ id e (
          lookup_member-then _ id a x (
            coerce-then _ loc v a.type c p b (λ w. Builds-bind (load_self-Builds d h) (λ o q.
              Builds-then
                (Builds-then (Builds-emit _)
                  (λ u. Builds-then (Builds-emit _) (λ u'. Builds-pure {P = Any} _ tt)))
                (λ u. Builds-pure _ q))))))
