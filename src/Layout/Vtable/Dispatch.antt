-- ===== src/Layout/Vtable/Dispatch.antt =====
-- A call through a vtable slot reaches the method that `lookup_method` finds (src/layout.cpp).
use lcool.Base.{
  ◌≡◌, refl, sym, ap, ◌∙◌, true, false, Option, none, some, List, [], ◌∷◌, Bytes, equal, equal→eq,
  equal_refl, Bool-cases, Option-cases, inl, inr, subst, if◌then◌else◌,
}
use mathlib.Core.Option.{none-ne-some, some-injective}
use lcool.Base.Options.{◌>>=◌, >>=-some}
use lcool.Program.{CoolClass, CoolMethod, Table, lookup_class, lookup_method}
use lcool.Program.Order.{
  Holds, IsWellFormed, newer, HasParent, Below, Below-here, Below-there, Below-refl, Below-parent,
  Holds-Below, parent_below-some, fresh-name, is_subclass_of-there, lookup_class-here,
  lookup_class-there,
}
use lcool.Layout.Vtable.{
  Entry, nested, Vtable, object_entries, entries_loop, create_partial_vtable_init, create_vtable,
}
use lcool.Layout.Vtable.Fits.{IsLaidOut, laid_out, first_class, lookup_method-same_slot}
use lcool.Layout.Vtable.Entries.{
  Introduces, Unshared, Answered, HasEntry, HasEntries, entries_loop-HasEntries,
}
use lcool.Layout.Methods.Slotted.{find_method-name}

abbrev pub find_part : Bytes → Vtable → Option (List Entry)
find_part n [] = none
find_part n ((k, es) ∷ v) = if equal k n then some es else find_part n v

module _ (program : Table) (top : CoolClass) where
  -- The vtable has a part for every superclass that is not final, with an entry for every slot of that
  -- class.
  abbrev pub HasParts : Table → Bytes → Vtable → Type 0
  HasParts t a v =
      (c : CoolClass)
      → Below t a c.name
      → lookup_class c.name t ≡ some c
      → c.final ≡ false
      → (n : Bytes) (m : CoolMethod) → Introduces c.name c.methods n m
      → (es : List Entry) × (find_part c.name v ≡ some es) × HasEntry program top.name es m

  abbrev AllAnswered : Table → Bytes → Type 0
  AllAnswered t a =
      (c : CoolClass)
      → Below t a c.name
      → lookup_class c.name t ≡ some c
      → Answered program top.name c.name c.methods

  -- The part of the class that is looked at, and the parts of its superclasses behind it.
  HasParts-first :
      (x : CoolClass) (older : Table) (a : Bytes) (es₀ es : List Entry) (v : Vtable)
      → equal x.name a ≡ true
      → lookup_class x.name older ≡ none
      → (x.final ≡ false → Unshared x.name x.methods)
      → HasEntries program top.name x.name x.methods es₀ es
      → ((q : Bytes) → x.parent ≡ some q → HasParts older q v)
      → HasParts (x ∷ older) a ((x.name, es) ∷ v)
  HasParts-first x older a es₀ es v e f u h rest c b k z n m o =
      elim (Below-here x older a c.name e b) [
        | inl i ↦
            let y = first_class x older a c e i k in
            (
              es,
              rw (subst (λ b. equal x.name b ≡ true) i e) refl,
              h.entered (u (subst (λ (z : CoolClass). z.final ≡ false) (sym y) z)) n m
                  (subst (λ (z : CoolClass). Introduces z.name z.methods n m) (sym y) o),
            )
        | inr (ne, y) ↦
            let (q, i, b') = parent_below-some x.parent older c.name y in
            let g = fresh-name x older c.name f (Holds-Below older q c.name b') in
            let (es', j, r) =
              rest q i c b' (sym (lookup_class-there x older c.name g) ∙ k) z n m o in
            (es', rw g j, r)
      ]

module _ (program : Table) (top : CoolClass) (parent : Bytes) where
  init-there :
      (x : CoolClass) (older : Table) (a : Bytes)
      → equal x.name a ≡ false
      → create_partial_vtable_init program top parent (x ∷ older) a
        ≡ create_partial_vtable_init program top parent older a
  unfolding create_partial_vtable_init
  init-there x older a e = rw (e, create_partial_vtable_init) refl

  init-root :
      (x : CoolClass) (older : Table) (a : Bytes) (es : List Entry)
      → equal x.name a ≡ true
      → x.parent ≡ none
      → entries_loop program top.name x.name x.methods (object_entries top parent x) ≡ some es
      → create_partial_vtable_init program top parent (x ∷ older) a ≡ some ((x.name, es) ∷ [])
  unfolding create_partial_vtable_init
  init-root x older a es e i l = rw (e, i, l, create_partial_vtable_init) refl

  init-child :
      (x : CoolClass) (older : Table) (a q : Bytes) (es : List Entry) (v : Vtable)
      → equal x.name a ≡ true
      → x.parent ≡ some q
      → create_partial_vtable_init program top parent older q ≡ some v
      → entries_loop program top.name x.name x.methods (nested ∷ []) ≡ some es
      → create_partial_vtable_init program top parent (x ∷ older) a ≡ some ((x.name, es) ∷ v)
  unfolding create_partial_vtable_init
  init-child x older a q es v e i l k = rw (e, i, l, ◌>>=◌, k, create_partial_vtable_init) refl

  pub create_partial_vtable_init-HasParts :
      (t : Table) (a : Bytes)
      → IsWellFormed t
      → IsLaidOut t
      → Holds t a
      → AllAnswered program top t a
      → (v : Vtable) × (create_partial_vtable_init program top parent t a ≡ some v)
        × HasParts program top t a v
  unfolding lookup_class
  create_partial_vtable_init-HasParts [] a w s holds ans = absurd (holds refl)
  create_partial_vtable_init-HasParts (x ∷ older) a (newer f p w) (laid_out h s) holds ans =
      elim (Bool-cases (equal x.name a)) [
        | inr e ↦
            let (v, q, parts) =
              create_partial_vtable_init-HasParts older a w s
                (λ z. holds (lookup_class-there x older a e ∙ z))
                (λ c b k. ans c (is_subclass_of-there x older a c.name e ∙ b) (ahead c a b k)) in
            (
              v,
              init-there x older a e ∙ q,
              λ c b k. let b' = Below-there x older a c.name e b in parts c b' (behind c a b' k),
            )
        | inl e ↦ elim (Option-cases x.parent) [
          | inl i ↦
              let (es, l, g) = entries e (object_entries top parent x) in
              (
                (x.name, es) ∷ [],
                init-root x older a es e i l,
                HasParts-first program top x older a _ es [] e f h.unshared g
                    (λ q j. absurd (none-ne-some q (sym i ∙ j))),
              )
          | inr (q, i) ↦
              let (v, l, parts) =
                create_partial_vtable_init-HasParts older q w s (subst (λ o. HasParent o older) i p)
                  (λ c b k. ans c (Below-parent x older a c.name q e i b) (ahead c q b k)) in
              let (es, l', g) = entries e (nested ∷ []) in
              (
                (x.name, es) ∷ v,
                init-child x older a q es v e i l l',
                HasParts-first program top x older a _ es v e f h.unshared g (λ q' j.
                    subst (λ o. HasParts program top older o v) (some-injective q q' (sym i ∙ j))
                      parts),
              )
        ]
      ]
    where
      entries :
          equal x.name a ≡ true
          → (es : List Entry)
          → (es' : List Entry) × (entries_loop program top.name x.name x.methods es ≡ some es')
            × HasEntries program top.name x.name x.methods es es'
      entries e es =
          let at_x = equal→eq x.name a e in
          entries_loop-HasEntries program top.name x.name x.methods es h.keyed (
            ans x
              (subst (λ b. Below (x ∷ older) b x.name) at_x
                (Below-refl (x ∷ older) x.name (λ z.
                  none-ne-some x (sym z ∙ lookup_class-here x older x.name (equal_refl x.name)))))
              (lookup_class-here x older x.name (equal_refl x.name)))

      ahead :
          (c : CoolClass) (b : Bytes)
          → Below older b c.name
          → lookup_class c.name older ≡ some c
          → lookup_class c.name (x ∷ older) ≡ some c
      ahead c b y k =
          lookup_class-there x older c.name
            (fresh-name x older c.name f (Holds-Below older b c.name y))
          ∙ k

      behind :
          (c : CoolClass) (b : Bytes)
          → Below older b c.name
          → lookup_class c.name (x ∷ older) ≡ some c
          → lookup_class c.name older ≡ some c
      behind c b y k =
          sym (
            lookup_class-there x older c.name
              (fresh-name x older c.name f (Holds-Below older b c.name y)))
          ∙ k

-- In a well-formed program whose classes are laid out, `create_vtable` returns for a class that has a
-- parent. The vtable has a part for every superclass of the class that is not final, and there, at the
-- index of every slot of that superclass, the function of the method that `lookup_method` finds for the
-- class under the name of the slot, whose slot it is.
pub create_vtable-HasParts :
    (t : Table) (top : CoolClass) (p : Bytes)
    → IsWellFormed t
    → IsLaidOut t
    → lookup_class top.name t ≡ some top
    → top.parent ≡ some p
    → (v : Vtable) × (create_vtable t top ≡ some v) × HasParts t top t top.name v
unfolding create_vtable
create_vtable-HasParts t top p w s k i =
    let (v, q, parts) =
      create_partial_vtable_init-HasParts t top p t top.name w s (λ n. none-ne-some top (sym n ∙ k))
        (λ c b l n m (f, o).
          let (r, j, same) = lookup_method-same_slot t top.name n c m w s b l f in
          (r, (ap (lookup_method t top.name) (find_method-name n c.methods m f) ∙ j, same))) in
    (v, >>=-some _ _ i q, parts)
