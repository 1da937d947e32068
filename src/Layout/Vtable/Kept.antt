-- ===== src/Layout/Vtable/Kept.antt =====
-- A round of the layout (src/layout.cpp) keeps the classes of the whole program laid out.
use lcool.Base.{
  ◌||◌, ◌≡◌, refl, sym, ap, ◌∙◌, Bool, true, false, Option, none, some, List, [], ◌∷◌, Bytes, equal,
  equal→eq, equal_refl, Bool-cases, inl, inr, subst,
}
use mathlib.Core.Bool.{true≢false}
use mathlib.Core.Option.{none-ne-some}
use lcool.Logger.{Logger}
use lcool.Ast.{Class}
use lcool.Program.{
  CoolClass, Function, Table, lookup_class, is_subclass_of, find_method, lookup_method,
  update_class,
}
use lcool.Program.Order.{
  Holds, HasParent, IsWellFormed, newer, Below, fresh-name, lookup_class-here, lookup_class-there,
  is_subclass_of-there, is_subclass_of-here, parent_below,
}
use lcool.Program.Methods.{lookup_method-there}
use lcool.Program.Update.{
  update_class-here, update_class-there, Holds-update, lookup_method-update, head-lookup_class,
  update_class-IsWellFormed,
}
use lcool.Layout.Methods.{inherited, process_methods}
use lcool.Layout.Methods.Signatures.{process_methods-HasSlots}
use lcool.Layout.Vtable.Fits.{HasMethodSlots, IsLaidOut, laid_out}
use lcool.Layout.Vtable.Laid.{process_methods-HasMethodSlots}

-- No class below the one of the name has methods yet.
abbrev pub NoneBelow : Table → Bytes → Type 0
NoneBelow t n =
    (d : CoolClass)
    → lookup_class d.name t ≡ some d
    → Below t d.name n
    → equal d.name n ≡ false
    → d.methods ≡ []

-- A class that the table holds has its parent there too.
parent-Holds :
    (t : Table) (n q : Bytes) (c : CoolClass)
    → IsWellFormed t
    → lookup_class n t ≡ some c
    → c.parent ≡ some q
    → Holds t q
unfolding lookup_class
parent-Holds [] n q c w k i = absurd (none-ne-some c k)
parent-Holds (x ∷ older) n q c (newer f p w) k i = elim (Bool-cases (equal x.name n)) [
  | inl e ↦
      let i' = ap (λ (z : CoolClass). z.parent) (head-lookup_class x c older n e k) ∙ i in
      later (subst (λ o. HasParent o older) i' p)
  | inr e ↦ later (parent-Holds older n q c w (sym (lookup_class-there x older n e) ∙ k) i)
]
  where
    later : Holds older q → Holds (x ∷ older) q
    later h z = h (sym (lookup_class-there x older q (fresh-name x older q f h)) ∙ z)

inherited-there :
    (c : CoolClass) (older : Table) (d : CoolClass) (n : Bytes)
    → lookup_class c.name older ≡ none
    → ((q : Bytes) → d.parent ≡ some q → Holds older q)
    → inherited (c ∷ older) d n ≡ inherited older d n
inherited-there c older d n f h = by_parent d.parent h
  where
    by_parent :
        (p : Option Bytes)
        → ((q : Bytes) → p ≡ some q → Holds older q)
        → elim p [ none ↦ none | some q ↦ lookup_method (c ∷ older) q n ]
          ≡ elim p [ none ↦ none | some q ↦ lookup_method older q n ]
    by_parent none h = refl
    by_parent (some q) h = lookup_method-there c older q n (fresh-name c older q f (h q refl))

module _ (cls old : CoolClass) (same_parent : old.parent ≡ cls.parent) where
  inherited-update :
      (older : Table) (d : CoolClass) (n : Bytes)
      → is_subclass_of (d ∷ older) d.name cls.name ≡ false
      → inherited (update_class cls older) d n ≡ inherited older d n
  inherited-update older d n b = by_parent d.parent (
      or-false (equal cls.name d.name) _
        (sym (is_subclass_of-here d older d.name cls.name (equal_refl d.name)) ∙ b))
    where
      or-false : (x y : Bool) → (x || y) ≡ false → y ≡ false
      or-false true y h = absurd (true≢false h)
      or-false false y h = h

      by_parent :
          (p : Option Bytes)
          → parent_below p older cls.name ≡ false
          → elim p [ none ↦ none | some q ↦ lookup_method (update_class cls older) q n ]
            ≡ elim p [ none ↦ none | some q ↦ lookup_method older q n ]
      by_parent none h = refl
      by_parent (some q) h = lookup_method-update cls old same_parent older q n h

  -- A newer class keeps its slots: it has no methods yet, or inherits what it inherited before.
  HasMethodSlots-update :
      (older : Table) (d : CoolClass)
      → equal d.name cls.name ≡ false
      → (Below (d ∷ older) d.name cls.name → d.methods ≡ [])
      → HasMethodSlots older d
      → HasMethodSlots (update_class cls older) d
  unfolding find_method
  HasMethodSlots-update older d e empty h = record {
    keyed = h.keyed;
    overrides = λ n m k f i. elim (Bool-cases (is_subclass_of (d ∷ older) d.name cls.name)) [
      | inl b ↦ absurd (none-ne-some m (ap (find_method n) (sym (empty b)) ∙ f))
      | inr b ↦ h.overrides n m k f (sym (inherited-update older d n b) ∙ i)
    ];
    known = λ n m f.
        subst (λ t. Holds t m.slot.declaring_class) (update_class-there cls d older e)
          (Holds-update cls (d ∷ older) m.slot.declaring_class (h.known n m f));
    unshared = h.unshared;
  }

  IsLaidOut-update :
      (output : Table)
      → ((older : Table)
          → lookup_class cls.name older ≡ none
          → IsLaidOut older
          → ((n : Bytes) → inherited output cls n ≡ inherited older cls n)
          → HasMethodSlots older cls)
      → (t : Table) → IsWellFormed t
      → IsLaidOut t
      → lookup_class cls.name t ≡ some old
      → NoneBelow t cls.name
      → ((n : Bytes) → inherited output cls n ≡ inherited t cls n)
      → IsLaidOut (update_class cls t)
  unfolding update_class lookup_class
  IsLaidOut-update output fits [] w l k empty same = absurd (none-ne-some old k)
  IsLaidOut-update output fits (c ∷ older) (newer f p w) (laid_out h l) k empty same =
      elim (Bool-cases (equal c.name cls.name)) [
        | inl e ↦ subst IsLaidOut (sym (update_class-here cls c older e)) (
            laid_out
              (fits older (ap (λ n. lookup_class n older) (sym (equal→eq c.name cls.name e)) ∙ f) l
                (λ n.
                  same n
                  ∙ inherited-there c older cls n f (λ q i.
                    subst (λ o. HasParent o older)
                      (ap (λ (z : CoolClass). z.parent) (head-lookup_class c old older cls.name e k)
                        ∙ same_parent
                        ∙ i)
                      p)))
              l)
        | inr e ↦
            let k' = sym (lookup_class-there c older cls.name e) ∙ k in
            subst IsLaidOut (sym (update_class-there cls c older e)) (
              laid_out
                (HasMethodSlots-update older c e
                  (λ b. empty c (lookup_class-here c older c.name (equal_refl c.name)) b e) h)
                (IsLaidOut-update output fits older w l k'
                  (λ d g b x.
                    let y = fresh-name c older d.name f (λ z. none-ne-some d (sym z ∙ g)) in
                    empty d (lookup_class-there c older d.name y ∙ g)
                      (is_subclass_of-there c older d.name cls.name y ∙ b) x)
                  (λ n.
                    same n
                    ∙ inherited-there c older cls n f
                        (λ q i. parent-Holds older cls.name q old w k' (same_parent ∙ i)))))
      ]

inherited-parent :
    (t : Table) (c d : CoolClass) (n : Bytes)
    → c.parent ≡ d.parent
    → inherited t c n ≡ inherited t d n
inherited-parent t c d n i = ap (λ p. elim p [ none ↦ none | some q ↦ lookup_method t q n ]) i

-- In a well-formed program whose classes are laid out, for a class without methods, below which no class
-- has methods yet, the class that `process_methods` leaves in its place keeps the program well formed
-- and its classes laid out.
pub process_methods-IsLaidOut :
    (ast_cls : Class) (cls : CoolClass) (output : Table) (functions : List Function) (log : Logger)
    → IsWellFormed output
    → IsLaidOut output
    → lookup_class cls.name output ≡ some cls
    → cls.methods ≡ []
    → NoneBelow output cls.name
    → IsWellFormed (update_class (process_methods ast_cls cls output functions log).cls output)
      × IsLaidOut (update_class (process_methods ast_cls cls output functions log).cls output)
process_methods-IsLaidOut ast_cls cls output functions log w l k e empty =
    let s = process_methods ast_cls cls output functions log in
    let h = process_methods-HasSlots ast_cls cls output functions log e in
    let k' : lookup_class s.cls.name output ≡ some cls =
      ap (λ n. lookup_class n output) h.same_name ∙ k in
    (
      update_class-IsWellFormed s.cls cls (sym h.same_parent) output w k',
      IsLaidOut-update s.cls cls (sym h.same_parent) output
          (λ older f l' same.
            process_methods-HasMethodSlots ast_cls cls output older functions log e
              (ap (λ n. lookup_class n older) (sym h.same_name) ∙ f) l'
              (λ n.
                sym (inherited-parent output s.cls cls n h.same_parent)
                ∙ same n
                ∙ inherited-parent older s.cls cls n h.same_parent))
          output w l k' (subst (NoneBelow output) (sym h.same_name) empty) (λ n. refl),
    )
