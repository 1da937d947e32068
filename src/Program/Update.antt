-- ===== src/Program/Update.antt =====
-- A class that changes in place (src/cool_program.cpp) under the name and the parent that it has.
use lcool.Base.{
  Bool, Option-cases, ◌≡◌, refl, sym, ap, ◌∙◌, true, false, Option, none, some, [], ◌∷◌, Bytes,
  equal, equal→eq, equal_refl, Bool-cases, inl, inr, subst, ◌||◌,
}
use mathlib.Core.Bool.{true≢false}
use mathlib.Core.Option.{none-ne-some, some-injective}
use lcool.Program.{
  CoolClass, Table, lookup_class, is_subclass_of, find_method, lookup_method, update_class,
}
use lcool.Program.Methods.{lookup_method-there, lookup_method-declared, lookup_method-parent}
use lcool.Program.Order.{
  Holds, HasParent, IsWellFormed, newer, lookup_class-here, lookup_class-there, is_subclass_of-here,
  is_subclass_of-there, parent_below,
}

module _ (cls : CoolClass) where
  pub update_class-here :
      (c : CoolClass) (older : Table)
      → equal c.name cls.name ≡ true
      → update_class cls (c ∷ older) ≡ cls ∷ older
  unfolding update_class
  update_class-here c older e = rw e refl

  pub update_class-there :
      (c : CoolClass) (older : Table)
      → equal c.name cls.name ≡ false
      → update_class cls (c ∷ older) ≡ c ∷ update_class cls older
  unfolding update_class
  update_class-there c older e = rw e refl

  -- Other names are looked up as before.
  pub lookup_class-update_other :
      (t : Table) (n : Bytes)
      → equal cls.name n ≡ false
      → lookup_class n (update_class cls t) ≡ lookup_class n t
  unfolding update_class
  lookup_class-update_other [] n e = refl
  lookup_class-update_other (c ∷ older) n e = elim (Bool-cases (equal c.name cls.name)) [
    | inl f ↦
        ap (lookup_class n) (update_class-here c older f)
        ∙ lookup_class-there cls older n e
        ∙ sym (lookup_class-there c older n (ap (λ x. equal x n) (equal→eq c.name cls.name f) ∙ e))
    | inr f ↦ elim (Bool-cases (equal c.name n)) [
      | inl g ↦
          ap (lookup_class n) (update_class-there c older f)
          ∙ lookup_class-here c (update_class cls older) n g
          ∙ sym (lookup_class-here c older n g)
      | inr g ↦
          ap (lookup_class n) (update_class-there c older f)
          ∙ lookup_class-there c (update_class cls older) n g
          ∙ lookup_class-update_other older n e
          ∙ sym (lookup_class-there c older n g)
    ]
  ]

  -- The name itself is found with the new class.
  pub lookup_class-update_self :
      (t : Table) (n : Bytes)
      → equal cls.name n ≡ true
      → Holds t n
      → lookup_class n (update_class cls t) ≡ some cls
  unfolding update_class lookup_class
  lookup_class-update_self [] n e h = absurd (h refl)
  lookup_class-update_self (c ∷ older) n e h = elim (Bool-cases (equal c.name cls.name)) [
    | inl f ↦ ap (lookup_class n) (update_class-here c older f) ∙ lookup_class-here cls older n e
    | inr f ↦
        let f' = ap (equal c.name) (sym (equal→eq cls.name n e)) ∙ f in
        ap (lookup_class n) (update_class-there c older f)
        ∙ lookup_class-there c (update_class cls older) n f'
        ∙ lookup_class-update_self older n e (λ z. h (lookup_class-there c older n f' ∙ z))
  ]

  pub Holds-update : (t : Table) (n : Bytes) → Holds t n → Holds (update_class cls t) n
  Holds-update t n h = elim (Bool-cases (equal cls.name n)) [
    | inl e ↦ λ z. none-ne-some cls (sym z ∙ lookup_class-update_self t n e h)
    | inr e ↦ λ z. h (sym (lookup_class-update_other t n e) ∙ z)
  ]

-- The class that the table holds first is the one that is looked up under its name.
pub head-lookup_class :
    (c old : CoolClass) (older : Table) (n : Bytes)
    → equal c.name n ≡ true
    → lookup_class n (c ∷ older) ≡ some old
    → c ≡ old
head-lookup_class c old older n e k = some-injective c old (sym (lookup_class-here c older n e) ∙ k)

module _ (cls old : CoolClass) (same_parent : old.parent ≡ cls.parent) where
  -- The subclass test does not change.
  pub is_subclass_of-update :
      (t : Table) (a b : Bytes)
      → lookup_class cls.name t ≡ some old
      → is_subclass_of (update_class cls t) a b ≡ is_subclass_of t a b
  unfolding update_class lookup_class
  is_subclass_of-update [] a b k = absurd (none-ne-some old k)
  is_subclass_of-update (c ∷ older) a b k = elim (Bool-cases (equal c.name cls.name)) [
    | inl f ↦ ap (λ t. is_subclass_of t a b) (update_class-here cls c older f) ∙ replaced f
    | inr f ↦
        let k' = sym (lookup_class-there c older cls.name f) ∙ k in
        ap (λ t. is_subclass_of t a b) (update_class-there cls c older f)
        ∙ elim (Bool-cases (equal c.name a)) [
          | inl e ↦
              is_subclass_of-here c (update_class cls older) a b e
              ∙ ap (λ x. equal b a || x) (over (λ q. is_subclass_of-update older q b k') c.parent)
              ∙ sym (is_subclass_of-here c older a b e)
          | inr e ↦
              is_subclass_of-there c (update_class cls older) a b e
              ∙ is_subclass_of-update older a b k'
              ∙ sym (is_subclass_of-there c older a b e)
        ]
  ]
    where
      over :
          ((q : Bytes) → is_subclass_of (update_class cls older) q b ≡ is_subclass_of older q b)
          → (p : Option Bytes) → parent_below p (update_class cls older) b ≡ parent_below p older b
      over same none = refl
      over same (some q) = same q

      replaced :
          equal c.name cls.name ≡ true
          → is_subclass_of (cls ∷ older) a b ≡ is_subclass_of (c ∷ older) a b
      replaced f =
          let names = equal→eq c.name cls.name f in
          let parents =
            ap (λ (x : CoolClass). x.parent) (head-lookup_class c old older cls.name f k)
            ∙ same_parent in
          elim (Bool-cases (equal c.name a)) [
            | inl e ↦
                is_subclass_of-here cls older a b (ap (λ x. equal x a) (sym names) ∙ e)
                ∙ ap (λ p. equal b a || parent_below p older b) (sym parents)
                ∙ sym (is_subclass_of-here c older a b e)
            | inr e ↦
                is_subclass_of-there cls older a b (ap (λ x. equal x a) (sym names) ∙ e)
                ∙ sym (is_subclass_of-there c older a b e)
          ]

  -- A class that is not below the changed one finds its methods as before.
  pub lookup_method-update :
      (t : Table) (a n : Bytes)
      → is_subclass_of t a cls.name ≡ false
      → lookup_method (update_class cls t) a n ≡ lookup_method t a n
  unfolding update_class lookup_method
  lookup_method-update [] a n b = refl
  lookup_method-update (c ∷ older) a n b = elim (Bool-cases (equal c.name cls.name)) [
    | inl f ↦
        let names = equal→eq c.name cls.name f in
        ap (λ t. lookup_method t a n) (update_class-here cls c older f)
        ∙ elim (Bool-cases (equal c.name a)) [
          | inl e ↦ absurd (true≢false (sym (itself e names) ∙ b))
          | inr e ↦
              lookup_method-there cls older a n (ap (λ x. equal x a) (sym names) ∙ e)
              ∙ sym (lookup_method-there c older a n e)
        ]
    | inr f ↦
        ap (λ t. lookup_method t a n) (update_class-there cls c older f)
        ∙ elim (Bool-cases (equal c.name a)) [
          | inr e ↦
              lookup_method-there c (update_class cls older) a n e
              ∙ lookup_method-update older a n (sym (is_subclass_of-there c older a cls.name e) ∙ b)
              ∙ sym (lookup_method-there c older a n e)
          | inl e ↦ elim (Option-cases (find_method n c.methods)) [
            | inr (m, g) ↦
                lookup_method-declared c (update_class cls older) a n m e g
                ∙ sym (lookup_method-declared c older a n m e g)
            | inl g ↦
                lookup_method-parent c (update_class cls older) a n c.parent e g refl
                ∙ up (λ q h. lookup_method-update older q n h) c.parent (above e)
                ∙ sym (lookup_method-parent c older a n c.parent e g refl)
          ]
        ]
  ]
    where
      itself :
          equal c.name a ≡ true → c.name ≡ cls.name → is_subclass_of (c ∷ older) a cls.name ≡ true
      itself e names =
          is_subclass_of-here c older a cls.name e
          ∙ ap (λ x. x || parent_below c.parent older cls.name)
              (ap (λ x. equal x a) (sym names) ∙ e)

      above : equal c.name a ≡ true → parent_below c.parent older cls.name ≡ false
      above e = or-false (equal cls.name a) _ (sym (is_subclass_of-here c older a cls.name e) ∙ b)
        where
          or-false : (x y : Bool) → (x || y) ≡ false → y ≡ false
          or-false true y h = absurd (true≢false h)
          or-false false y h = h

      up :
          ((q : Bytes)
            → is_subclass_of older q cls.name ≡ false
            → lookup_method (update_class cls older) q n ≡ lookup_method older q n)
          → (p : Option Bytes) → parent_below p older cls.name ≡ false
          → elim p [ none ↦ none | some q ↦ lookup_method (update_class cls older) q n ]
            ≡ elim p [ none ↦ none | some q ↦ lookup_method older q n ]
      up same none h = refl
      up same (some q) h = same q h

  HasParent-update :
      (older : Table) (p : Option Bytes)
      → lookup_class cls.name older ≡ some old
      → HasParent p older
      → HasParent p (update_class cls older)
  unfolding lookup_class
  HasParent-update older none k h =
      absurd (none-ne-some old (ap (lookup_class cls.name) (sym h) ∙ k))
  HasParent-update older (some q) k h = Holds-update cls older q h

  -- The program stays well formed.
  pub update_class-IsWellFormed :
      (t : Table)
      → IsWellFormed t
      → lookup_class cls.name t ≡ some old
      → IsWellFormed (update_class cls t)
  unfolding update_class lookup_class
  update_class-IsWellFormed [] w k = absurd (none-ne-some old k)
  update_class-IsWellFormed (c ∷ older) (newer f p w) k =
      elim (Bool-cases (equal c.name cls.name)) [
        | inl e ↦
            let parents =
              ap (λ (x : CoolClass). x.parent) (head-lookup_class c old older cls.name e k)
              ∙ same_parent in
            subst IsWellFormed (sym (update_class-here cls c older e)) (
              newer (ap (λ n. lookup_class n older) (sym (equal→eq c.name cls.name e)) ∙ f)
                (subst (λ o. HasParent o older) parents p) w)
        | inr e ↦
            let k' = sym (lookup_class-there c older cls.name e) ∙ k in
            subst IsWellFormed (sym (update_class-there cls c older e)) (
              newer (lookup_class-update_other cls older c.name (flip e) ∙ f)
                (HasParent-update older c.parent k' p) (update_class-IsWellFormed older w k'))
      ]
    where
      flip : equal c.name cls.name ≡ false → equal cls.name c.name ≡ false
      flip e = elim (Bool-cases (equal cls.name c.name)) [
        | inr x ↦ x
        | inl x ↦ absurd (
            true≢false (
              sym (
                ap (λ n. equal n cls.name) (sym (equal→eq cls.name c.name x)) ∙ equal_refl cls.name)
              ∙ e))
      ]
