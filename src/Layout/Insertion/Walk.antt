-- ===== src/Layout/Insertion/Walk.antt =====
-- The depth-first walk of `insert_empty_classes` (src/layout.cpp) ends, and parents come first.
use lcool.Base.{
  ℕ, ◌≡◌, ◌≢◌, ◌⊎◌, refl, sym, ap, ◌∙◌, subst, true, Option, none, some, [], ◌∷◌, ◌++◌, Bytes, inl,
  inr, length, get_elem?, length-set,
}
use mathlib.Core.Option.{some-injective}
use lcool.Logger.{has_errors}
use lcool.Ast.{Class, Program}
use lcool.Program.{CoolClass, Table, lookup_class}
use lcool.Program.Order.{Holds, IsWellFormed}
use lcool.Layout.Insertion.{
  Visit, unseen, visiting, visited, InsertState, mark, same_visit, finish_visit, parent_name,
  insert_user_class,
}
use lcool.Layout.Insertion.Trail.{get_elem?-set, visited-ne}
use lcool.Layout.Insertion.Grown.{lookup_class-name, Holds-some, insert_user_class-Grown}

abbrev pub Listed : Bytes → Program → Type 0
Listed n [] = ⊥
Listed n (c ∷ cs) = (c.name ≡ n) ⊎ Listed n cs

-- Each class of the list stands behind its parent: the parent was in the table before, or is an
-- earlier class of the list.
pub data ParentsFirst (before : Table) : Program → Type 0 where
  no_classes : ParentsFirst before []
  one_more :
      {cs cs' : Program} (c : Class)
      → ParentsFirst before cs
      → Holds before (parent_name c) ⊎ Listed (parent_name c) cs
      → cs' ≡ cs ++ c ∷ []
      → ParentsFirst before cs'

pub Listed-last : (n : Bytes) (cs : Program) (c : Class) → c.name ≡ n → Listed n (cs ++ c ∷ [])
Listed-last n [] c e = inl e
Listed-last n (d ∷ cs) c e = inr (Listed-last n cs c e)

pub Listed-append : (n : Bytes) (cs ds : Program) → Listed n cs → Listed n (cs ++ ds)
Listed-append n [] ds x = elim x [ ]
Listed-append n (c ∷ cs) ds (inl e) = inl e
Listed-append n (c ∷ cs) ds (inr l) = inr (Listed-append n cs ds l)

module _ (input : Program) (before : Table) where
  -- The class stands in the table, or an error was logged.
  abbrev pub Placed : InsertState → Class → Type 0
  Placed s c = Holds s.output c.name ⊎ (has_errors s.log ≡ true)

  -- What holds between visits, beside the trail.
  pub record IsSound (s : InsertState) : Type 0 where
    pub sized : length s.visited_list ≡ length input
    pub well_formed : IsWellFormed s.output
    pub keeps : (n : Bytes) → Holds before n → lookup_class n s.output ≡ lookup_class n before
    pub placed :
        (i : ℕ) (c : Class)
        → get_elem? s.visited_list i ≡ some visited
        → get_elem? input i ≡ some c
        → Placed s c
    pub known : (n : Bytes) → Holds s.output n → Holds before n ⊎ Listed n s.layout_list
    pub parents_first : ParentsFirst before s.layout_list

  pub IsSound-visiting :
      (s : InsertState) (i : ℕ)
      → get_elem? s.visited_list i ≡ some unseen
      → IsSound s
      → IsSound (mark i visiting s)
  unfolding same_visit
  IsSound-visiting s i e h = record {
    sized = length-set s.visited_list i visiting ∙ h.sized;
    well_formed = h.well_formed;
    keeps = h.keeps;
    placed = λ j c v q. elim (get_elem?-set s.visited_list i j unseen visiting visited e v) [
      | inl z ↦ absurd (visited-ne (sym z.1))
      | inr z ↦ h.placed j c z.1 q
    ];
    known = h.known;
    parents_first = h.parents_first;
  }

  IsSound-visited :
      (s : InsertState) (i : ℕ) (old : Visit) (cls : Class)
      → get_elem? s.visited_list i ≡ some old
      → get_elem? input i ≡ some cls
      → Placed s cls
      → IsSound s
      → IsSound (mark i visited s)
  IsSound-visited s i old cls e q p h = record {
    sized = length-set s.visited_list i visited ∙ h.sized;
    well_formed = h.well_formed;
    keeps = h.keeps;
    placed = λ j c v q'. elim (get_elem?-set s.visited_list i j old visited visited e v) [
      | inl z ↦ subst (Placed s) (some-injective cls c (sym q ∙ ap (get_elem? input) z.0 ∙ q')) p
      | inr z ↦ h.placed j c z.1 q'
    ];
    known = h.known;
    parents_first = h.parents_first;
  }

  abbrev grown_by : Class → CoolClass → InsertState → InsertState
  grown_by cls parent s = record s {
    output = insert_user_class cls.name parent s.output;
    layout_list = s.layout_list ++ cls ∷ [];
  }

  IsSound-grown :
      (s : InsertState) (cls : Class) (parent : CoolClass)
      → lookup_class (parent_name cls) s.output ≡ some parent
      → IsSound s
      → IsSound (grown_by cls parent s) × Placed (grown_by cls parent s) cls
  IsSound-grown s cls parent e h =
      let t = s.output in
      let held = Holds-some (parent_name cls) t parent e in
      let named = lookup_class-name (parent_name cls) t parent e in
      let g =
        insert_user_class-Grown cls.name parent t h.well_formed
          (subst (Holds t) (sym named) held) in
      let grows = λ (n : Bytes) (x : Holds t n). subst (λ o. o ≢ none) (sym (g.keeps n x)) x in
      (
        record {
          sized = h.sized;
          well_formed = g.well_formed;
          keeps = λ n x. g.keeps n (subst (λ o. o ≢ none) (sym (h.keeps n x)) x) ∙ h.keeps n x;
          placed =
              λ i c v q. elim (h.placed i c v q) [ inl x ↦ inl (grows c.name x) | inr x ↦ inr x ];
          known = λ n x. elim (g.only n x) [
            | inr z ↦ inr (Listed-last n s.layout_list cls z)
            | inl y ↦ elim (h.known n y) [
              | inl z ↦ inl z
              | inr z ↦ inr (Listed-append n s.layout_list (cls ∷ []) z)
            ]
          ];
          parents_first = one_more cls h.parents_first (h.known (parent_name cls) held) refl;
        },
        inl g.holds,
      )

  -- The end of a visit keeps the state sound and places the class, if an error was logged where the
  -- parent is missing.
  pub finish_visit-IsSound :
      (s : InsertState) (i : ℕ) (old : Visit) (cls : Class) (o : Option CoolClass)
      → get_elem? s.visited_list i ≡ some old
      → get_elem? input i ≡ some cls
      → lookup_class (parent_name cls) s.output ≡ o
      → (o ≡ none → has_errors s.log ≡ true)
      → IsSound s
      → IsSound (finish_visit i cls o s) × Placed (finish_visit i cls o s) cls
  unfolding finish_visit
  finish_visit-IsSound s i old cls none e q f err h =
      (IsSound-visited s i old cls e q (inr (err refl)) h, inr (err refl))
  finish_visit-IsSound s i old cls (some parent) e q f err h =
      let (h', p) = IsSound-grown s cls parent f h in
      (IsSound-visited (grown_by cls parent s) i old cls e q p h', p)

-- Nothing that stands in the table goes away, and no error is forgotten.
pub record Extends (s s' : InsertState) : Type 0 where
  pub holds : (n : Bytes) → Holds s.output n → Holds s'.output n
  pub errors : has_errors s.log ≡ true → has_errors s'.log ≡ true

pub Extends-refl : (s : InsertState) → Extends s s
Extends-refl s = record { holds = λ n h. h; errors = λ e. e }

pub Extends-trans : {s t u : InsertState} → Extends s t → Extends t u → Extends s u
Extends-trans x y = record {
  holds = λ n h. y.holds n (x.holds n h);
  errors = λ e. y.errors (x.errors e);
}

pub finish_visit-Extends :
    (s : InsertState) (i : ℕ) (cls : Class) (o : Option CoolClass)
    → IsWellFormed s.output
    → lookup_class (parent_name cls) s.output ≡ o
    → Extends s (finish_visit i cls o s)
unfolding finish_visit
finish_visit-Extends s i cls none w e = record { holds = λ n h. h; errors = λ x. x }
finish_visit-Extends s i cls (some parent) w e =
    let t = s.output in
    let held = Holds-some (parent_name cls) t parent e in
    let named = lookup_class-name (parent_name cls) t parent e in
    let g = insert_user_class-Grown cls.name parent t w (subst (Holds t) (sym named) held) in
    record { holds = λ n h. subst (λ o. o ≢ none) (sym (g.keeps n h)) h; errors = λ x. x }
