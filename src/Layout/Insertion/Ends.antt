-- ===== src/Layout/Insertion/Ends.antt =====
-- `insert_empty_classes` (src/layout.cpp) ends on every program, and what it leaves.
use lcool.Base.{
  ℕ, zero, suc, ◌+◌, ◌<◌, ◌≡◌, ◌≢◌, refl, sym, ap, ◌∙◌, subst, true, Option, none, some, List, [],
  ◌∷◌, ◌++◌, Bytes, codes, Option-cases, inl, inr, length, get_elem?, set, get_elem?-lt,
  get_elem?-in, arith,
}
use lcool.Base.Options.{◌>>=◌}
use mathlib.Core.Option.{some-injective, none-ne-some}
use native.Mathlib.Decide.{ℕ_discrete}
use lcool.Logger.{has_errors, error_at}
use lcool.Ast.{Class, Program}
use lcool.Program.{CoolClass, Table, lookup_class}
use lcool.Program.Order.{Holds}
use lcool.Layout.Insertion.{
  Visit, unseen, visiting, visited, Index, find_index, InsertState, next_class, loop_string,
  log_class_loop, count, mark, same_visit, finish_visit, parent_name, log_not_defined, visit_new,
  visit_by, insert_empty_classes_visit, visit_loop,
}
use lcool.Layout.Insertion.Index.{IsIndex}
use lcool.Layout.Insertion.Trail.{
  IsTrail, IsTrail-enter, IsTrail-skip, IsTrail-leave, off_trail, Linked, Leads, Linked-enter,
  Named, loop_string-trail, count-set,
}
use lcool.Layout.Insertion.Walk.{
  Placed, IsSound, IsSound-visiting, Extends, Extends-refl, Extends-trans, finish_visit-Extends,
  finish_visit-IsSound,
}

module _ (input : Program) (index : Index) (before : Table) where
  -- What holds in a walk along the trail `p`.
  pub record Walks (p : List ℕ) (s : InsertState) : Type 0 where
    pub sound : IsSound input before s
    pub trail : IsTrail p s.visited_list

  -- A call returns a state in which the walk can go on, with the class placed.
  abbrev pub Visits : List ℕ → ℕ → InsertState → Option InsertState → Type 0
  Visits p i start o =
      (s : InsertState) × (o ≡ some s)
      × Walks p s
      × Extends start s
      × ((c : Class) → get_elem? input i ≡ some c → Placed input before s c)

  Placed-at :
      (i : ℕ) (c : Class) (s : InsertState)
      → get_elem? input i ≡ some c
      → Placed input before s c
      → (d : Class) → get_elem? input i ≡ some d
      → Placed input before s d
  Placed-at i c s e p d e' = subst (Placed input before s) (some-injective c d (sym e ∙ e')) p

  Named-trail : (p : List ℕ) (s : InsertState) → Walks p s → Named input index p
  Named-trail p s w j o =
      let v = w.trail.stays j o in
      let lt = get_elem?-lt s.visited_list j visiting v in
      let (c, e) = get_elem?-in input j (omega (arith, w.sound.sized, lt)) in
      (c.name, ap (λ x. x >>= λ cls. some cls.name) e)

  -- A class in the middle of its visit: the loop is reported.
  log_class_loop-Visits :
      (p : List ℕ) (i : ℕ) (s : InsertState)
      → Walks p s
      → Linked input index p
      → Leads input index p i
      → get_elem? s.visited_list i ≡ some visiting
      → Visits p i s (log_class_loop input index i s)
  unfolding log_class_loop has_errors error_at
  log_class_loop-Visits p i s w l h v =
      let lt = get_elem?-lt s.visited_list i visiting v in
      let (c, e) = get_elem?-in input i (omega (arith, w.sound.sized, lt)) in
      let (text, r) =
        loop_string-trail input index p i c.name l h (Named-trail p s w) (w.trail.covers i v) in
      let r' = ap (λ n. loop_string input index n i i c.name) (sym w.trail.counted) ∙ r in
      let s' : InsertState = record s {
        log = error_at c.loc (codes "circular inheritance: " ++ text) s.log;
      } in
      (
        s',
        rw (e, r') refl,
        record {
          sound = record {
            sized = w.sound.sized;
            well_formed = w.sound.well_formed;
            keeps = w.sound.keeps;
            placed = λ j d x y. inr refl;
            known = w.sound.known;
            parents_first = w.sound.parents_first;
          };
          trail = w.trail;
        },
        record { holds = λ n z. z; errors = λ z. refl },
        λ d x. inr refl,
      )

  finish_visit-marks :
      (i : ℕ) (cls : Class) (o : Option CoolClass) (s : InsertState)
      → (finish_visit i cls o s).visited_list ≡ set s.visited_list i visited
  unfolding finish_visit
  finish_visit-marks i cls none s = refl
  finish_visit-marks i cls (some parent) s = refl

  -- The end of the visit of `i`, from a sound state whose trail without `i` is `p`.
  finish_visit-Visits :
      (p : List ℕ) (i : ℕ) (old : Visit) (cls : Class) (s : InsertState) (o : Option CoolClass)
      → get_elem? s.visited_list i ≡ some old
      → get_elem? input i ≡ some cls
      → lookup_class (parent_name cls) s.output ≡ o
      → (o ≡ none → has_errors s.log ≡ true)
      → IsSound input before s
      → IsTrail p (set s.visited_list i visited)
      → Visits p i s (some (finish_visit i cls o s))
  finish_visit-Visits p i old cls s o v e l err h t =
      let (h', placed) = finish_visit-IsSound input before s i old cls o v e l err h in
      (
        finish_visit i cls o s,
        refl,
        record { sound = h'; trail = subst (IsTrail p) (sym (finish_visit-marks i cls o s)) t },
        finish_visit-Extends s i cls o h.well_formed l,
        Placed-at i cls (finish_visit i cls o s) e placed,
      )

  further :
      (p : List ℕ) (i : ℕ) {s t : InsertState} {o : Option InsertState}
      → Extends s t
      → Visits p i t o
      → Visits p i s o
  further p i x (u, e, w, y, placed) = (u, e, w, Extends-trans x y, placed)

  -- A class whose parent is not in the table, in a program with an Object, names its parent.
  next_class-parent :
      (i j : ℕ) (cls : Class) (t : Table)
      → get_elem? input i ≡ some cls
      → Holds t (codes "Object")
      → lookup_class (parent_name cls) t ≡ none
      → find_index (parent_name cls) index ≡ some j
      → next_class input index i ≡ some j
  unfolding next_class
  next_class-parent i j cls t e h l f = elim (Option-cases cls.parent) [
    | inl n ↦ absurd (h (ap (λ n. lookup_class n t) (sym (rw n refl)) ∙ l))
    | inr (q, n) ↦ rw (e, n) (named q n)
  ]
    where
      named :
          (q : Bytes)
          → cls.parent ≡ some q
          → elim (find_index q index) [ none ↦ some 0 | some k ↦ some k ] ≡ some j
      named q n =
          let g : find_index q index ≡ some j =
            ap (λ o. find_index (elim o [ none ↦ codes "Object" | some p ↦ p ]) index) (sym n)
            ∙ f in
          rw g refl

  module _ (known : IsIndex input index) (rooted : Holds before (codes "Object")) where
    visit_new-Visits :
        (p : List ℕ) (i : ℕ) (cls : Class) (s : InsertState)
        → (visit : ℕ → InsertState → Option InsertState) → Walks p s
        → get_elem? s.visited_list i ≡ some unseen
        → get_elem? input i ≡ some cls
        → ((j : ℕ)
            → next_class input index i ≡ some j
            → j < length input
            → Visits (i ∷ p) j (mark i visiting s) (visit j (mark i visiting s)))
        → Visits p i s (visit_new index visit i cls s)
    unfolding visit_new log_not_defined has_errors error_at
    visit_new-Visits p i cls s visit w v e rec =
        elim (Option-cases (lookup_class (parent_name cls) s.output)) [
          | inr (parent, l) ↦ subst (Visits p i s) (sym (rw (l, visit_new) refl)) (
              finish_visit-Visits p i unseen cls s (some parent) v e l
                (λ n. absurd (none-ne-some parent (sym n))) w.sound (IsTrail-skip i w.trail v))
          | inl l ↦ elim (Option-cases (find_index (parent_name cls) index)) [
            | inl f ↦ subst (Visits p i s) (sym (rw (l, f, visit_new) refl)) (missing l)
            | inr (j, f) ↦ followed j l f (rec j (next_of j l f) (range j f))
          ]
        ]
      where
        missing :
            lookup_class (parent_name cls) s.output ≡ none
            → Visits p i s (some (finish_visit i cls none (log_not_defined cls s)))
        missing l =
            further p i (record { holds = λ n z. z; errors = λ z. refl })
              (finish_visit-Visits p i unseen cls (log_not_defined cls s) none v e l (λ n. refl)
                (record {
                  sized = w.sound.sized;
                  well_formed = w.sound.well_formed;
                  keeps = w.sound.keeps;
                  placed = λ j d x y. inr refl;
                  known = w.sound.known;
                  parents_first = w.sound.parents_first;
                })
                (IsTrail-skip i w.trail v))

        range : (j : ℕ) → find_index (parent_name cls) index ≡ some j → j < length input
        range j f = let (c, x, n) = known (parent_name cls) j f in get_elem?-lt input j c x

        next_of :
            (j : ℕ)
            → lookup_class (parent_name cls) s.output ≡ none
            → find_index (parent_name cls) index ≡ some j
            → next_class input index i ≡ some j
        next_of j l f =
            next_class-parent i j cls s.output e
              (subst (λ o. o ≢ none) (sym (w.sound.keeps (codes "Object") rooted)) rooted) l f

        followed :
            (j : ℕ)
            → lookup_class (parent_name cls) s.output ≡ none
            → find_index (parent_name cls) index ≡ some j
            → Visits (i ∷ p) j (mark i visiting s) (visit j (mark i visiting s))
            → Visits p i s (visit_new index visit i cls s)
        followed j l f (s', x, w', grows, placed) =
            let (c, y, n) = known (parent_name cls) j f in
            let reported : lookup_class (parent_name cls) s'.output ≡ none
                → has_errors s'.log ≡ true =
              λ z. elim (placed c y) [
                | inl held ↦ absurd (held (ap (λ m. lookup_class m s'.output) n ∙ z))
                | inr r ↦ r
              ] in
            subst (Visits p i s) (sym (rw (l, f, x, visit_new) refl)) (
              further p i (Extends-trans (record { holds = λ n z. z; errors = λ z. z }) grows) (
                finish_visit-Visits p i visiting cls s' (lookup_class (parent_name cls) s'.output)
                  (w'.trail.stays i (inl refl)) e refl reported w'.sound
                  (IsTrail-leave i w'.trail (off_trail i w.trail v))))

    visit_by-Visits :
        (v : Visit) (f : ℕ) (p : List ℕ) (i : ℕ) (s : InsertState)
        → get_elem? s.visited_list i ≡ some v
        → Walks p s
        → Linked input index p
        → Leads input index p i
        → i < length input
        → ((j : ℕ)
            → v ≡ unseen
            → next_class input index i ≡ some j
            → j < length input
            → Visits
                (i ∷ p)
                j
                (mark i visiting s)
                (insert_empty_classes_visit input index f j (mark i visiting s)))
        → Visits p i s (visit_by v input index (insert_empty_classes_visit input index f) i s)
    unfolding visit_by
    visit_by-Visits visiting f p i s e w l h lt rec = log_class_loop-Visits p i s w l h e
    visit_by-Visits visited f p i s e w l h lt rec =
        (s, refl, w, Extends-refl s, λ c x. w.sound.placed i c e x)
    visit_by-Visits unseen f p i s e w l h lt rec =
        let (c, x) = get_elem?-in input i lt in
        subst (Visits p i s) (sym (rw x refl)) (
          visit_new-Visits p i c s (insert_empty_classes_visit input index f) w e x
            (λ j n lt'. rec j refl n lt'))

    pub visit-Visits :
        (f : ℕ) (p : List ℕ) (i : ℕ) (s : InsertState)
        → Walks p s
        → Linked input index p
        → Leads input index p i
        → i < length input
        → count unseen s.visited_list < f
        → Visits p i s (insert_empty_classes_visit input index f i s)
    unfolding insert_empty_classes_visit same_visit
    visit-Visits zero p i s w l h lt less = absurd (omega arith)
    visit-Visits (suc f) p i s w l h lt less =
        let (v, e) = get_elem?-in s.visited_list i (omega (arith, w.sound.sized)) in
        subst (Visits p i s) (sym (rw e refl)) (
          visit_by-Visits v f p i s e w l h lt λ j u n lt'.
            let e' : get_elem? s.visited_list i ≡ some unseen = e ∙ ap some u in
            visit-Visits f (i ∷ p) j (mark i visiting s)
              (record {
                sound = IsSound-visiting input before s i e' w.sound;
                trail = IsTrail-enter i w.trail e';
              })
              (Linked-enter input index p i l h) n lt'
              (omega (arith, count-set unseen s.visited_list i unseen visiting e')))

    Placed-grows :
        {s t : InsertState} (c : Class)
        → Extends s t
        → Placed input before s c
        → Placed input before t c
    Placed-grows c x (inl h) = inl (x.holds c.name h)
    Placed-grows c x (inr e) = inr (x.errors e)

    -- The loop over the classes, from the class `i` on.
    pub visit_loop-Walks :
        (rounds i : ℕ) (s : InsertState)
        → Walks [] s
        → rounds + i ≡ length input
        → ((j : ℕ) (c : Class) → j < i → get_elem? input j ≡ some c → Placed input before s c)
        → (s' : InsertState) × (visit_loop input index rounds i s ≡ some s')
          × Walks [] s'
          × ((j : ℕ) (c : Class) → get_elem? input j ≡ some c → Placed input before s' c)
    unfolding visit_loop
    visit_loop-Walks zero i s w e done =
        (s, refl, w, λ j c x. done j c (omega (arith, e, get_elem?-lt input j c x)) x)
    visit_loop-Walks (suc rounds) i s w e done =
        let (t, q, w', grows, placed) =
          visit-Visits (suc (count unseen s.visited_list)) [] i s w tt tt (omega arith)
            (omega arith) in
        let (u, q', w'', all_placed) =
          visit_loop-Walks rounds (suc i) t w' (omega arith) λ j c lt x. elim (ℕ_discrete j i) [
            | yes k ↦ placed c (ap (get_elem? input) (sym k) ∙ x)
            | no n ↦ Placed-grows c grows (done j c (omega arith) x)
          ] in
        (u, rw q q', w'', all_placed)
