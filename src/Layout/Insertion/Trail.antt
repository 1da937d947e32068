-- ===== src/Layout/Insertion/Trail.antt =====
-- The classes that a walk of `insert_empty_classes_visit` (src/layout.cpp) is in the middle of: the
-- indices from the newest visit to the oldest, each the parent of the one behind it.
use lcool.Base.{
  ℕ, zero, suc, ◌+◌, ◌≤◌, ◌≡◌, ◌≢◌, ◌⊎◌, refl, sym, ap, ◌∙◌, subst, false, some, List, [], ◌∷◌,
  ◌++◌, ◌==◌, ==_iff, Bytes, codes, Bool-cases, inl, inr, length, get_elem?, set, get_elem?-lt,
  get_elem?-set_self, get_elem?-set_ne, arith,
}
use mathlib.Core.Option.{some-injective}
use native.Mathlib.Decide.{ℕ_discrete}
use lcool.Ast.{Program}
use lcool.Layout.Insertion.{
  Visit, unseen, visiting, visited, Index, next_class, name_at, loop_string, same_visit, bit, count,
}

-- `set` on a list of states moves one class from a count to another.
pub count-set :
    (v : Visit) (vs : List Visit) (i : ℕ) (old w : Visit)
    → get_elem? vs i ≡ some old
    → count v (set vs i w) + bit (same_visit v old) ≡ count v vs + bit (same_visit v w)
unfolding count
count-set v [] i old w h = cc
count-set v (x ∷ vs) zero old w h = rw (some-injective x old h) (omega arith)
count-set v (x ∷ vs) (suc i) old w h = omega (arith, count-set v vs i old w h)

abbrev pub On : ℕ → List ℕ → Type 0
On i [] = ⊥
On i (x ∷ p) = (i ≡ x) ⊎ On i p

-- The classes on the trail are exactly those in the middle of a visit, each once.
pub record IsTrail (p : List ℕ) (vs : List Visit) : Type 0 where
  pub covers : (i : ℕ) → get_elem? vs i ≡ some visiting → On i p
  pub stays : (i : ℕ) → On i p → get_elem? vs i ≡ some visiting
  pub counted : length p ≡ count visiting vs

pub get_elem?-set :
    (vs : List Visit) (i j : ℕ) (old w v : Visit)
    → get_elem? vs i ≡ some old
    → get_elem? (set vs i w) j ≡ some v
    → ((i ≡ j) × (w ≡ v)) ⊎ ((i ≢ j) × (get_elem? vs j ≡ some v))
get_elem?-set vs i j old w v h e = elim (ℕ_discrete i j) [
  | yes s ↦ inl (
    s,
    some-injective w v (
        sym (get_elem?-set_self vs i w (get_elem?-lt vs i old h))
        ∙ ap (get_elem? (set vs i w)) s
        ∙ e),
  )
  | no n ↦ inr (n, sym (get_elem?-set_ne vs i j w n) ∙ e)
]

pub visited-ne : visited ≢ visiting
visited-ne e = cc

visiting-ne : (v : Visit) → same_visit visiting v ≡ false → v ≢ visiting
unfolding same_visit
visiting-ne v h e = cc (ap (same_visit visiting) e)

pub off_trail :
    {p : List ℕ} {vs : List Visit} (i : ℕ) → IsTrail p vs → get_elem? vs i ≡ some unseen → ¬ On i p
unfolding same_visit
off_trail i t h o = visiting-ne unseen refl (some-injective unseen visiting (sym h ∙ t.stays i o))

-- An unseen class joins the trail.
pub IsTrail-enter :
    {p : List ℕ} {vs : List Visit} (i : ℕ)
    → IsTrail p vs
    → get_elem? vs i ≡ some unseen
    → IsTrail (i ∷ p) (set vs i visiting)
unfolding same_visit
IsTrail-enter {p} {vs} i t h = record {
  covers = λ j e. elim (get_elem?-set vs i j unseen visiting visiting h e) [
    | inl s ↦ inl (sym s.0)
    | inr n ↦ inr (t.covers j n.1)
  ];
  stays = λ j o. elim o [
    | inl s ↦
        ap (get_elem? (set vs i visiting)) s
        ∙ get_elem?-set_self vs i visiting (get_elem?-lt vs i unseen h)
    | inr o' ↦
        get_elem?-set_ne vs i j visiting (λ s. off_trail i t h (subst (λ k. On k p) (sym s) o'))
        ∙ t.stays j o'
  ];
  counted = omega (arith, t.counted, count-set visiting vs i unseen visiting h);
}

-- An unseen class is done at once.
pub IsTrail-skip :
    {p : List ℕ} {vs : List Visit} (i : ℕ)
    → IsTrail p vs
    → get_elem? vs i ≡ some unseen
    → IsTrail p (set vs i visited)
unfolding same_visit
IsTrail-skip {p} {vs} i t h = record {
  covers = λ j e. elim (get_elem?-set vs i j unseen visited visiting h e) [
    | inl s ↦ absurd (visiting-ne visited refl s.1)
    | inr n ↦ t.covers j n.1
  ];
  stays = λ j o.
      get_elem?-set_ne vs i j visited (λ s. off_trail i t h (subst (λ k. On k p) (sym s) o))
      ∙ t.stays j o;
  counted = omega (arith, t.counted, count-set visiting vs i unseen visited h);
}

-- The newest class leaves the trail.
pub IsTrail-leave :
    {p : List ℕ} {vs : List Visit} (i : ℕ)
    → IsTrail (i ∷ p) vs
    → ¬ On i p
    → IsTrail p (set vs i visited)
unfolding same_visit
IsTrail-leave {p} {vs} i t off =
    let h = t.stays i (inl refl) in
    record {
      covers = λ j e. elim (get_elem?-set vs i j visiting visited visiting h e) [
        | inl s ↦ absurd (visiting-ne visited refl s.1)
        | inr n ↦ elim (t.covers j n.1) [ inl s ↦ absurd (n.0 (sym s)) | inr o ↦ o ]
      ];
      stays = λ j o.
          get_elem?-set_ne vs i j visited (λ s. off (subst (λ k. On k p) (sym s) o))
          ∙ t.stays j (inr o);
      counted = omega (arith, t.counted, count-set visiting vs i visiting visited h);
    }

module _ (input : Program) (index : Index) where
  -- Each class of the trail is the parent of the next older one.
  abbrev pub Linked : List ℕ → Type 0
  Linked [] = Unit {0}
  Linked (x ∷ []) = Unit {0}
  Linked (x ∷ y ∷ p) = (next_class input index y ≡ some x) × Linked (y ∷ p)

  -- The newest class of the trail has the parent `i`.
  abbrev pub Leads : List ℕ → ℕ → Type 0
  Leads [] i = Unit {0}
  Leads (x ∷ p) i = next_class input index x ≡ some i

  pub Linked-enter : (p : List ℕ) (i : ℕ) → Linked p → Leads p i → Linked (i ∷ p)
  Linked-enter [] i l h = tt
  Linked-enter (x ∷ p) i l h = (h, l)

  -- From `current` the loop comes back to `i`, on `k` rounds or more.
  abbrev Returns : ℕ → ℕ → ℕ → Type 0
  Returns i k current =
      (f : ℕ)
      → k ≤ f
      → (text : Bytes) → (result : Bytes) × (loop_string input index f i current text ≡ some result)

  Returns-last :
      (i current : ℕ) (name : Bytes)
      → next_class input index current ≡ some i
      → name_at input i ≡ some name
      → Returns i 1 current
  unfolding loop_string
  Returns-last i current name h n zero le text = absurd (omega arith)
  Returns-last i current name h n (suc f) le text =
      (text ++ (codes " -> " ++ name), rw (h, n, (==_iff i i).1 refl) refl)

  Returns-step :
      (i k current x : ℕ) (name : Bytes)
      → next_class input index current ≡ some x
      → name_at input x ≡ some name
      → Returns i k x
      → Returns i (suc k) current
  unfolding loop_string
  Returns-step i k current x name h n r zero le text = absurd (omega arith)
  Returns-step i k current x name h n r (suc f) le text = elim (Bool-cases (x == i)) [
    | inl e ↦ (text ++ (codes " -> " ++ name), rw (h, n, e) refl)
    | inr e ↦
        let (result, q) = r f (omega arith) (text ++ (codes " -> " ++ name)) in
        (result, rw (h, n, e) q)
  ]

  abbrev pub Named : List ℕ → Type 0
  Named p = (j : ℕ) → On j p → (name : Bytes) × (name_at input j ≡ some name)

  Returns-walk :
      (i k x : ℕ) (p : List ℕ)
      → Linked (x ∷ p)
      → Named (x ∷ p)
      → Returns i k x
      → On i (x ∷ p)
      → Returns i (k + length p) i
  Returns-walk i k x p l n r (inl s) f le text = subst (Returns i k) (sym s) r f (omega arith) text
  Returns-walk i k x [] l n r (inr o) f le text = elim o [ ]
  Returns-walk i k x (y ∷ p) l n r (inr o) f le text =
      let (name, e) = n x (inl refl) in
      Returns-walk i (suc k) y p l.1 (λ j q. n j (inr q)) (Returns-step i k y x name l.0 e r) o f
        (omega arith) text

  -- The loop from a class on the trail comes back to it, in as many rounds as the trail is long.
  pub loop_string-trail :
      (p : List ℕ) (i : ℕ) (text : Bytes)
      → Linked p
      → Leads p i
      → Named p
      → On i p
      → (result : Bytes) × (loop_string input index (length p) i i text ≡ some result)
  loop_string-trail [] i text l h n o = elim o [ ]
  loop_string-trail (x ∷ p) i text l h n o =
      let (name, e) = n i o in
      Returns-walk i 1 x p l n (Returns-last i x name h e) o (suc (length p)) (omega arith) text
