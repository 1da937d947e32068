-- ===== src/Layout/Vtable/Entries.antt =====
-- The loop over the methods of one class in `create_partial_vtable_init` (src/layout.cpp).
use lcool.Base.{
  ℕ, suc, ◌-◌, ◌++◌, ◌≡◌, ◌≢◌, ◌⊎◌, refl, sym, ap, ◌∙◌, true, false, none, some, List, [], ◌∷◌,
  Bytes, equal, equal→eq, equal_refl, Bool-cases, inl, inr, length, replicate, get_elem?,
  get_elem?-lt, get_elem?-set_self, get_elem?-set_ne, get_elem?-append, length-append, subst, arith,
}
use mathlib.Core.Bool.{true≢false}
use mathlib.Core.Option.{none-ne-some, some-injective}
use lcool.Base.Options.{◌>>=◌}
use lcool.Program.{CoolMethodSlot, CoolMethod, Table, find_method, lookup_method}
use lcool.Layout.Methods.Slotted.{Keyed}
use lcool.Layout.Vtable.{Entry, missing, func, set_entry, same_slot, entries_loop}

length-replicate : (n : ℕ) (e : Entry) → length (replicate n e) ≡ n
length-replicate ℕ.zero e = refl
length-replicate (suc n) e = ap suc (length-replicate n e)

set_entry_self : (i : ℕ) (e : Entry) (es : List Entry) → get_elem? (set_entry i e es) i ≡ some e
unfolding set_entry
set_entry_self i e es = get_elem?-set_self (es ++ replicate (suc i - length es) missing) i e (
    omega (
      arith,
      length-append es (replicate (suc i - length es) missing),
      length-replicate (suc i - length es) missing,
    ))

set_entry_ne :
    (i j : ℕ) (e v : Entry) (es : List Entry)
    → i ≢ j
    → get_elem? es j ≡ some v
    → get_elem? (set_entry i e es) j ≡ some v
unfolding set_entry
set_entry_ne i j e v es n h =
    get_elem?-set_ne (es ++ replicate (suc i - length es) missing) i j e n
    ∙ get_elem?-append es (replicate (suc i - length es) missing) j (get_elem?-lt es j v h)
    ∙ h

same_slot_refl : (s : CoolMethodSlot) → same_slot s s ≡ true
unfolding same_slot
same_slot_refl s = rw (equal_refl s.declaring_class, equal_refl s.name) refl

pub find_method-cons :
    (n : Bytes) (m a : CoolMethod) (ms : List CoolMethod)
    → find_method n (m ∷ ms) ≡ some a
    → ((m.slot.name ≡ n) × (m ≡ a)) ⊎ (find_method n ms ≡ some a)
unfolding find_method
find_method-cons n m a ms h = elim (Bool-cases (equal m.slot.name n)) [
  | inl e ↦ inl (equal→eq m.slot.name n e, some-injective m a (rw e at h))
  | inr e ↦ inr (rw e at h)
]

find_method-head :
    (m : CoolMethod) (ms : List CoolMethod) → find_method m.slot.name (m ∷ ms) ≡ some m
unfolding find_method
find_method-head m ms = rw (equal_refl m.slot.name) refl

-- With every name once, what is found in the rest is found in the whole, under another name.
find_method-rest :
    (n : Bytes) (m a : CoolMethod) (ms : List CoolMethod)
    → find_method m.slot.name ms ≡ none
    → find_method n ms ≡ some a
    → (m.slot.name ≢ n) × (find_method n (m ∷ ms) ≡ some a)
unfolding find_method
find_method-rest n m a ms k h = elim (Bool-cases (equal m.slot.name n)) [
  | inl e ↦
      absurd (none-ne-some a (sym k ∙ ap (λ x. find_method x ms) (equal→eq m.slot.name n e) ∙ h))
  | inr e ↦ (λ q. true≢false (sym (equal_refl n) ∙ ap (λ x. equal x n) (sym q) ∙ e), rw e h)
]

module _ (cls : Bytes) where
  -- The methods whose slot belongs to the class.
  abbrev pub Introduces : List CoolMethod → Bytes → CoolMethod → Type 0
  Introduces ms n m = (find_method n ms ≡ some m) × (m.slot.declaring_class ≡ cls)

  abbrev pub Unshared : List CoolMethod → Type 0
  Unshared ms =
      (n k : Bytes) (a b : CoolMethod)
      → Introduces ms n a
      → Introduces ms k b
      → a.slot.vtable_index ≡ b.slot.vtable_index
      → n ≡ k

module _ (program : Table) (top : Bytes) where
  -- The method that a call through the slot goes to on an object of the class `top`.
  abbrev pub Answers : CoolMethod → CoolMethod → Type 0
  Answers m r = (lookup_method program top m.slot.name ≡ some r) × (r.slot ≡ m.slot)

  -- The element at the index of the slot is the function of the method that the call goes to.
  abbrev pub HasEntry : List Entry → CoolMethod → Type 0
  HasEntry es m =
      (r : CoolMethod) × Answers m r × (get_elem? es m.slot.vtable_index ≡ some (func r.func))

module _ (program : Table) (top cls : Bytes) where
  abbrev pub Answered : List CoolMethod → Type 0
  Answered ms =
      (n : Bytes) (m : CoolMethod)
      → Introduces cls ms n m
      → (r : CoolMethod) × Answers program top m r

  pub record HasEntries (ms : List CoolMethod) (es es' : List Entry) : Type 0 where
    pub entered :
        Unshared cls ms
        → (n : Bytes) (m : CoolMethod) → Introduces cls ms n m
        → HasEntry program top es' m
    pub keeps :
        (i : ℕ) (v : Entry)
        → get_elem? es i ≡ some v
        → ((n : Bytes) (m : CoolMethod) → Introduces cls ms n m → m.slot.vtable_index ≢ i)
        → get_elem? es' i ≡ some v

  not_own :
      (m b : CoolMethod)
      → equal m.slot.declaring_class cls ≡ false
      → m ≡ b
      → b.slot.declaring_class ≢ cls
  not_own m b e y o = true≢false (
      sym (equal_refl cls)
      ∙ ap (λ x. equal x cls) (sym o)
      ∙ ap (λ (x : CoolMethod). equal x.slot.declaring_class cls) (sym y)
      ∙ e)

  entries_loop-other :
      (m : CoolMethod) (ms : List CoolMethod) (es : List Entry)
      → equal m.slot.declaring_class cls ≡ false
      → entries_loop program top cls (m ∷ ms) es ≡ entries_loop program top cls ms es
  unfolding entries_loop
  entries_loop-other m ms es e = rw (e, entries_loop) refl

  entries_loop-own :
      (m r : CoolMethod) (ms : List CoolMethod) (es : List Entry)
      → equal m.slot.declaring_class cls ≡ true
      → Answers program top m r
      → entries_loop program top cls (m ∷ ms) es
        ≡ entries_loop program top cls ms (set_entry m.slot.vtable_index (func r.func) es)
  unfolding entries_loop
  entries_loop-own m r ms es e (l, s) =
      let same = ap (λ x. same_slot x m.slot) s ∙ same_slot_refl m.slot in
      rw (e, l, ◌>>=◌, same, entries_loop) refl

  pub entries_loop-HasEntries :
      (ms : List CoolMethod) (es : List Entry)
      → Keyed ms
      → Answered ms
      → (es' : List Entry) × (entries_loop program top cls ms es ≡ some es') × HasEntries ms es es'
  unfolding entries_loop find_method
  entries_loop-HasEntries [] es k a = (
    es,
    refl,
    record { entered = λ u n m (f, o). absurd (none-ne-some m f); keeps = λ i v h o. h },
  )
  entries_loop-HasEntries (m ∷ ms) es (k, ks) a =
      let up : (n : Bytes) (b : CoolMethod) → Introduces cls ms n b → Introduces cls (m ∷ ms) n b =
        λ n b (f, o). ((find_method-rest n m b ms k f).1, o) in
      let part : Unshared cls (m ∷ ms) → Unshared cls ms =
        λ u n o b c x y. u n o b c (up n b x) (up o c y) in
      let a' : Answered ms = λ n b x. a n b (up n b x) in
      elim (Bool-cases (equal m.slot.declaring_class cls)) [
        | inr e ↦
            let (es', q, h) = entries_loop-HasEntries ms es ks a' in
            (
              es',
              entries_loop-other m ms es e ∙ q,
              record {
                entered = λ u n b (f, o). elim (find_method-cons n m b ms f) [
                  | inl (x, y) ↦ absurd (not_own m b e y o)
                  | inr g ↦ h.entered (part u) n b (g, o)
                ];
                keeps = λ i v g o. h.keeps i v g (λ n b x. o n b (up n b x));
              },
            )
        | inl e ↦
            let own : Introduces cls (m ∷ ms) m.slot.name m =
              (find_method-head m ms, equal→eq m.slot.declaring_class cls e) in
            let (r, l) = a m.slot.name m own in
            let (es', q, h) =
              entries_loop-HasEntries ms (set_entry m.slot.vtable_index (func r.func) es) ks a' in
            (
              es',
              entries_loop-own m r ms es e l ∙ q,
              record {
                entered = λ u n b (f, o). elim (find_method-cons n m b ms f) [
                  | inl (x, y) ↦ subst (HasEntry program top es') y (
                    r,
                    l,
                    h.keeps m.slot.vtable_index (func r.func)
                        (set_entry_self m.slot.vtable_index (func r.func) es)
                        (λ j c z i.
                          (find_method-rest j m c ms k z.0).0
                            (u m.slot.name j m c own (up j c z) (sym i))),
                  )
                  | inr g ↦ h.entered (part u) n b (g, o)
                ];
                keeps = λ i v g o.
                    h.keeps i v
                      (set_entry_ne m.slot.vtable_index i (func r.func) v es (o m.slot.name m own)
                        g)
                      (λ n b x. o n b (up n b x));
              },
            )
      ]
