-- ===== src/Layout/Insertion/Index.antt =====
-- The index of the input's classes (src/layout.cpp): what it finds is a class of that name.
use lcool.Base.{
  ℕ, suc, ◌+◌, ◌≡◌, refl, sym, ap, ◌∙◌, subst, ◌⊎◌, some, [], ◌∷◌, Bytes, equal, equal→eq,
  Bool-cases, Option-cases, inl, inr, get_elem?, arith,
}
use mathlib.Core.Option.{some-injective}
use lcool.Logger.{Logger}
use lcool.Ast.{Class, Program}
use lcool.Program.{Table, lookup_class}
use lcool.Layout.Insertion.{Index, find_index, index_loop, log_redefined}

abbrev pub IsIndex : Program → Index → Type 0
IsIndex input index =
    (name : Bytes) (i : ℕ)
    → find_index name index ≡ some i
    → (cls : Class) × (get_elem? input i ≡ some cls) × (cls.name ≡ name)

IsIndex-enter :
    (input : Program) (index : Index) (i : ℕ) (cls : Class)
    → get_elem? input i ≡ some cls
    → IsIndex input index
    → IsIndex input ((cls.name, i) ∷ index)
unfolding find_index
IsIndex-enter input index i cls e h name j found = elim (Bool-cases (equal cls.name name)) [
  | inl s ↦
      let k = some-injective i j (sym (rw s refl) ∙ found) in
      (cls, ap (get_elem? input) (sym k) ∙ e, equal→eq cls.name name s)
  | inr n ↦ h name j (rw n at found)
]

-- One round of the loop: the class is skipped with an error, or it enters the index.
index_loop-round :
    (output : Table) (cls : Class) (rest : Program) (i : ℕ) (index : Index) (log : Logger)
    → (index' : Index) × (log' : Logger) × (index_loop output (cls ∷ rest) i index log
        ≡ index_loop output rest (suc i) index' log')
      × ((index' ≡ index) ⊎ (index' ≡ (cls.name, i) ∷ index))
unfolding index_loop
index_loop-round output cls rest i index log = elim (Option-cases (lookup_class cls.name output)) [
  | inr (old, e) ↦ (index, log_redefined cls log, rw (e, index_loop) refl, inl refl)
  | inl e ↦ elim (Option-cases (find_index cls.name index)) [
    | inr (old, e') ↦ (index, log_redefined cls log, rw (e, e', index_loop) refl, inl refl)
    | inl e' ↦ ((cls.name, i) ∷ index, log, rw (e, e', index_loop) refl, inr refl)
  ]
]

pub index_loop-IsIndex :
    (input : Program) (output : Table) (rest : Program) (i : ℕ) (index : Index) (log : Logger)
    → ((k : ℕ) → get_elem? input (i + k) ≡ get_elem? rest k)
    → IsIndex input index
    → IsIndex input (index_loop output rest i index log).0
unfolding index_loop
index_loop-IsIndex input output [] i index log suffix h = h
index_loop-IsIndex input output (cls ∷ rest) i index log suffix h =
    let (index', log', e, kind) = index_loop-round output cls rest i index log in
    let here : get_elem? input i ≡ some cls = ap (get_elem? input) (omega arith) ∙ suffix 0 in
    let entered : IsIndex input index' = elim kind [
      | inl s ↦ subst (IsIndex input) (sym s) h
      | inr s ↦ subst (IsIndex input) (sym s) (IsIndex-enter input index i cls here h)
    ] in
    subst (λ r. IsIndex input r.0) (sym e)
      (index_loop-IsIndex input output rest (suc i) index' log'
        (λ k. ap (get_elem? input) (omega arith) ∙ suffix (suc k)) entered)
