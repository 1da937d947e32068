-- ===== src/Layout/Insertion/Sorted.antt =====
-- What `insert_empty_classes` (src/layout.cpp) leaves, on every program.
use lcool.Base.{
  ℕ, zero, suc, ◌≡◌, ◌⊎◌, refl, sym, ap, ◌∙◌, true, false, some, [], ◌∷◌, Bytes, codes, Bool-cases,
  inl, inr, length, get_elem?, arith,
}
use mathlib.Core.Bool.{true≢false}
use mathlib.Core.Option.{none-ne-some, some-injective}
use lcool.Logger.{Logger, has_errors}
use lcool.Ast.{Class, Program}
use lcool.Program.{Table, lookup_class}
use lcool.Program.Order.{Holds, IsWellFormed}
use lcool.Layout.Insertion.{
  Visit, unseen, visiting, visited, Index, find_index, InsertState, count, same_visit, all_unseen,
  index_loop, visit_loop, insert_empty_classes,
}
use lcool.Layout.Insertion.Index.{IsIndex, index_loop-IsIndex}
use lcool.Layout.Insertion.Walk.{ParentsFirst, no_classes, Listed}
use lcool.Layout.Insertion.Ends.{Walks, visit_loop-Walks}

-- The table stays well formed and keeps its classes, what is new in it is in the list, the list has
-- parents before their children, and without an error every class of the input is in the table.
pub record IsSorted (input : Program) (output : Table) (s : InsertState) : Type 0 where
  pub well_formed : IsWellFormed s.output
  pub keeps : (n : Bytes) → Holds output n → lookup_class n s.output ≡ lookup_class n output
  pub known : (n : Bytes) → Holds s.output n → Holds output n ⊎ Listed n s.layout_list
  pub parents_first : ParentsFirst output s.layout_list
  pub complete :
      has_errors s.log ≡ false
      → (i : ℕ) (c : Class) → get_elem? input i ≡ some c
      → Holds s.output c.name

length-all_unseen : (input : Program) → length (all_unseen input) ≡ length input
length-all_unseen [] = refl
length-all_unseen (c ∷ cs) = ap suc (length-all_unseen cs)

get_elem?-all_unseen :
    (input : Program) (i : ℕ) (v : Visit) → get_elem? (all_unseen input) i ≡ some v → v ≡ unseen
get_elem?-all_unseen [] i v h = absurd (none-ne-some v h)
get_elem?-all_unseen (c ∷ cs) zero v h = sym (some-injective unseen v h)
get_elem?-all_unseen (c ∷ cs) (suc i) v h = get_elem?-all_unseen cs i v h

count-all_unseen : (input : Program) → 0 ≡ count visiting (all_unseen input)
unfolding count same_visit
count-all_unseen [] = refl
count-all_unseen (c ∷ cs) = omega (arith, count-all_unseen cs)

abbrev start : Program → Table → Logger → InsertState
start input output log = record {
  output = output;
  log = log;
  layout_list = [];
  visited_list = all_unseen input;
}

start-Walks :
    (input : Program) (index : Index) (output : Table) (log : Logger)
    → IsWellFormed output
    → Walks input index output [] (start input output log)
start-Walks input index output log w = record {
  sound = record {
    sized = length-all_unseen input;
    well_formed = w;
    keeps = λ n h. refl;
    placed = λ i c v e. cc (get_elem?-all_unseen input i visited v);
    known = λ n h. inl h;
    parents_first = no_classes;
  };
  trail = record {
    covers = λ i v. cc (get_elem?-all_unseen input i visiting v);
    stays = λ i o. elim o [ ];
    counted = count-all_unseen input;
  };
}

module _ (input : Program) (output : Table) (log : Logger) where
  abbrev indexed : Index × Logger
  indexed = index_loop output input 0 [] log

  indexed-IsIndex : IsIndex input indexed.0
  unfolding find_index
  indexed-IsIndex =
      index_loop-IsIndex input output input 0 [] log (λ k. ap (get_elem? input) (omega arith))
        (λ n i h. absurd (none-ne-some i h))

  abbrev begun : InsertState
  begun = start input output indexed.1

  stopped : has_errors indexed.1 ≡ true → IsWellFormed output → IsSorted input output begun
  stopped e w = record {
    well_formed = w;
    keeps = λ n h. refl;
    known = λ n h. inl h;
    parents_first = no_classes;
    complete = λ n. absurd (true≢false (sym e ∙ n));
  }

  walked :
      IsWellFormed output
      → Holds output (codes "Object")
      → (s : InsertState) × (visit_loop input indexed.0 (length input) 0 begun ≡ some s)
        × IsSorted input output s
  walked w rooted =
      let (s, e, walks, placed) =
        visit_loop-Walks input indexed.0 output indexed-IsIndex rooted (length input) 0 begun
          (start-Walks input indexed.0 output indexed.1 w) (omega arith)
          (λ j c lt. absurd (omega arith)) in
      (
        s,
        e,
        record {
          well_formed = walks.sound.well_formed;
          keeps = walks.sound.keeps;
          known = walks.sound.known;
          parents_first = walks.sound.parents_first;
          complete = λ n i c x. elim (placed i c x) [
            | inl h ↦ h
            | inr e' ↦ absurd (true≢false (sym e' ∙ n))
          ];
        },
      )

-- On every program, `insert_empty_classes` returns: its recursion and the loop that spells out a
-- circular inheritance end. From a well-formed table with an Object it leaves a well-formed table that
-- keeps the earlier classes, and a list in which no class stands before its parent; the names that are
-- new in the table are those of the list, and unless an error was logged every class of the input is in
-- the table.
pub insert_empty_classes-IsSorted :
    (input : Program) (output : Table) (log : Logger)
    → IsWellFormed output
    → Holds output (codes "Object")
    → (s : InsertState) × (insert_empty_classes input output log ≡ some s) × IsSorted input output s
unfolding insert_empty_classes
insert_empty_classes-IsSorted input output log w rooted =
    elim (Bool-cases (has_errors (indexed input output log).1)) [
      | inl e ↦ (begun input output log, rw e refl, stopped input output log e w)
      | inr e ↦ let (s, q, sorted) = walked input output log w rooted in (s, rw e q, sorted)
    ]
