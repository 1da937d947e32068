-- ===== src/Layout/Insertion.antt =====
-- `insert_empty_classes` (src/layout.cpp): every class of the input goes into the table behind its
-- parent, by a depth-first walk along the parents. `none` stands for a run without enough fuel, an
-- index out of range, or a parent read off a class that names none.
pub mod Trail
pub mod Index
pub mod Grown
pub mod Walk
pub mod Ends
pub mod Sorted
use lcool.Base.{
  ℕ, zero, suc, ◌+◌, ◌==◌, ◌++◌, ◌||◌, Bool, true, false, Option, none, some, List, [], ◌∷◌, Bytes,
  codes, equal, if◌then◌else◌, length, get_elem?, set,
}
use lcool.Base.Options.{◌>>=◌}
use lcool.Logger.{Logger, has_errors, error_at}
use lcool.Ast.{Class, Program}
use lcool.Program.{LlvmType, CoolClass, Table, lookup_class, insert_class}

-- `tribool`: false, indeterminate and true.
pub data Visit : Type 0 where
  unseen visiting visited : Visit

-- `input_index`, the newest entry first.
abbrev pub Index : Type 0
Index = List (Bytes × ℕ)

unfoldable pub find_index : Bytes → Index → Option ℕ
find_index name [] = none
find_index name ((n, i) ∷ rest) = if equal n name then some i else find_index name rest

-- `insert_empty_classes_state`; the input and its index do not change during the walk.
pub record InsertState : Type 0 where
  pub output : Table
  pub log : Logger
  pub layout_list : Program
  pub visited_list : List Visit

-- The class whose name is the parent of a class of the input, with the entry that `operator[]` makes
-- for a missing name read as the 0 that it holds.
unfoldable pub next_class : Program → Index → ℕ → Option ℕ
unfolding find_index
next_class input index current = get_elem? input current >>= λ cls.
    cls.parent >>= λ p. elim (find_index p index) [ none ↦ some 0 | some i ↦ some i ]

abbrev pub name_at : Program → ℕ → Option Bytes
name_at input i = get_elem? input i >>= λ cls. some cls.name

-- The loop of `log_class_loop`.
unfoldable pub loop_string : Program → Index → ℕ → ℕ → ℕ → Bytes → Option Bytes
unfolding next_class
loop_string input index zero class_index current loop_str = none
loop_string input index (suc f) class_index current loop_str =
    next_class input index current >>= λ current'. name_at input current' >>= λ name.
    let longer = loop_str ++ (codes " -> " ++ name) in
    let rest = loop_string input index f class_index current' longer in
    if current' == class_index then some longer else rest

unfoldable pub same_visit : Visit → Visit → Bool
same_visit unseen unseen = true
same_visit visiting visiting = true
same_visit visited visited = true
same_visit _ _ = false

abbrev pub bit : Bool → ℕ
bit true = 1
bit false = 0

-- How many classes are in a state: the fuel of the loops is taken from it.
unfoldable pub count : Visit → List Visit → ℕ
unfolding same_visit
count v [] = 0
count v (w ∷ ws) = bit (same_visit v w) + count v ws

unfoldable pub log_class_loop : Program → Index → ℕ → InsertState → Option InsertState
unfolding loop_string count
log_class_loop input index class_index state = get_elem? input class_index >>= λ cls.
    loop_string input index (count visiting state.visited_list) class_index class_index cls.name
    >>= λ loop_str. some (record state {
      log = error_at cls.loc (codes "circular inheritance: " ++ loop_str) state.log;
    })

abbrev pub mark : ℕ → Visit → InsertState → InsertState
mark i v state = record state { visited_list = set state.visited_list i v }

-- The constructor of `user_class`; its structure type is named like the class.
unfoldable pub user_class : Bytes → CoolClass → CoolClass
user_class name parent = record {
  name = name;
  parent = some parent.name;
  final = false;
  llvm_type = LlvmType.pointer name;
  attributes = [];
  methods = [];
}

-- `insert_class<user_class>`, whose result is not looked at.
unfoldable pub insert_user_class : Bytes → CoolClass → Table → Table
unfolding insert_class user_class
insert_user_class name parent output = elim (insert_class (user_class name parent) output) [
  | none ↦ output
  | some t ↦ t
]

-- The end of a visit, from "This class is done" on.
unfoldable pub finish_visit : ℕ → Class → Option CoolClass → InsertState → InsertState
unfolding insert_user_class
finish_visit class_index cls none state = mark class_index visited state
finish_visit class_index cls (some parent) state = record state {
  visited_list = set state.visited_list class_index visited;
  output = insert_user_class cls.name parent state.output;
  layout_list = state.layout_list ++ cls ∷ [];
}

-- `get_value_or("Object")`
abbrev pub parent_name : Class → Bytes
parent_name cls = elim cls.parent [ none ↦ codes "Object" | some p ↦ p ]

unfoldable pub log_not_defined : Class → InsertState → InsertState
log_not_defined cls state = record state {
  log = error_at cls.loc (codes "class not defined '" ++ (parent_name cls ++ codes "'")) state.log;
}

-- A class not yet seen; `visit` is the recursive call.
unfoldable pub visit_new :
    Index → (ℕ → InsertState → Option InsertState) → ℕ → Class → InsertState → Option InsertState
unfolding find_index finish_visit log_not_defined lookup_class
visit_new index visit class_index cls state = elim (lookup_class (parent_name cls) state.output) [
  | some parent ↦ some (finish_visit class_index cls (some parent) state)
  | none ↦ elim (find_index (parent_name cls) index) [
    | none ↦ some (finish_visit class_index cls none (log_not_defined cls state))
    | some parent_index ↦ visit parent_index (mark class_index visiting state) >>= λ after.
        some (finish_visit class_index cls (lookup_class (parent_name cls) after.output) after)
  ]
]

-- The branches on the state of the class.
unfoldable pub visit_by :
    Visit
    → Program
    → Index
    → (ℕ → InsertState → Option InsertState)
    → ℕ
    → InsertState
    → Option InsertState
unfolding log_class_loop visit_new
visit_by visiting input index visit class_index state = log_class_loop input index class_index state
visit_by visited input index visit class_index state = some state
visit_by unseen input index visit class_index state =
    get_elem? input class_index >>= λ cls. visit_new index visit class_index cls state

unfoldable pub insert_empty_classes_visit :
    Program → Index → ℕ → ℕ → InsertState → Option InsertState
unfolding visit_by
insert_empty_classes_visit input index zero class_index state = none
insert_empty_classes_visit input index (suc f) class_index state =
    get_elem? state.visited_list class_index >>= λ v.
    visit_by v input index (insert_empty_classes_visit input index f) class_index state

abbrev pub log_redefined : Class → Logger → Logger
log_redefined cls log =
    error_at cls.loc (codes "redefinition of class '" ++ (cls.name ++ codes "'")) log

-- The loop that builds the index, at the class `i` and on.
unfoldable pub index_loop : Table → Program → ℕ → Index → Logger → Index × Logger
unfolding lookup_class find_index
index_loop output [] i index log = (index, log)
index_loop output (cls ∷ rest) i index log = elim (lookup_class cls.name output) [
  | some old ↦ index_loop output rest (suc i) index (log_redefined cls log)
  | none ↦ elim (find_index cls.name index) [
    | some old ↦ index_loop output rest (suc i) index (log_redefined cls log)
    | none ↦ index_loop output rest (suc i) ((cls.name, i) ∷ index) log
  ]
]

-- The loop that visits every class, with `rounds` of them left.
unfoldable pub visit_loop : Program → Index → ℕ → ℕ → InsertState → Option InsertState
unfolding insert_empty_classes_visit count
visit_loop input index zero i state = some state
visit_loop input index (suc rounds) i state =
    insert_empty_classes_visit input index (suc (count unseen state.visited_list)) i state
    >>= visit_loop input index rounds (suc i)

abbrev pub all_unseen : Program → List Visit
all_unseen [] = []
all_unseen (c ∷ cs) = unseen ∷ all_unseen cs

-- The table, the logger and the list of classes that it leaves.
unfoldable pub insert_empty_classes : Program → Table → Logger → Option InsertState
unfolding index_loop visit_loop
insert_empty_classes input output log =
    let (index, log') = index_loop output input 0 [] log in
    let state : InsertState = record {
      output = output;
      log = log';
      layout_list = [];
      visited_list = all_unseen input;
    } in
    let visits = visit_loop input index (length input) 0 state in
    if has_errors log' then some state else visits
