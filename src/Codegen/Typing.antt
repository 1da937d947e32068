-- ===== src/Codegen/Typing.antt =====
-- Typing rules for the expressions that src/codegen.cpp builds code of: which class an expression has, in
-- a method of a class of the program, where the local variables have given classes. The rules stand on the
-- table alone; no rule is about what is built. They are those of the language, without some of what it
-- allows. An assignment to an attribute stands where its value is not used, as a statement of a block or
-- the body of a loop, or has a value of the class of self: the generator leaves self as its result. A `case`
-- is over objects, and each branch stands before those of its superclasses. The function of a method that
-- is called takes an object of the class of its slot, and for a `case` the module has the type of
-- Object's vtable.
use lcool.Base.{
  Bool, true, false, Option, none, some, List, [], ◌∷◌, ◌≡◌, ◌⊎◌, ◌||◌, Bytes, codes, equal,
  if◌then◌else◌,
}
use lcool.Base.Int.{ℤ}
use lcool.Logger.{Location}
use lcool.Ast.{
  isvoid, negate, logical_not, BinaryType, add, subtract, multiply, divide, less, less_or_equal,
  Expr, MaybeExpr, Exprs, Attributes, assign, dispatch, conditional, loop, block, let_in,
  new_object, constant_bool, constant_int, constant_string, identifier, compute_unary,
  compute_binary, null, expr, no_exprs, more_exprs, attribute, no_attributes, more_attributes,
  type_case, Branches, no_branches, more_branches,
}
use lcool.Program.{
  CoolClass, CoolAttribute, CoolMethod, Table, lookup_class, is_subclass_of, lookup_attribute,
  lookup_method,
}
use lcool.Program.Order.{Holds, Below}
use lcool.Codegen.Classes.{is_value}
use lcool.Codegen.Visit.{Context}
use lcool.Codegen.Members.{TakesObject}
use lcool.Codegen.Builds.{Scope}

abbrev pub self : Bytes
self = codes "self"

unfoldable pub class_in : Bytes → Scope → Option Bytes
unfolding equal
class_in name [] = none
class_in name ((n, c) ∷ s) = if equal n name then some c else class_in name s

-- An attribute of the class that is compiled.
pub record IsAttribute (ctx : Context) (id : Bytes) (a : CoolAttribute) : Type 0 where
  pub cls : CoolClass
  pub stands : lookup_class ctx.declaring_cls ctx.program ≡ some cls
  pub found : lookup_attribute cls id ≡ some a

-- The least class above both.
pub record IsLeast (t : Table) (a b d : Bytes) : Type 0 where
  pub above_first : Below t a d
  pub above_second : Below t b d
  pub below_any : (e : Bytes) → Below t a e → Below t b e → Below t d e

-- A class whose values are pointers to objects.
pub record IsReference (t : Table) (a : Bytes) : Type 0 where
  pub cls : CoolClass
  pub stands : lookup_class a t ≡ some cls
  pub by_reference : is_value cls.llvm_type ≡ false

abbrev pub AllBelow : Table → List Bytes → Bytes → Type 0
AllBelow t [] d = Unit {0}
AllBelow t (a ∷ rest) d = Below t a d × AllBelow t rest d

-- The least class above all of some classes.
pub record IsLeastOf (t : Table) (ks : List Bytes) (d : Bytes) : Type 0 where
  pub above : AllBelow t ks d
  pub below_any : (e : Bytes) → AllBelow t ks e → Below t d e

-- No class of the list is a subclass of this one.
abbrev pub NoneBelow : Table → Bytes → List Bytes → Type 0
NoneBelow t a [] = Unit {0}
NoneBelow t a (b ∷ rest) = (is_subclass_of t b a ≡ false) × NoneBelow t a rest

abbrev pub branch_types : Branches → List Bytes
branch_types no_branches = []
branch_types (more_branches id type body rest) = type ∷ branch_types rest

-- A method of the class, with what its pointers point to.
pub record IsMethod (t : Table) (cls name : Bytes) (m : CoolMethod) : Type 0 where
  pub found : lookup_method t cls name ≡ some m
  pub declared_above : Below t cls m.slot.declaring_class
  pub stands : Holds t m.declaring_class
  pub takes_object : TakesObject t m

-- Every argument has a class below the parameter's.
pub data Pass (t : Table) : List Bytes → List Bytes → Type 0 where
  none_left : Pass t [] []
  one_more :
      {a p : Bytes} {args params : List Bytes}
      → Below t a p
      → Pass t args params
      → Pass t (a ∷ args) (p ∷ params)

unfoldable pub is_basic : Bytes → Bool
unfolding equal
is_basic c = equal c (codes "Bool") || (equal c (codes "Int") || equal c (codes "String"))

-- Values that `=` compares: of the same class, or of two that are not basic.
abbrev pub AreComparable : Bytes → Bytes → Type 0
AreComparable a b = (a ≡ b) ⊎ ((is_basic a ≡ false) × (is_basic b ≡ false))

-- The operations on two numbers, and the class of their results.
pub data OnInts : BinaryType → Bytes → Type 0 where
  adds : OnInts add (codes "Int")
  subtracts : OnInts subtract (codes "Int")
  multiplies : OnInts multiply (codes "Int")
  divides : OnInts divide (codes "Int")
  lesses : OnInts less (codes "Bool")
  less_or_equals : OnInts less_or_equal (codes "Bool")

mutual
  pub data Typed (ctx : Context) : Scope → Expr → Bytes → Type 0 where
    assign_variable :
        {s : Scope} {loc : Location} {id c d : Bytes} {e : Expr}
        → Typed ctx s e c
        → equal id self ≡ false
        → class_in id s ≡ some d
        → Below ctx.program c d
        → Typed ctx s (assign loc id e) c
    -- Where the value has the class of self; see `sets_member`.
    assign_member :
        {s : Scope} {loc : Location} {id c : Bytes} {e : Expr} {a : CoolAttribute}
        → Typed ctx s e c
        → equal id self ≡ false
        → class_in id s ≡ none
        → IsAttribute ctx id a
        → Below ctx.program c a.type
        → class_in self s ≡ some c
        → Typed ctx s (assign loc id e) c
    calls :
        {s : Scope} {loc : Location} {name c : Bytes} {object : MaybeExpr} {args : Exprs}
        {cs : List Bytes} {m : CoolMethod}
        → TypedObject ctx s object c
        → TypedAll ctx s args cs
        → IsMethod ctx.program c name m
        → Pass ctx.program cs m.slot.parameter_types
        → Typed ctx s (dispatch loc name object none args) m.slot.return_type
    calls_static :
        {s : Scope} {loc : Location} {name c d : Bytes} {object : MaybeExpr} {args : Exprs}
        {cs : List Bytes} {m : CoolMethod}
        → TypedObject ctx s object c
        → TypedAll ctx s args cs
        → Below ctx.program c d
        → IsMethod ctx.program d name m
        → Pass ctx.program cs m.slot.parameter_types
        → Typed ctx s (dispatch loc name object (some d) args) m.slot.return_type
    if_least :
        {s : Scope} {loc : Location} {c d e : Bytes} {p x y : Expr}
        → Typed ctx s p (codes "Bool")
        → Typed ctx s x c
        → Typed ctx s y d
        → IsLeast ctx.program c d e
        → Typed ctx s (conditional loc p x y) e
    loops :
        {s : Scope} {loc : Location} {p x : Expr}
        → Typed ctx s p (codes "Bool")
        → TypedStatement ctx s x
        → Typed ctx s (loop loc p x) (codes "Object")
    blocks :
        {s : Scope} {loc : Location} {c : Bytes} {xs : Exprs}
        → TypedBlock ctx s xs c
        → Typed ctx s (block loc xs) c
    lets :
        {s s' : Scope} {loc : Location} {c : Bytes} {vars : Attributes} {e : Expr}
        → TypedVariables ctx s vars s'
        → Typed ctx s' e c
        → Typed ctx s (let_in loc vars e) c
    cases :
        {s : Scope} {loc : Location} {c d f : Bytes} {ds : List Bytes} {e : Expr}
        {branches : Branches}
        → ctx.has_vtable_type ≡ true
        → Typed ctx s e c
        → IsReference ctx.program c
        → TypedBranches ctx s branches (d ∷ ds)
        → IsLeastOf ctx.program (d ∷ ds) f
        → Typed ctx s (type_case loc e branches) f
    news :
        {s : Scope} {loc : Location} {c : Bytes}
        → Holds ctx.program c
        → Typed ctx s (new_object loc c) c
    bools :
        {s : Scope} {loc : Location} {b : Bool} → Typed ctx s (constant_bool loc b) (codes "Bool")
    ints : {s : Scope} {loc : Location} {n : ℤ} → Typed ctx s (constant_int loc n) (codes "Int")
    strings :
        {s : Scope} {loc : Location} {b : Bytes}
        → Typed ctx s (constant_string loc b) (codes "String")
    variable :
        {s : Scope} {loc : Location} {id c : Bytes}
        → class_in id s ≡ some c
        → Typed ctx s (identifier loc id) c
    member :
        {s : Scope} {loc : Location} {id d : Bytes} {a : CoolAttribute}
        → class_in id s ≡ none
        → IsAttribute ctx id a
        → class_in self s ≡ some d
        → Typed ctx s (identifier loc id) a.type
    tests_void :
        {s : Scope} {loc : Location} {c : Bytes} {e : Expr}
        → Typed ctx s e c
        → Holds ctx.program c
        → Typed ctx s (compute_unary loc isvoid e) (codes "Bool")
    negates :
        {s : Scope} {loc : Location} {e : Expr}
        → Typed ctx s e (codes "Int")
        → Typed ctx s (compute_unary loc negate e) (codes "Int")
    nots :
        {s : Scope} {loc : Location} {e : Expr}
        → Typed ctx s e (codes "Bool")
        → Typed ctx s (compute_unary loc logical_not e) (codes "Bool")
    computes :
        {s : Scope} {loc : Location} {op : BinaryType} {c : Bytes} {x y : Expr}
        → OnInts op c
        → Typed ctx s x (codes "Int")
        → Typed ctx s y (codes "Int")
        → Typed ctx s (compute_binary loc op x y) c
    compares :
        {s : Scope} {loc : Location} {c d : Bytes} {x y : Expr}
        → Typed ctx s x c
        → Typed ctx s y d
        → AreComparable c d
        → Typed ctx s (compute_binary loc BinaryType.equal x y) (codes "Bool")

  -- An expression whose value is not used: any that has a class, and an assignment to an attribute.
  pub data TypedStatement (ctx : Context) : Scope → Expr → Type 0 where
    valued : {s : Scope} {c : Bytes} {e : Expr} → Typed ctx s e c → TypedStatement ctx s e
    sets_member :
        {s : Scope} {loc : Location} {id c d : Bytes} {e : Expr} {a : CoolAttribute}
        → Typed ctx s e c
        → equal id self ≡ false
        → class_in id s ≡ none
        → IsAttribute ctx id a
        → Below ctx.program c a.type
        → class_in self s ≡ some d
        → TypedStatement ctx s (assign loc id e)

  -- The object of a call, self if none is written.
  pub data TypedObject (ctx : Context) : Scope → MaybeExpr → Bytes → Type 0 where
    on_self : {s : Scope} {c : Bytes} → class_in self s ≡ some c → TypedObject ctx s null c
    on_value : {s : Scope} {c : Bytes} {e : Expr} → Typed ctx s e c → TypedObject ctx s (expr e) c

  pub data TypedAll (ctx : Context) : Scope → Exprs → List Bytes → Type 0 where
    no_more : {s : Scope} → TypedAll ctx s no_exprs []
    and_more :
        {s : Scope} {e : Expr} {es : Exprs} {c : Bytes} {cs : List Bytes}
        → Typed ctx s e c
        → TypedAll ctx s es cs
        → TypedAll ctx s (more_exprs e es) (c ∷ cs)

  -- The class of the last.
  pub data TypedBlock (ctx : Context) : Scope → Exprs → Bytes → Type 0 where
    last_one :
        {s : Scope} {e : Expr} {c : Bytes}
        → Typed ctx s e c
        → TypedBlock ctx s (more_exprs e no_exprs) c
    before :
        {s : Scope} {e e' : Expr} {es : Exprs} {d : Bytes}
        → TypedStatement ctx s e
        → TypedBlock ctx s (more_exprs e' es) d
        → TypedBlock ctx s (more_exprs e (more_exprs e' es)) d

  -- The variables of a `let`, each in the scope of those before it.
  pub data TypedVariables (ctx : Context) : Scope → Attributes → Scope → Type 0 where
    no_variables : {s : Scope} → TypedVariables ctx s no_attributes s
    without_value :
        {s s' : Scope} {loc : Location} {id c : Bytes} {rest : Attributes}
        → Holds ctx.program c
        → equal id self ≡ false
        → TypedVariables ctx ((id, c) ∷ s) rest s'
        → TypedVariables ctx s (more_attributes (attribute loc id c null) rest) s'
    with_value :
        {s s' : Scope} {loc : Location} {id c d : Bytes} {e : Expr} {rest : Attributes}
        → Typed ctx s e d
        → Below ctx.program d c
        → equal id self ≡ false
        → TypedVariables ctx ((id, c) ∷ s) rest s'
        → TypedVariables ctx s (more_attributes (attribute loc id c (expr e)) rest) s'

  -- The branches of a `case`, with the classes of their bodies. A branch stands before those of its
  -- superclasses.
  pub data TypedBranches (ctx : Context) : Scope → Branches → List Bytes → Type 0 where
    no_branch : {s : Scope} → TypedBranches ctx s no_branches []
    and_branch :
        {s : Scope} {id type d : Bytes} {ds : List Bytes} {e : Expr} {rest : Branches}
        → IsReference ctx.program type
        → equal id self ≡ false
        → Typed ctx ((id, type) ∷ s) e d
        → NoneBelow ctx.program type (branch_types rest)
        → TypedBranches ctx s rest ds
        → TypedBranches ctx s (more_branches id type e rest) (d ∷ ds)
