-- ===== src/Ast.antt =====
-- src/ast.hpp: the abstract syntax. An expression carries its location first; a `unique_ptr` that may
-- be null is a `MaybeExpr`, a vector of expressions is `Exprs`.
use lcool.Base.{Bool, List, Option, Bytes}
use lcool.Base.Int.{ℤ}
use lcool.Logger.{Location}

pub data UnaryType : Type 0 where
  isvoid negate logical_not : UnaryType

pub data BinaryType : Type 0 where
  add subtract multiply divide less less_or_equal equal : BinaryType

mutual
  pub data Expr : Type 0 where
    assign : Location → Bytes → Expr → Expr
    dispatch : Location → Bytes → MaybeExpr → Option Bytes → Exprs → Expr
    conditional : Location → Expr → Expr → Expr → Expr
    loop : Location → Expr → Expr → Expr
    block : Location → Exprs → Expr
    let_in : Location → Attributes → Expr → Expr
    type_case : Location → Expr → Branches → Expr
    new_object : Location → Bytes → Expr
    constant_bool : Location → Bool → Expr
    constant_int : Location → ℤ → Expr
    constant_string : Location → Bytes → Expr
    identifier : Location → Bytes → Expr
    compute_unary : Location → UnaryType → Expr → Expr
    compute_binary : Location → BinaryType → Expr → Expr → Expr

  pub data MaybeExpr : Type 0 where
    null : MaybeExpr
    expr : Expr → MaybeExpr

  pub data Exprs : Type 0 where
    no_exprs : Exprs
    more_exprs : Expr → Exprs → Exprs

  -- Location, name, type and initial value.
  pub data Attribute : Type 0 where
    attribute : Location → Bytes → Bytes → MaybeExpr → Attribute

  pub data Attributes : Type 0 where
    no_attributes : Attributes
    more_attributes : Attribute → Attributes → Attributes

  -- Identifier, type and body of each branch.
  pub data Branches : Type 0 where
    no_branches : Branches
    more_branches : Bytes → Bytes → Expr → Branches → Branches

pub record Method : Type 0 where
  pub loc : Location
  pub name : Bytes
  pub type : Bytes
  pub params : List (Bytes × Bytes)
  pub body : Expr

pub record Class : Type 0 where
  pub loc : Location
  pub name : Bytes
  pub parent : Option Bytes
  pub attributes : List Attribute
  pub methods : List Method

abbrev pub Program : Type 0
Program = List Class

-- `push_back` on the vectors inside expressions.
unfoldable pub push_expr : Exprs → Expr → Exprs
push_expr no_exprs e = more_exprs e no_exprs
push_expr (more_exprs x xs) e = more_exprs x (push_expr xs e)

unfoldable pub push_attribute : Attributes → Attribute → Attributes
push_attribute no_attributes a = more_attributes a no_attributes
push_attribute (more_attributes x xs) a = more_attributes x (push_attribute xs a)

unfoldable pub push_branch : Branches → Bytes → Bytes → Expr → Branches
push_branch no_branches id type body = more_branches id type body no_branches
push_branch (more_branches i t b rest) id type body =
    more_branches i t b (push_branch rest id type body)
