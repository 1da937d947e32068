-- ===== src/Dump.antt =====
-- src/parser_dump.cpp: the printer of the syntax tree. The visitor keeps the stream and the indent;
-- `std::flush` writes nothing. Streams print names as their bytes and numbers in decimal.
pub mod Prints
pub mod Escape
use lcool.Base.{
  ℕ, ◌+◌, ◌-◌, ◌++◌, Bool, true, false, Option, none, some, List, [], ◌∷◌, Bytes, String, codes,
  ◌==◌, if◌then◌else◌, replicate,
}
use lcool.Base.Int.{decimal_ℤ}
use lcool.Logger.{Location, to_string}
use lcool.Ast.{
  UnaryType, isvoid, negate, logical_not, BinaryType, add, subtract, multiply, divide, less,
  less_or_equal, equal, Expr, assign, dispatch, conditional, loop, block, let_in, type_case,
  new_object, constant_bool, constant_int, constant_string, identifier, compute_unary,
  compute_binary, MaybeExpr, null, expr, Exprs, no_exprs, more_exprs, Attribute, attribute,
  Attributes, no_attributes, more_attributes, Branches, no_branches, more_branches, Method, Class,
  Program,
}

pub record Dumper : Type 0 where
  pub out : Bytes
  pub indent : ℕ

-- One step after another.
infixl 20 ◌▸◌
unfoldable pub ◌▸◌ : (Dumper → Dumper) → (Dumper → Dumper) → Dumper → Dumper
(f ▸ g) d = g (f d)

unfoldable pub skip : Dumper → Dumper
skip d = d

-- `print_indent() << text`, and a plain `out_ << text`.
unfoldable pub put : Bytes → Dumper → Dumper
put text d = record d { out = d.out ++ text }

unfoldable pub print_indent : Dumper → Dumper
print_indent d = record d { out = d.out ++ replicate d.indent b' ' }

unfoldable pub line : Bytes → Dumper → Dumper
line text = print_indent ▸ put (text ++ b'\n' ∷ [])

unfoldable pub dump_indented : (Dumper → Dumper) → ℕ → Dumper → Dumper
dump_indented thing amount d =
    let d' = thing (record d { indent = d.indent + amount }) in
    record d' { indent = d'.indent - amount }

-- "'name'", and " (file:line:column)".
unfoldable pub quoted : Bytes → Bytes
quoted name = b'\'' ∷ (name ++ b'\'' ∷ [])

unfoldable pub at_loc : Location → Bytes
at_loc loc = codes " (" ++ (to_string loc ++ codes ")")

-- The `switch` on a character of a string constant.
unfoldable pub escape_char : ℕ → Bytes
escape_char c =
    if c == 8
    then b'\\' ∷ b'b' ∷ []
    else if c == 12
    then b'\\' ∷ b'f' ∷ []
    else if c == b'\n'
    then b'\\' ∷ b'n' ∷ []
    else if c == b'\r'
    then b'\\' ∷ b'r' ∷ []
    else if c == b'\t'
    then b'\\' ∷ b't' ∷ []
    else if c == b'\\'
    then b'\\' ∷ b'\\' ∷ []
    else if c == b'"'
    then b'\\' ∷ b'"' ∷ []
    else c ∷ []

unfoldable pub escape : Bytes → Bytes
escape [] = []
escape (c ∷ cs) = escape_char c ++ escape cs

unfoldable pub unary_name : UnaryType → Bytes
unary_name isvoid = codes "isvoid"
unary_name negate = codes "negate"
unary_name logical_not = codes "logical not"

unfoldable pub binary_name : BinaryType → Bytes
binary_name add = codes "add"
binary_name subtract = codes "subtract"
binary_name multiply = codes "multiply"
binary_name divide = codes "divide"
binary_name less = codes "less than"
binary_name less_or_equal = codes "less than or equal"
binary_name equal = codes "equal"

unfoldable pub dump_type : Option Bytes → Dumper → Dumper
dump_type none = skip
dump_type (some t) = line (codes " via type " ++ quoted t)

unfoldable pub bool_name : Bool → Bytes
bool_name b = if b then codes "true" else codes "false"

unfoldable pub attribute_head : Location → Bytes → Bytes → Dumper → Dumper
attribute_head loc name type =
    line (codes "attribute " ++ (quoted name ++ at_loc loc)) ▸ line (codes " type " ++ quoted type)

-- The visitors.
unfoldable mutual
  pub dump_expr : Expr → Dumper → Dumper
  dump_expr (assign loc id value) =
      line (codes "assign to " ++ (quoted id ++ at_loc loc)) ▸ dump_indented (dump_expr value) 1
  dump_expr (dispatch loc method_name object object_type arguments) =
      line (codes "dispatch to method " ++ (quoted method_name ++ at_loc loc))
      ▸ dump_object object
      ▸ dump_type object_type
      ▸ dump_arguments arguments
  dump_expr (conditional loc predicate if_true if_false) =
      line (codes "conditional" ++ at_loc loc)
      ▸ line (codes " predicate")
      ▸ dump_indented (dump_expr predicate) 2
      ▸ line (codes " if true")
      ▸ dump_indented (dump_expr if_true) 2
      ▸ line (codes " if false")
      ▸ dump_indented (dump_expr if_false) 2
  dump_expr (loop loc predicate body) =
      line (codes "loop" ++ at_loc loc)
      ▸ line (codes " predicate")
      ▸ dump_indented (dump_expr predicate) 2
      ▸ line (codes " body")
      ▸ dump_indented (dump_expr body) 2
  dump_expr (block loc statements) = line (codes "block" ++ at_loc loc) ▸ dump_exprs statements 1
  dump_expr (let_in loc vars body) =
      line (codes "let" ++ at_loc loc)
      ▸ dump_attributes vars
      ▸ line (codes " body")
      ▸ dump_indented (dump_expr body) 2
  dump_expr (type_case loc value branches) =
      line (codes "case" ++ at_loc loc)
      ▸ line (codes " value")
      ▸ dump_indented (dump_expr value) 2
      ▸ dump_branches branches
  dump_expr (new_object loc type) =
      line (codes "new" ++ at_loc loc) ▸ line (codes " type " ++ quoted type)
  dump_expr (constant_bool loc value) = line (codes "boolean " ++ (bool_name value ++ at_loc loc))
  dump_expr (constant_int loc value) = line (codes "integer " ++ (decimal_ℤ value ++ at_loc loc))
  dump_expr (constant_string loc value) =
      print_indent
      ▸ put (codes "string \"")
      ▸ put (escape value)
      ▸ put (codes "\"" ++ (at_loc loc ++ b'\n' ∷ []))
  dump_expr (identifier loc id) = line (codes "identifier " ++ (quoted id ++ at_loc loc))
  dump_expr (compute_unary loc op body) =
      line (unary_name op ++ at_loc loc) ▸ dump_indented (dump_expr body) 1
  dump_expr (compute_binary loc op left right) =
      line (binary_name op ++ at_loc loc)
      ▸ dump_indented (dump_expr left) 1
      ▸ dump_indented (dump_expr right) 1

  pub dump_object : MaybeExpr → Dumper → Dumper
  dump_object null = line (codes " on self")
  dump_object (expr e) = line (codes " on") ▸ dump_indented (dump_expr e) 2

  pub dump_arguments : Exprs → Dumper → Dumper
  dump_arguments no_exprs = line (codes " no arguments")
  dump_arguments (more_exprs e es) =
      line (codes " arguments") ▸ dump_indented (dump_expr e) 2 ▸ dump_exprs es 2

  pub dump_exprs : Exprs → ℕ → Dumper → Dumper
  dump_exprs no_exprs amount = skip
  dump_exprs (more_exprs e es) amount = dump_indented (dump_expr e) amount ▸ dump_exprs es amount

  pub dump_initial : MaybeExpr → Dumper → Dumper
  dump_initial null = skip
  dump_initial (expr e) = line (codes " initial =") ▸ dump_indented (dump_expr e) 2

  pub dump_attribute : Attribute → Dumper → Dumper
  dump_attribute (attribute loc name type initial) =
      attribute_head loc name type ▸ dump_initial initial

  pub dump_attributes : Attributes → Dumper → Dumper
  dump_attributes no_attributes = skip
  dump_attributes (more_attributes a rest) =
      dump_indented (dump_attribute a) 1 ▸ dump_attributes rest

  pub dump_branches : Branches → Dumper → Dumper
  dump_branches no_branches = skip
  dump_branches (more_branches id type body rest) =
      line (codes " branch " ++ (quoted type ++ (codes " with name " ++ quoted id)))
      ▸ dump_indented (dump_expr body) 2
      ▸ dump_branches rest

unfoldable pub dump_params : List (Bytes × Bytes) → Dumper → Dumper
dump_params [] = skip
dump_params ((name, type) ∷ rest) =
    line (codes "  " ++ (quoted name ++ (codes " of type " ++ quoted type))) ▸ dump_params rest

unfoldable pub dump_method_params : List (Bytes × Bytes) → Dumper → Dumper
dump_method_params [] = line (codes " no params")
dump_method_params (p ∷ ps) = line (codes " params") ▸ dump_params (p ∷ ps)

unfoldable pub dump_method : Method → Dumper → Dumper
dump_method m =
    line (codes "method " ++ (quoted m.name ++ at_loc m.loc))
    ▸ line (codes " returns " ++ quoted m.type)
    ▸ dump_method_params m.params
    ▸ dump_indented (dump_expr m.body) 1

-- A `for` loop over a vector, each element dumped one deeper.
unfoldable pub dump_all : {A : Type 0} → (A → Dumper → Dumper) → List A → Dumper → Dumper
dump_all dump [] = skip
dump_all dump (x ∷ xs) = dump_indented (dump x) 1 ▸ dump_all dump xs

unfoldable pub dump_parent : Option Bytes → Dumper → Dumper
dump_parent none = skip
dump_parent (some p) = line (codes " inherits " ++ quoted p)

unfoldable pub dump_class : Class → Dumper → Dumper
dump_class c =
    line (codes "class " ++ (quoted c.name ++ at_loc c.loc))
    ▸ dump_parent c.parent
    ▸ dump_all dump_attribute c.attributes
    ▸ dump_all dump_method c.methods

unfoldable pub dump_program : Program → Dumper → Dumper
dump_program [] = skip
dump_program (c ∷ cs) = dump_class c ▸ dump_program cs

-- `lcool::dump_ast`, on what was written before.
unfoldable pub dump_ast : Bytes → Program → Bytes
dump_ast output program = (dump_program program (record { out = output; indent = 0 })).out
