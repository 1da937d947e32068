-- ===== src/Dump/Prints.antt =====
-- The visitors of src/parser_dump.cpp restore the indent, and what they write depends on it and on
-- the node alone.
use lcool.Base.{
  ℕ, ◌+◌, ◌≡◌, refl, sym, ap, ap₂, ◌∙◌, ◌++◌, Option, none, some, List, [], ◌∷◌, Bytes,
  append_assoc, append-nil, arith,
}
use lcool.Ast.{
  Expr, assign, dispatch, conditional, loop, block, let_in, type_case, new_object, constant_bool,
  constant_int, constant_string, identifier, compute_unary, compute_binary, MaybeExpr, null, expr,
  Exprs, no_exprs, more_exprs, Attribute, attribute, Attributes, no_attributes, more_attributes,
  Branches, no_branches, more_branches, Method, Class, Program,
}
use lcool.Dump.{
  Dumper, ◌▸◌, skip, put, print_indent, line, dump_indented, dump_type, attribute_head, dump_expr,
  dump_object, dump_arguments, dump_exprs, dump_initial, dump_attribute, dump_attributes,
  dump_branches, dump_params, dump_method_params, dump_method, dump_all, dump_parent, dump_class,
  dump_program, dump_ast,
}

abbrev pub fresh : ℕ → Dumper
fresh n = record { out = []; indent = n }

-- `f` writes, behind what is there, a text that the indent determines, and restores the indent.
pub record Prints (f : Dumper → Dumper) : Type 0 where
  pub restores : (d : Dumper) → (f d).indent ≡ d.indent
  pub appends : (d : Dumper) → (f d).out ≡ d.out ++ (f (fresh d.indent)).out

Prints-put : (text : Bytes) → Prints (put text)
unfolding put
Prints-put text = record { restores = λ d. refl; appends = λ d. refl }

Prints-skip : Prints skip
unfolding skip
Prints-skip = record { restores = λ d. refl; appends = λ d. sym (append-nil d.out) }

Prints-print_indent : Prints print_indent
unfolding print_indent
Prints-print_indent = record { restores = λ d. refl; appends = λ d. refl }

Prints-▸ : {f g : Dumper → Dumper} → Prints f → Prints g → Prints (f ▸ g)
unfolding ◌▸◌
Prints-▸ {f} {g} pf pg = record {
  restores = λ d. pg.restores (f d) ∙ pf.restores d;
  appends = λ d.
      let a = (f (fresh d.indent)).out in
      pg.appends (f d)
      ∙ ap₂ (λ x n. x ++ (g (fresh n)).out) (pf.appends d) (pf.restores d)
      ∙ append_assoc d.out a (g (fresh d.indent)).out
      ∙ ap (λ x. d.out ++ x)
          (sym (
            pg.appends (f (fresh d.indent))
            ∙ ap (λ n. a ++ (g (fresh n)).out) (pf.restores (fresh d.indent))));
}

Prints-dump_indented : {f : Dumper → Dumper} (n : ℕ) → Prints f → Prints (dump_indented f n)
unfolding dump_indented
Prints-dump_indented n pf = record {
  restores = λ d. omega (arith, pf.restores (record d { indent = d.indent + n }));
  appends = λ d. pf.appends (record d { indent = d.indent + n });
}

Prints-line : (text : Bytes) → Prints (line text)
unfolding line
Prints-line text = Prints-▸ Prints-print_indent (Prints-put _)

Prints-dump_type : (t : Option Bytes) → Prints (dump_type t)
unfolding dump_type
Prints-dump_type none = Prints-skip
Prints-dump_type (some t) = Prints-line _

-- Proofs follow the shape of the visitor: one behind the other, and a node dumped deeper.
infixl 20 ◌▹◌
abbrev ◌▹◌ : {f g : Dumper → Dumper} → Prints f → Prints g → Prints (f ▸ g)
pf ▹ pg = Prints-▸ pf pg

abbrev deeper : {f : Dumper → Dumper} (n : ℕ) → Prints f → Prints (dump_indented f n)
deeper n pf = Prints-dump_indented n pf

abbrev text : (t : Bytes) → Prints (line t)
text t = Prints-line t

mutual
  unfolding dump_expr attribute_head

  dump_expr-Prints : (e : Expr) → Prints (dump_expr e)
  dump_expr-Prints (assign loc id value) = text _ ▹ deeper _ (dump_expr-Prints value)
  dump_expr-Prints (dispatch loc name object type arguments) =
      text _ ▹ dump_object-Prints object ▹ Prints-dump_type type ▹ dump_arguments-Prints arguments
  dump_expr-Prints (conditional loc p a b) =
      text _
      ▹ text _
      ▹ deeper _ (dump_expr-Prints p)
      ▹ text _
      ▹ deeper _ (dump_expr-Prints a)
      ▹ text _
      ▹ deeper _ (dump_expr-Prints b)
  dump_expr-Prints (loop loc p body) =
      text _ ▹ text _ ▹ deeper _ (dump_expr-Prints p) ▹ text _ ▹ deeper _ (dump_expr-Prints body)
  dump_expr-Prints (block loc es) = text _ ▹ dump_exprs-Prints es 1
  dump_expr-Prints (let_in loc vars body) =
      text _ ▹ dump_attributes-Prints vars ▹ text _ ▹ deeper _ (dump_expr-Prints body)
  dump_expr-Prints (type_case loc value branches) =
      text _ ▹ text _ ▹ deeper _ (dump_expr-Prints value) ▹ dump_branches-Prints branches
  dump_expr-Prints (new_object loc type) = text _ ▹ text _
  dump_expr-Prints (constant_bool loc value) = text _
  dump_expr-Prints (constant_int loc value) = text _
  dump_expr-Prints (constant_string loc value) =
      Prints-print_indent ▹ Prints-put _ ▹ Prints-put _ ▹ Prints-put _
  dump_expr-Prints (identifier loc id) = text _
  dump_expr-Prints (compute_unary loc op body) = text _ ▹ deeper _ (dump_expr-Prints body)
  dump_expr-Prints (compute_binary loc op left right) =
      text _ ▹ deeper _ (dump_expr-Prints left) ▹ deeper _ (dump_expr-Prints right)

  dump_object-Prints : (o : MaybeExpr) → Prints (dump_object o)
  dump_object-Prints null = text _
  dump_object-Prints (expr e) = text _ ▹ deeper _ (dump_expr-Prints e)

  dump_arguments-Prints : (es : Exprs) → Prints (dump_arguments es)
  dump_arguments-Prints no_exprs = text _
  dump_arguments-Prints (more_exprs e es) =
      text _ ▹ deeper _ (dump_expr-Prints e) ▹ dump_exprs-Prints es 2

  dump_exprs-Prints : (es : Exprs) (n : ℕ) → Prints (dump_exprs es n)
  dump_exprs-Prints no_exprs n = Prints-skip
  dump_exprs-Prints (more_exprs e es) n = deeper _ (dump_expr-Prints e) ▹ dump_exprs-Prints es n

  dump_initial-Prints : (o : MaybeExpr) → Prints (dump_initial o)
  dump_initial-Prints null = Prints-skip
  dump_initial-Prints (expr e) = text _ ▹ deeper _ (dump_expr-Prints e)

  dump_attribute-Prints : (a : Attribute) → Prints (dump_attribute a)
  dump_attribute-Prints (attribute loc name type initial) =
      text _ ▹ text _ ▹ dump_initial-Prints initial

  dump_attributes-Prints : (vs : Attributes) → Prints (dump_attributes vs)
  dump_attributes-Prints no_attributes = Prints-skip
  dump_attributes-Prints (more_attributes a rest) =
      deeper _ (dump_attribute-Prints a) ▹ dump_attributes-Prints rest

  dump_branches-Prints : (bs : Branches) → Prints (dump_branches bs)
  dump_branches-Prints no_branches = Prints-skip
  dump_branches-Prints (more_branches id type body rest) =
      text _ ▹ deeper _ (dump_expr-Prints body) ▹ dump_branches-Prints rest

dump_params-Prints : (ps : List (Bytes × Bytes)) → Prints (dump_params ps)
unfolding dump_params
dump_params-Prints [] = Prints-skip
dump_params-Prints ((name, type) ∷ ps) = text _ ▹ dump_params-Prints ps

dump_method_params-Prints : (ps : List (Bytes × Bytes)) → Prints (dump_method_params ps)
unfolding dump_method_params
dump_method_params-Prints [] = text _
dump_method_params-Prints (p ∷ ps) = text _ ▹ dump_params-Prints (p ∷ ps)

dump_method-Prints : (m : Method) → Prints (dump_method m)
unfolding dump_method
dump_method-Prints m =
    text _ ▹ text _ ▹ dump_method_params-Prints m.params ▹ deeper _ (dump_expr-Prints m.body)

dump_all-Prints :
    {A : Type 0} (dump : A → Dumper → Dumper)
    → ((a : A) → Prints (dump a))
    → (xs : List A) → Prints (dump_all dump xs)
unfolding dump_all
dump_all-Prints dump h [] = Prints-skip
dump_all-Prints dump h (x ∷ xs) = deeper _ (h x) ▹ dump_all-Prints dump h xs

dump_parent-Prints : (p : Option Bytes) → Prints (dump_parent p)
unfolding dump_parent
dump_parent-Prints none = Prints-skip
dump_parent-Prints (some p) = text _

dump_class-Prints : (c : Class) → Prints (dump_class c)
unfolding dump_class
dump_class-Prints c =
    text _
    ▹ dump_parent-Prints c.parent
    ▹ dump_all-Prints dump_attribute dump_attribute-Prints c.attributes
    ▹ dump_all-Prints dump_method dump_method-Prints c.methods

-- Printing a program restores the indent, and writes behind the earlier output a text that depends
-- on the program and the indent alone.
pub dump_program-Prints : (program : Program) → Prints (dump_program program)
unfolding dump_program
dump_program-Prints [] = Prints-skip
dump_program-Prints (c ∷ cs) = dump_class-Prints c ▹ dump_program-Prints cs

dump_program-append :
    (p q : Program) (d : Dumper) → dump_program (p ++ q) d ≡ dump_program q (dump_program p d)
unfolding dump_program ◌▸◌ skip
dump_program-append [] q d = refl
dump_program-append (c ∷ cs) q d = dump_program-append cs q (dump_class c d)

-- The dump of two programs joined is what was written before, then the dump of each alone.
pub dump_ast-append :
    (output : Bytes) (p q : Program)
    → dump_ast output (p ++ q) ≡ output ++ (dump_ast [] p ++ dump_ast [] q)
unfolding dump_ast
dump_ast-append output p q =
    let start : Dumper = record { out = output; indent = 0 } in
    let pp = dump_program-Prints p in
    let pq = dump_program-Prints q in
    ap (λ d. d.out) (dump_program-append p q start)
    ∙ pq.appends (dump_program p start)
    ∙ ap₂ (λ x n. x ++ (dump_program q (fresh n)).out) (pp.appends start) (pp.restores start)
    ∙ append_assoc output (dump_program p (fresh 0)).out (dump_program q (fresh 0)).out
