-- ===== src/Layout/Methods/Entering.antt =====
-- What one round of `process_methods` (src/layout.cpp) does to a class.
use lcool.Base.{
  ◌≡◌, ◌⊎◌, refl, sym, ap, ap₂, ◌∙◌, ◌++◌, true, false, Option, none, some, List, [], ◌∷◌, Bytes,
  equal, equal→eq, Bool-cases, Option-cases, inl, inr, append_assoc, append-nil,
}
use mathlib.Core.Bool.{true≢false}
use lcool.Logger.{Location, Logger, has_errors}
use lcool.Logger.Output.{has_errors-error_at}
use lcool.Ast.{Method}
use lcool.Program.{CoolClass, CoolMethod, Table, lookup_class, find_method}
use lcool.Layout.Insertion.Grown.{lookup_class-name}
use lcool.Layout.Methods.{
  Slots, inherited, lookup_from, equal_types, parameter_loop, class_names, log_unknown, new_method,
  override, enter_by, process_method,
}

abbrev pub types_of : List (Bytes × Bytes) → List Bytes
types_of [] = []
types_of ((name, type) ∷ rest) = type ∷ types_of rest

class_names-append :
    (cs ds : List CoolClass) → class_names (cs ++ ds) ≡ class_names cs ++ class_names ds
class_names-append [] ds = refl
class_names-append (c ∷ cs) ds = ap (λ l. c.name ∷ l) (class_names-append cs ds)

-- Parameters whose types are all defined keep the names of their types, and no error is forgotten.
pub record TypesFound (params : List (Bytes × Bytes)) (types : List CoolClass) (log : Logger)
    (r : List CoolClass × Logger) : Type 0 where
  pub names : has_errors r.1 ≡ false → class_names r.0 ≡ class_names types ++ types_of params
  pub errors : has_errors log ≡ true → has_errors r.1 ≡ true

parameter_loop-TypesFound :
    (output : Table) (loc : Location) (params : List (Bytes × Bytes)) (types : List CoolClass)
    → (log : Logger) → TypesFound params types log (parameter_loop output loc params types log)
unfolding parameter_loop
parameter_loop-TypesFound output loc [] types log = record {
  names = λ n. sym (append-nil (class_names types));
  errors = λ e. e;
}
parameter_loop-TypesFound output loc ((name, type) ∷ rest) types log =
    elim (Option-cases (lookup_class type output)) [
      | inl e ↦
          let h = parameter_loop-TypesFound output loc rest types (log_unknown loc type log) in
          rw (e, parameter_loop)
            (record {
              names = λ n. absurd (true≢false (sym (h.errors (has_errors-error_at loc _ log)) ∙ n));
              errors = λ x. h.errors (has_errors-error_at loc _ log);
            })
      | inr (c, e) ↦
          let h = parameter_loop-TypesFound output loc rest (types ++ c ∷ []) log in
          let same = lookup_class-name type output c e in
          rw (e, parameter_loop)
            (record {
              names = λ n.
                  h.names n
                  ∙ ap (λ l. l ++ types_of rest) (class_names-append types (c ∷ []))
                  ∙ append_assoc (class_names types) (c.name ∷ []) (types_of rest)
                  ∙ ap (λ x. class_names types ++ x ∷ types_of rest) same;
              errors = h.errors;
            })
    ]

equal_types→eq : (xs ys : List Bytes) → equal_types xs ys ≡ true → xs ≡ ys
unfolding equal_types
equal_types→eq [] [] h = refl
equal_types→eq [] (y ∷ ys) h = cc
equal_types→eq (x ∷ xs) [] h = cc
equal_types→eq (x ∷ xs) (y ∷ ys) h = elim (Bool-cases (equal x y)) [
  | inl e ↦ ap₂ (λ a b. a ∷ b) (equal→eq x y e) (equal_types→eq xs ys (rw e at h))
  | inr e ↦ absurd (true≢false (sym h ∙ rw e refl))
]

-- The methods of a class by name, and what the name stands for above the class.
pub lookup_from-cases :
    (output : Table) (cls : CoolClass) (name : Bytes) (o : Option CoolMethod)
    → lookup_from output cls name ≡ o
    → ((m : CoolMethod) × (find_method name cls.methods ≡ some m) × (o ≡ some m))
      ⊎ ((find_method name cls.methods ≡ none) × (inherited output cls name ≡ o))
unfolding lookup_from
lookup_from-cases output cls name o h = elim (Option-cases (find_method name cls.methods)) [
  | inl e ↦ inr (e, sym (rw (e, lookup_from) refl) ∙ h)
  | inr (m, e) ↦ inl (m, e, sym h ∙ rw (e, lookup_from) refl)
]

-- One round: an error and nothing else, a method with a slot of its own, or an override with the
-- signature of the inherited method.
pub data Enters (output : Table) (method : Method) (s : Slots) : Slots → Type 0 where
  failed : (log : Logger) → has_errors log ≡ true → Enters output method s (record s { log = log })
  entered :
      (log : Logger) (return_type : CoolClass) (types : List CoolClass)
      → lookup_class method.type output ≡ some return_type
      → TypesFound method.params [] s.log (types, log)
      → lookup_from output s.cls method.name ≡ none
      → Enters output method s (new_method method return_type types (record s { log = log }))
  overridden :
      (log : Logger) (existing : CoolMethod)
      → existing.slot.return_type ≡ method.type
      → (has_errors log ≡ false → existing.slot.parameter_types ≡ types_of method.params)
      → (has_errors s.log ≡ true → has_errors log ≡ true)
      → lookup_from output s.cls method.name ≡ some existing
      → equal existing.declaring_class s.cls.name ≡ false
      → Enters output method s (override method existing (record s { log = log }))

enter_by-Enters :
    (output : Table) (method : Method) (return_type : CoolClass) (types : List CoolClass)
    → (s : Slots) (log : Logger) (o : Option CoolMethod)
    → lookup_class method.type output ≡ some return_type
    → TypesFound method.params [] s.log (types, log)
    → lookup_from output s.cls method.name ≡ o
    → Enters output method s (enter_by o method return_type types (record s { log = log }))
unfolding enter_by
enter_by-Enters output method return_type types s log none e h f =
    entered log return_type types e h f
enter_by-Enters output method return_type types s log (some existing) e h f =
    elim (Bool-cases (equal existing.declaring_class s.cls.name)) [
      | inl again ↦ rw again (failed _ (has_errors-error_at method.loc _ log))
      | inr other ↦ elim (Bool-cases (equal existing.slot.return_type return_type.name)) [
        | inr differs ↦ rw (other, differs) (failed _ (has_errors-error_at method.loc _ log))
        | inl same ↦
            elim (Bool-cases (equal_types existing.slot.parameter_types (class_names types))) [
              | inr differs ↦
                  rw (other, same, differs) (failed _ (has_errors-error_at method.loc _ log))
              | inl same' ↦
                  rw (other, same, same')
                    (overridden log existing
                      (equal→eq _ _ same ∙ lookup_class-name method.type output return_type e)
                      (λ n. equal_types→eq _ _ same' ∙ h.names n) h.errors f other)
            ]
      ]
    ]

pub process_method-Enters :
    (output : Table) (method : Method) (s : Slots)
    → Enters output method s (process_method output method s)
unfolding process_method
process_method-Enters output method s = elim (Option-cases (lookup_class method.type output)) [
  | inl e ↦ rw (e, process_method) (failed _ (has_errors-error_at method.loc _ s.log))
  | inr (return_type, e) ↦
      let r = parameter_loop output method.loc method.params [] s.log in
      rw (e, process_method)
        (enter_by-Enters output method return_type r.0 s r.1 (lookup_from output s.cls method.name)
          e (parameter_loop-TypesFound output method.loc method.params [] s.log) refl)
]
