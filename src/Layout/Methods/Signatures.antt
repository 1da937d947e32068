-- ===== src/Layout/Methods/Signatures.antt =====
-- `process_methods` (src/layout.cpp) as a whole: slots, overrides, and the signatures that a run
-- without errors guarantees.
use lcool.Base.{
  subst, ◌≡◌, refl, sym, ap, ◌∙◌, true, false, none, some, List, [], ◌∷◌, Bytes, equal, equal→eq,
  equal_refl, Bool-cases, inl, inr, arith,
}
use mathlib.Core.Bool.{true≢false}
use mathlib.Core.Option.{none-ne-some, some-injective}
use lcool.Logger.{Logger, has_errors}
use lcool.Ast.{Method, Class}
use lcool.Program.{
  CoolClass, CoolMethod, Function, Table, base_method, override_method, find_method,
}
use lcool.Layout.Insertion.Grown.{lookup_class-name}
use lcool.Layout.Methods.{
  Slots, inherited, new_method, override, process_method, methods_loop, process_methods,
}
use lcool.Layout.Methods.Entering.{
  types_of, Enters, failed, entered, overridden, lookup_from-cases, process_method-Enters,
}
use lcool.Layout.Methods.Slotted.{Keyed, inherited-name, HasSlots, HasSlots-enter, same_inherited}

module _ (output : Table) (cls : CoolClass) where
  -- The method stands in the class with the return type and the parameter types of its declaration.
  pub record Declares (s : Slots) (method : Method) : Type 0 where
    pub entry : CoolMethod
    pub found : find_method method.name s.cls.methods ≡ some entry
    pub return_type : entry.slot.return_type ≡ method.type
    pub parameter_types : entry.slot.parameter_types ≡ types_of method.params

  -- What a round does, beside the slots.
  record Rounds (method : Method) (s s' : Slots) : Type 0 where
    slots : HasSlots output cls s'
    errors : has_errors s.log ≡ true → has_errors s'.log ≡ true
    keeps :
        (n : Bytes) (m : CoolMethod)
        → find_method n s.cls.methods ≡ some m
        → find_method n s'.cls.methods ≡ some m
    declares : has_errors s'.log ≡ false → Declares s' method

  find_method-enter :
      (n : Bytes) (m k : CoolMethod) (ms : List CoolMethod)
      → find_method m.slot.name ms ≡ none
      → find_method n ms ≡ some k
      → find_method n (m ∷ ms) ≡ some k
  unfolding find_method
  find_method-enter n m k ms new h = elim (Bool-cases (equal m.slot.name n)) [
    | inl e ↦
        absurd
          (none-ne-some k (sym new ∙ ap (λ y. find_method y ms) (equal→eq m.slot.name n e) ∙ h))
    | inr e ↦ rw e h
  ]

  find_method-here :
      (m : CoolMethod) (ms : List CoolMethod) → find_method m.slot.name (m ∷ ms) ≡ some m
  unfolding find_method
  find_method-here m ms = rw (equal_refl m.slot.name) refl

  Enters-Rounds :
      (method : Method) (s s' : Slots)
      → HasSlots output cls s
      → Enters output method s s'
      → Rounds method s s'
  unfolding new_method override base_method override_method
  Enters-Rounds method s _ h (failed log e) = record {
    slots = record {
      same_name = h.same_name;
      same_parent = h.same_parent;
      slots = h.slots;
      distinct = h.distinct;
      keyed = h.keyed;
      started = h.started;
    };
    errors = λ x. e;
    keeps = λ n m f. f;
    declares = λ n. absurd (true≢false (sym e ∙ n));
  }
  Enters-Rounds method s _ h (entered log return_type types e t f) =
      elim (lookup_from-cases output s.cls method.name none f) [
        | inl (m, g, x) ↦ absurd (none-ne-some m x)
        | inr (g, x) ↦
            let none_above = sym (same_inherited output cls s method.name h) ∙ x in
            record {
              slots =
                  HasSlots-enter output cls s _ _ refl (omega arith) g
                    (record {
                      declared = h.same_name;
                      slot = inl (none_above, h.same_name, h.started, omega arith);
                    })
                    (λ y. refl) h;
              errors = t.errors;
              keeps = λ n k z. find_method-enter n _ k s.cls.methods g z;
              declares = λ n. record {
                entry = _;
                found = find_method-here _ s.cls.methods;
                return_type = lookup_class-name method.type output return_type e;
                parameter_types = t.names n;
              };
            }
      ]
  Enters-Rounds method s _ h (overridden log existing r p errors f other) =
      elim (lookup_from-cases output s.cls method.name (some existing) f) [
        | inl (m, g, x) ↦
            let d =
              ap (λ (y : CoolMethod). y.declaring_class) (some-injective existing m x)
              ∙ (h.slots method.name m g).declared
              ∙ sym h.same_name in
            absurd (
              true≢false
                (sym (equal_refl s.cls.name) ∙ ap (λ y. equal y s.cls.name) (sym d) ∙ other))
        | inr (g, x) ↦
            let named = inherited-name output s.cls method.name existing x in
            let above = sym (same_inherited output cls s method.name h) ∙ x in
            let above' = ap (inherited output cls) named ∙ above in
            record {
              slots =
                  HasSlots-enter output cls s _ _ refl (omega arith)
                    (ap (λ y. find_method y s.cls.methods) named ∙ g)
                    (record { declared = h.same_name; slot = inr (existing, above', refl) })
                    (λ y. absurd (none-ne-some existing (sym y ∙ above'))) h;
              errors = errors;
              keeps = λ n k z.
                  find_method-enter n _ k s.cls.methods
                    (ap (λ y. find_method y s.cls.methods) named ∙ g) z;
              declares = λ n. record {
                entry = _;
                found =
                    ap
                      (λ y.
                        find_method y
                          (override method existing (record s { log = log })).cls.methods)
                      (sym named)
                    ∙ find_method-here _ s.cls.methods;
                return_type = r;
                parameter_types = p n;
              };
            }
      ]

  abbrev pub AllDeclared : Slots → List Method → Type 0
  AllDeclared s [] = Unit {0}
  AllDeclared s (m ∷ ms) = Declares s m × AllDeclared s ms

  record Loops (s : Slots) (ms : List Method) (s' : Slots) : Type 0 where
    slots : HasSlots output cls s'
    errors : has_errors s.log ≡ true → has_errors s'.log ≡ true
    keeps :
        (n : Bytes) (m : CoolMethod)
        → find_method n s.cls.methods ≡ some m
        → find_method n s'.cls.methods ≡ some m
    declares : has_errors s'.log ≡ false → AllDeclared s' ms

  methods_loop-Loops :
      (ms : List Method) (s : Slots) → HasSlots output cls s → Loops s ms (methods_loop output ms s)
  unfolding methods_loop
  methods_loop-Loops [] s h = record {
    slots = h;
    errors = λ e. e;
    keeps = λ n m f. f;
    declares = λ n. tt;
  }
  methods_loop-Loops (m ∷ ms) s h =
      let t = process_method output m s in
      let r = Enters-Rounds m s t h (process_method-Enters output m s) in
      let l = methods_loop-Loops ms t r.slots in
      record {
        slots = l.slots;
        errors = λ e. l.errors (r.errors e);
        keeps = λ n k f. l.keeps n k (r.keeps n k f);
        declares = λ n.
            let d = r.declares (no_error t (methods_loop output ms t) l.errors n) in
            (
              record {
                entry = d.entry;
                found = l.keeps m.name d.entry d.found;
                return_type = d.return_type;
                parameter_types = d.parameter_types;
              },
              l.declares n,
            );
      }
    where
      no_error :
          (t u : Slots)
          → (has_errors t.log ≡ true → has_errors u.log ≡ true)
          → has_errors u.log ≡ false
          → has_errors t.log ≡ false
      no_error t u grow n = elim (Bool-cases (has_errors t.log)) [
        | inl e ↦ absurd (true≢false (sym (grow e) ∙ n))
        | inr e ↦ e
      ]

  HasSlots-start :
      (functions : List Function) (log : Logger)
      → cls.methods ≡ []
      → HasSlots output cls
          (record { cls = cls; functions = functions; log = log; next_vtable_index = 1 })
  unfolding find_method
  HasSlots-start functions log e =
      let nothing = λ (n : Bytes) (m : CoolMethod) (f : find_method n cls.methods ≡ some m).
        none-ne-some m (ap (find_method n) (sym e) ∙ f) in
      record {
        same_name = refl;
        same_parent = refl;
        slots = λ n m f. absurd (nothing n m f);
        distinct = λ n o m k f g x y i. absurd (nothing n m f);
        keyed = subst Keyed (sym e) tt;
        started = omega arith;
      }

-- For a class without methods, `process_methods` gives each method that no superclass has a slot of
-- its own, with an index above 0 that no other of these methods has, and each other method the slot
-- that it overrides; no name stands twice.
pub process_methods-HasSlots :
    (ast_cls : Class) (cls : CoolClass) (output : Table) (functions : List Function) (log : Logger)
    → cls.methods ≡ []
    → HasSlots output cls (process_methods ast_cls cls output functions log)
unfolding process_methods
process_methods-HasSlots ast_cls cls output functions log e =
    (methods_loop-Loops output cls ast_cls.methods _
      (HasSlots-start output cls functions log e)).slots

-- For a class without methods, unless an error is logged, every method of the source is found in the
-- class, with the types of its declaration.
pub process_methods-AllDeclared :
    (ast_cls : Class) (cls : CoolClass) (output : Table) (functions : List Function) (log : Logger)
    → cls.methods ≡ []
    → has_errors (process_methods ast_cls cls output functions log).log ≡ false
    → AllDeclared output cls (process_methods ast_cls cls output functions log) ast_cls.methods
unfolding process_methods
process_methods-AllDeclared ast_cls cls output functions log e n =
    (methods_loop-Loops output cls ast_cls.methods _
        (HasSlots-start output cls functions log e)).declares
      n
