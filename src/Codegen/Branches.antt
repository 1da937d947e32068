-- ===== src/Codegen/Branches.antt =====
-- `visit(type_case)` (src/codegen.cpp) on typed branches that stand with subclasses first.
use lcool.Base.{
  ℕ, suc, ◌<◌, Bool, true, false, some, List, [], ◌∷◌, ◌++◌, ◌||◌, ◌≡◌, refl, sym, ap, ap₂, ◌∙◌,
  Bytes, codes, equal, equal→eq, Bool-cases, inl, inr, length, length-append, ltb, append_assoc,
  append-nil, arith,
}
use mathlib.Core.Bool.{true≢false}
use mathlib.Core.Option.{none-ne-some}
use lcool.Logger.{Location}
use lcool.Program.{CoolClass, Table, lookup_class, is_subclass_of}
use lcool.Program.Order.{Holds, Below-refl}
use lcool.Layout.Insertion.Grown.{lookup_class-name}
use lcool.Codegen.Builder.{pure}
use lcool.Codegen.Builds.{Scope, Builds}
use lcool.Codegen.Classes.{is_value}
use lcool.Codegen.Visit.{Context}
use lcool.Codegen.Case.{Branch, CaseData, Sort, has_class, resolve_branches, branch_before}
use lcool.Codegen.Typing.{NoneBelow}
use lcool.Codegen.Ready.{IsReady}

-- `before` orders every element before those behind it.
abbrev pub AllAfter : (CaseData → CaseData → Bool) → CaseData → List CaseData → Type 0
AllAfter before a [] = Unit {0}
AllAfter before a (b ∷ rest) = (before a b ≡ true) × (before b a ≡ false) × AllAfter before a rest

abbrev pub IsSorted : (CaseData → CaseData → Bool) → List CaseData → Type 0
IsSorted before [] = Unit {0}
IsSorted before (a ∷ rest) = AllAfter before a rest × IsSorted before rest

-- What std::sort does to a range that is in order: it is the only one with its elements in order.
pub record KeepsSorted (sort : Sort) : Type 0 where
  pub keeps :
      (before : CaseData → CaseData → Bool) (branches : List CaseData)
      → IsSorted before branches
      → sort before branches ≡ branches

abbrev pub types : List Branch → List Bytes
types [] = []
types (b ∷ rest) = b.type ∷ types rest

-- What the typing rules say of the branches, with the classes of their bodies.
pub data BuiltBranches (ctx : Context) (s : Scope) : List Branch → List Bytes → Type 0 where
  no_more : BuiltBranches ctx s [] []
  and_more :
      {b : Branch} {rest : List Branch} {k : Bytes} {ks : List Bytes} {cls : CoolClass}
      → lookup_class b.type ctx.program ≡ some cls
      → is_value cls.llvm_type ≡ false
      → equal b.id (codes "self") ≡ false
      → Builds ((b.id, b.type) ∷ s) (λ r. r.cls ≡ k) b.body
      → NoneBelow ctx.program b.type (types rest)
      → BuiltBranches ctx s rest ks
      → BuiltBranches ctx s (b ∷ rest) (k ∷ ks)

abbrev pub entry : ℕ → Branch → CaseData
entry i b = record { cls = b.type; index = i; branch = b }

abbrev pub numbered : ℕ → List Branch → List CaseData
numbered i [] = []
numbered i (b ∷ rest) = entry i b ∷ numbered (suc i) rest

abbrev pub HasNone : List CaseData → List Bytes → Type 0
HasNone found [] = Unit {0}
HasNone found (x ∷ xs) = (has_class x found ≡ false) × HasNone found xs

or-neither : (x y : Bool) → (x || y) ≡ false → (x ≡ false) × (y ≡ false)
or-neither true y h = absurd (true≢false h)
or-neither false y h = (refl, h)

length-snoc : (xs : List CaseData) (x : CaseData) → length (xs ++ x ∷ []) ≡ suc (length xs)
length-snoc xs x = omega (arith, length-append xs (x ∷ []))

ltb-true : (i j : ℕ) → i < j → ltb i j ≡ true
ltb-true i j l = ground arith

ltb-false : (i j : ℕ) → i < j → ltb j i ≡ false
ltb-false i j l = ground arith

before_later :
    (t : Table) (a b : CaseData)
    → a.index < b.index
    → equal a.cls b.cls ≡ false
    → is_subclass_of t b.cls a.cls ≡ false
    → branch_before t a b ≡ true
unfolding branch_before
before_later t a b l e n = elim (Bool-cases (is_subclass_of t a.cls b.cls)) [
  | inl x ↦ rw (e, x, branch_before) refl
  | inr x ↦ rw (e, x, n, branch_before) (ltb-true a.index b.index l)
]

later_before :
    (t : Table) (a b : CaseData)
    → a.index < b.index
    → is_subclass_of t b.cls a.cls ≡ false
    → branch_before t b a ≡ false
unfolding branch_before
later_before t a b l n = elim (Bool-cases (equal b.cls a.cls)) [
  | inl e ↦ rw (e, branch_before) refl
  | inr e ↦ elim (Bool-cases (is_subclass_of t a.cls b.cls)) [
    | inl x ↦ rw (e, n, x, branch_before) refl
    | inr x ↦ rw (e, n, x, branch_before) (ltb-false a.index b.index l)
  ]
]

pub nothing_found : (xs : List Bytes) → HasNone [] xs
unfolding has_class
nothing_found [] = tt
nothing_found (x ∷ xs) = (refl, nothing_found xs)

module _ (ctx : Context) (r : IsReady ctx.program) where
  differs :
      (a b : Bytes)
      → Holds ctx.program a
      → is_subclass_of ctx.program b a ≡ false
      → equal a b ≡ false
  differs a b h e = elim (Bool-cases (equal a b)) [
    | inr x ↦ x
    | inl x ↦ absurd (
        true≢false (
          sym (Below-refl ctx.program a h)
          ∙ ap (λ z. is_subclass_of ctx.program z a) (equal→eq a b x)
          ∙ e))
  ]

  has_class-append :
      (found : List CaseData) (d : CaseData) (x : Bytes)
      → has_class x found ≡ false
      → equal d.cls x ≡ false
      → has_class x (found ++ d ∷ []) ≡ false
  unfolding has_class
  has_class-append [] d x e h = ap (λ b. b || false) h
  has_class-append (f ∷ found) d x e h =
      let (n, k) = or-neither (equal f.cls x) (has_class x found) e in
      ap₂ ◌||◌ n (has_class-append found d x k h)

  HasNone-append :
      (found : List CaseData) (d : CaseData) (xs : List Bytes)
      → Holds ctx.program d.cls
      → HasNone found xs
      → NoneBelow ctx.program d.cls xs
      → HasNone (found ++ d ∷ []) xs
  HasNone-append found d [] h n b = tt
  HasNone-append found d (x ∷ xs) h (n, ns) (b, bs) =
      (has_class-append found d x n (differs d.cls x h b), HasNone-append found d xs h ns bs)

  found_branch :
      (loc : Location) (b : Branch) (rest : List Branch) (found : List CaseData) (cls : CoolClass)
      → lookup_class b.type ctx.program ≡ some cls
      → has_class b.type found ≡ false
      → resolve_branches ctx loc (b ∷ rest) found
        ≡ resolve_branches ctx loc rest
            (found ++ record { cls = b.type; index = length found; branch = b } ∷ [])
  unfolding resolve_branches
  found_branch loc b rest found cls e n =
      let c = lookup_class-name b.type ctx.program cls e in
      let n' = ap (λ z. has_class z found) c ∙ n in
      rw (e, n', resolve_branches)
        (ap
          (λ z.
            resolve_branches ctx loc rest
              (found ++ record { cls = z; index = length found; branch = b } ∷ []))
          c)

  pub resolve_branches-numbered :
      {s : Scope} (loc : Location) (branches : List Branch) (found : List CaseData)
      (ks : List Bytes)
      → BuiltBranches ctx s branches ks
      → HasNone found (types branches)
      → resolve_branches ctx loc branches found ≡ pure (found ++ numbered (length found) branches)
  unfolding resolve_branches
  resolve_branches-numbered loc [] found ks x n = ap pure (sym (append-nil found))
  resolve_branches-numbered loc (b ∷ rest) found ks (and_more {cls} e v i y nb xs) (n, ns) =
      let d : CaseData = record { cls = b.type; index = length found; branch = b } in
      let h : Holds ctx.program b.type = λ z. none-ne-some cls (sym z ∙ e) in
      found_branch loc b rest found cls e n
      ∙ resolve_branches-numbered loc rest (found ++ d ∷ []) _ xs
          (HasNone-append found d (types rest) h ns nb)
      ∙ ap pure (
          ap (λ i. (found ++ d ∷ []) ++ numbered i rest) (length-snoc found d)
          ∙ append_assoc found (d ∷ []) (numbered (suc (length found)) rest))

  AllAfter-numbered :
      (i j : ℕ) (b : Branch) (rest : List Branch)
      → i < j
      → Holds ctx.program b.type
      → NoneBelow ctx.program b.type (types rest)
      → AllAfter
          (branch_before ctx.program)
          (record { cls = b.type; index = i; branch = b })
          (numbered j rest)
  AllAfter-numbered i j b [] l h n = tt
  AllAfter-numbered i j b (c ∷ rest) l h (n, ns) = (
    before_later ctx.program (entry i b) (entry j c) l (differs b.type c.type h n) n,
    later_before ctx.program (entry i b) (entry j c) l n,
    AllAfter-numbered i (suc j) b rest (omega arith) h ns,
  )

  pub numbered-IsSorted :
      {s : Scope} (i : ℕ) (branches : List Branch) (ks : List Bytes)
      → BuiltBranches ctx s branches ks
      → IsSorted (branch_before ctx.program) (numbered i branches)
  numbered-IsSorted i [] ks x = tt
  numbered-IsSorted i (b ∷ rest) _ (and_more {cls} e v n y nb xs) = (
    AllAfter-numbered i (suc i) b rest (omega arith) (λ z. none-ne-some cls (sym z ∙ e)) nb,
    numbered-IsSorted (suc i) rest _ xs,
  )
