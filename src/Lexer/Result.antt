-- ===== src/Lexer/Result.antt =====
-- The outcome of scanning: a value, or a thrown `parse_error` (src/lexer.hpp) with its location and
-- message. `out_of_fuel` has no counterpart in the program: Lexer.Total proves that it never shows.
use lcool.Base.{Option, none, some, Bytes, Bool, true, false, ◌≡◌, ◌≢◌, refl, subst, if◌then◌else◌}
use lcool.Logger.{Location}

pub data Result {ℓ} (A : Type ℓ) : Type ℓ where
  ok : A → Result A
  thrown : Location → Bytes → Result A
  out_of_fuel : Result A

infixl 5 ◌>>=◌
abbrev pub ◌>>=◌ {ℓ κ} : {A : Type ℓ} {B : Type κ} → Result A → (A → Result B) → Result B
ok a >>= f = f a
thrown loc msg >>= f = thrown loc msg
out_of_fuel >>= f = out_of_fuel

-- The run kept within its fuel, and `P` holds of its value if it has one.
pub data Ensures {ℓ κ} {A : Type ℓ} (P : A → Type κ) : Result A → Type (ℓ ⊔ κ) where
  holds : {a : A} → P a → Ensures P (ok a)
  threw : {loc : Location} {msg : Bytes} → Ensures P (thrown loc msg)

module _ {ℓ κ} {A : Type ℓ} {P : A → Type κ} where
  pub Ensures-ok : {r : Result A} {a : A} → Ensures P r → r ≡ ok a → P a
  Ensures-ok (holds h) e = subst P (cc) h
  Ensures-ok threw e = cc

  pub Ensures-out_of_fuel : {r : Result A} → Ensures P r → r ≢ out_of_fuel
  Ensures-out_of_fuel (holds h) = cc
  Ensures-out_of_fuel threw = cc

  pub Ensures-if :
      (b : Bool) {x y : Result A}
      → (b ≡ true → Ensures P x)
      → (b ≡ false → Ensures P y)
      → Ensures P (if b then x else y)
  Ensures-if true hx hy = hx refl
  Ensures-if false hx hy = hy refl

  -- A split on a value that may be missing.
  pub Ensures-option {ℓ'} :
      {B : Type ℓ'} (o : Option B) {x : Result A} {f : B → Result A}
      → (o ≡ none → Ensures P x)
      → ((b : B) → o ≡ some b → Ensures P (f b))
      → Ensures P (elim o [ none ↦ x | some b ↦ f b ])
  Ensures-option none hx hf = hx refl
  Ensures-option (some b) hx hf = hf b refl

  pub Ensures-bind {ℓ' κ'} :
      {B : Type ℓ'} {Q : B → Type κ'} {r : Result A} {f : A → Result B}
      → Ensures P r
      → ((a : A) → P a → Ensures Q (f a))
      → Ensures Q (r >>= f)
  Ensures-bind (holds {a} h) k = k a h
  Ensures-bind threw k = threw

  pub Ensures-map {κ'} :
      {Q : A → Type κ'} {r : Result A} → ((a : A) → P a → Q a) → Ensures P r → Ensures Q r
  Ensures-map k (holds {a} h) = holds (k a h)
  Ensures-map k threw = threw
