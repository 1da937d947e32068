-- ===== src/Base/Options.antt =====
-- The chain of steps that may fail, for do blocks in `Option`.
use mathlib.Core.Path.{◌≡◌, refl, ap, ◌∙◌}
use mathlib.Core.Option.{Option, none, some, none-ne-some}

infixl 5 ◌>>=◌
abbrev pub ◌>>=◌ {ℓ κ} : {A : Type ℓ} {B : Type κ} → Option A → (A → Option B) → Option B
none >>= f = none
some a >>= f = f a

-- Inversion of a chain that does not fail.
pub >>=-eq-some {ℓ κ} :
    {A : Type ℓ} {B : Type κ} (m : Option A) (f : A → Option B) {b : B}
    → (m >>= f) ≡ some b
    → (a : A) × (m ≡ some a) × (f a ≡ some b)
>>=-eq-some none f {b} h = absurd (none-ne-some b h)
>>=-eq-some (some a) f h = (a, refl, h)

pub >>=-some {ℓ κ} :
    {A : Type ℓ} {B : Type κ} (m : Option A) (f : A → Option B) {a : A} {o : Option B}
    → m ≡ some a
    → f a ≡ o
    → (m >>= f) ≡ o
>>=-some m f e e' = ap (λ x. x >>= f) e ∙ e'
