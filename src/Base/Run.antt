-- ===== src/Base/Run.antt =====
-- Runs of code over memory. `none` is a fault: an access through NULL, to freed memory or past
-- the end of an array, a BUG_ON that fires, or a loop that used up its fuel.
use mathlib.Core.Path.{◌≡◌, refl, ap}
use mathlib.Core.Option.{Option, none, some}

infixl 5 ◌>>=◌
abbrev pub ◌>>=◌ {ℓ κ} : {A : Type ℓ} {B : Type κ} → Option A → (A → Option B) → Option B
none >>= f = none
some a >>= f = f a

-- The run ends without a fault, in a value that satisfies `P`.
abbrev pub Returns {ℓ κ} : {A : Type ℓ} → Option A → (A → Type κ) → Type (ℓ ⊔ κ)
Returns {A} r P = (a : A) × (r ≡ some a) × P a

pub >>=-some {ℓ κ} :
    {A : Type ℓ} {B : Type κ} {o : Option A} {a : A} (f : A → Option B)
    → o ≡ some a
    → (o >>= f) ≡ f a
>>=-some f e = ap (λ o. o >>= f) e

-- Inversion of a run that ends.
pub >>=-eq-some {ℓ κ} :
    {A : Type ℓ} {B : Type κ} (m : Option A) (f : A → Option B) {b : B}
    → (m >>= f) ≡ some b
    → (a : A) × (m ≡ some a) × (f a ≡ some b)
>>=-eq-some none f h = cc
>>=-eq-some (some a) f h = (a, refl, h)

-- Two runs that go on alike after each result of a common start.
pub >>=-cong {ℓ κ μ} :
    {A : Type ℓ} {B : Type κ} {C : Type μ} (m : Option A) (f : A → Option C) (g : A → Option B)
    (k : B → Option C)
    → ((a : A) → f a ≡ (g a >>= k))
    → (m >>= f) ≡ (m >>= g >>= k)
>>=-cong none f g k e = refl
>>=-cong (some a) f g k e = e a
