-- ===== src/Base/OptionMonad.antt =====
-- A partial computation, with the source's `?`, `expect` and panics as `◌>>=◌`.
use mathlib.Core.Path.{◌≡◌, refl}
use mathlib.Core.Option.{Option, none, some}

infixl 5 ◌>>=◌
abbrev pub ◌>>=◌ {ℓ κ} : {A : Type ℓ} {B : Type κ} → Option A → (A → Option B) → Option B
some value >>= next = next value
none >>= next = none

-- What a bind that gives a value went through.
pub >>=-eq-some {ℓ κ} :
    {A : Type ℓ} {B : Type κ} (o : Option A) (next : A → Option B) {result : B}
    → (o >>= next) ≡ some result
    → (value : A) × (o ≡ some value) × (next value ≡ some result)
>>=-eq-some (some value) next h = (value, refl, h)
>>=-eq-some none next h = cc
