-- ===== src/Prelude/Outcome.antt =====
-- The outcome of a fallible function: a value, the source's error, or the end of a loop's fuel.
use mathlib.Core.Path.{◌≡◌, refl, subst}
use mathlib.Core.Logic.{◌≢◌}
use mathlib.Core.Bool.{Bool, true, false}
use go_odata.Prelude.Tests.{if◌then◌else◌}

pub data Result {ℓ κ} (E : Type ℓ) (A : Type κ) : Type (ℓ ⊔ κ) where
  ok : A → Result E A
  err : E → Result E A
  out_of_fuel : Result E A

module _ {ℓ κ κ'} {E : Type ℓ} {A : Type κ} {B : Type κ'} where
  infixl 5 ◌>>=◌
  abbrev pub ◌>>=◌ : Result E A → (A → Result E B) → Result E B
  ok a >>= f = f a
  err e >>= f = err e
  out_of_fuel >>= f = out_of_fuel

-- The run kept within its fuel, and `P` holds of the value if there is one.
pub data Ensures {ℓ κ κ'} {E : Type ℓ} {A : Type κ} (P : A → Type κ')
    : Result E A → Type (ℓ ⊔ κ ⊔ κ') where
  holds : {a : A} → P a → Ensures P (ok a)
  failed : {e : E} → Ensures P (err e)

module _ {ℓ κ κ'} {E : Type ℓ} {A : Type κ} {P : A → Type κ'} where
  pub Ensures-ok : {r : Result E A} {a : A} → Ensures P r → r ≡ ok a → P a
  Ensures-ok (holds h) e = subst P (cc) h
  Ensures-ok failed e = cc

  pub Ensures-ne-out_of_fuel : {r : Result E A} → Ensures P r → r ≢ out_of_fuel
  Ensures-ne-out_of_fuel (holds h) = cc
  Ensures-ne-out_of_fuel failed = cc

  pub Ensures-if :
      (b : Bool) {x y : Result E A}
      → (b ≡ true → Ensures P x)
      → (b ≡ false → Ensures P y)
      → Ensures P (if b then x else y)
  Ensures-if true hx hy = hx refl
  Ensures-if false hx hy = hy refl

  pub Ensures-map {λ'} :
      {Q : A → Type λ'} {r : Result E A} → Ensures P r → ((a : A) → P a → Q a) → Ensures Q r
  Ensures-map (holds {a} h) k = holds (k a h)
  Ensures-map failed k = failed

  pub Ensures-bind {μ μ'} :
      {B : Type μ} {Q : B → Type μ'} {r : Result E A} {f : A → Result E B}
      → Ensures P r
      → ((a : A) → P a → Ensures Q (f a))
      → Ensures Q (r >>= f)
  Ensures-bind (holds {a} h) k = k a h
  Ensures-bind failed k = failed
