-- ===== src/Prelude/Ensures.antt =====
-- Postconditions of calls that return an `Option`: what holds of the result, if there is one.
use mathlib.Core.Path.{◌≡◌, refl, subst}
use mathlib.Core.Bool.{Bool, true, false}
use mathlib.Core.Option.{Option, none, some}
use native.Mathlib.Omega.{arith}
use pennant.Prelude.Tests.{◌>>=◌, if◌then◌else◌}

pub record Ensures {A : Type 0} (P : A → Type 0) (o : Option A) : Type 0 where
  pub at : (x : A) → o ≡ some x → P x

module _ {B : Type 0} {P : B → Type 0} where
  pub Ensures-pure : (x : B) → P x → Ensures P (some x)
  Ensures-pure x h = record { at = λ y e. subst P (ground arith) h }

  pub Ensures-bind :
      {A : Type 0} (o : Option A) (f : A → Option B)
      → ((a : A) → o ≡ some a → Ensures P (f a))
      → Ensures P (o >>= f)
  Ensures-bind none f h = record { at = λ y e. cc }
  Ensures-bind (some a) f h = h a refl

  pub Ensures-if :
      (b : Bool) (x y : Option B)
      → (b ≡ true → Ensures P x)
      → (b ≡ false → Ensures P y)
      → Ensures P (if b then x else y)
  Ensures-if true x y p q = p refl
  Ensures-if false x y p q = q refl
