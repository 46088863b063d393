-- ===== src/Base/Result.antt =====
-- The result of code that fails with an error of one kind. `out_of_fuel` has no counterpart in the
-- program: a function on fuel gives it where the fuel is not enough.
use mathlib.Core.Option.{Option, none, some}

pub data Result {ℓ} (A : Type ℓ) : Type ℓ where
  ok : A → Result A
  failed out_of_fuel : Result A

infixl 5 ◌>>=◌
abbrev pub ◌>>=◌ {ℓ κ} : {A : Type ℓ} {B : Type κ} → Result A → (A → Result B) → Result B
ok a >>= f = f a
failed >>= f = failed
out_of_fuel >>= f = out_of_fuel

abbrev pub or_fail {ℓ} : {A : Type ℓ} → Option A → Result A
or_fail none = failed
or_fail (some a) = ok a
