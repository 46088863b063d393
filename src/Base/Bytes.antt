-- ===== src/Base/Bytes.antt =====
-- Equality of byte strings, membership of a number in a list, and big-endian numbers
-- (`to_be_bytes` and `from_be_bytes`).
use Prim.Native.Nat.{ℕ, ◌+◌, ◌*◌, ◌/◌, ◌%◌, ◌^◌, ◌<◌}
use mathlib.Core.Path.{◌≡◌, refl}
use mathlib.Core.Bool.{Bool, true, false, ◌&&◌, ◌||◌}
use mathlib.Core.List.{List, [], ◌∷◌}
use native.Mathlib.Omega.{arith}
use gosh_dl.Base.Tests.{◌==◌}

-- `Vec::contains`.
abbrev pub has : List ℕ → ℕ → Bool
has [] i = false
has (x ∷ xs) i = (x == i) || has xs i

abbrev pub same_bytes : List ℕ → List ℕ → Bool
same_bytes [] [] = true
same_bytes (x ∷ xs) (y ∷ ys) = (x == y) && same_bytes xs ys
same_bytes _ _ = false

pub same_bytes-eq : (xs ys : List ℕ) → same_bytes xs ys ≡ true → xs ≡ ys
same_bytes-eq [] [] h = refl
same_bytes-eq [] (y ∷ ys) h = absurd cc
same_bytes-eq (x ∷ xs) [] h = absurd cc
same_bytes-eq (x ∷ xs) (y ∷ ys) h = ground (arith, same_bytes-eq xs ys)

pub same_bytes_self : (xs : List ℕ) → same_bytes xs xs ≡ true
same_bytes_self [] = refl
same_bytes_self (x ∷ xs) = ground (arith, same_bytes_self xs)

abbrev pub u16_bytes : ℕ → List ℕ
u16_bytes n = n / 2 ^ 8 % 2 ^ 8 ∷ n % 2 ^ 8 ∷ []

abbrev pub u32_bytes : ℕ → List ℕ
u32_bytes n = n / 2 ^ 24 % 2 ^ 8 ∷ n / 2 ^ 16 % 2 ^ 8 ∷ n / 2 ^ 8 % 2 ^ 8 ∷ n % 2 ^ 8 ∷ []

abbrev pub u16_from : ℕ → ℕ → ℕ
u16_from a b = a * 2 ^ 8 + b

abbrev pub u32_from : ℕ → ℕ → ℕ → ℕ → ℕ
u32_from a b c d = a * 2 ^ 24 + b * 2 ^ 16 + c * 2 ^ 8 + d

pub u16_lem : (n : ℕ) → n < 2 ^ 16 → u16_from (n / 2 ^ 8 % 2 ^ 8) (n % 2 ^ 8) ≡ n
u16_lem n h = omega arith

pub u32_lem :
    (n : ℕ)
    → n < 2 ^ 32
    → u32_from (n / 2 ^ 24 % 2 ^ 8) (n / 2 ^ 16 % 2 ^ 8) (n / 2 ^ 8 % 2 ^ 8) (n % 2 ^ 8) ≡ n
u32_lem n h = omega arith
