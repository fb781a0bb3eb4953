-- ===== src/Common/Integers.antt =====
-- Python's integers of either sign. `negsuc n` is -(n + 1).
use Prim.Native.Nat.{ℕ}
use mathlib.Core.Path.{◌≡◌, ap}
use pgproof.Common.Tests.{Eq, number_equality}

pub data ℤ : Type 0 where
  pos : ℕ → ℤ
  negsuc : ℕ → ℤ

abbrev magnitude : ℤ → ℕ
magnitude (pos n) = n
magnitude (negsuc n) = n

unfoldable pub integer_dec : (a b : ℤ) → Dec (a ≡ b)
integer_dec (pos m) (pos n) = elim (number_equality.dec m n) [
  | yes p ↦ yes (ap pos p)
  | no no_path ↦ no (λ p. no_path (ap magnitude p))
]
integer_dec (pos m) (negsuc n) = no (λ p. cc p)
integer_dec (negsuc m) (pos n) = no (λ p. cc p)
integer_dec (negsuc m) (negsuc n) = elim (number_equality.dec m n) [
  | yes p ↦ yes (ap negsuc p)
  | no no_path ↦ no (λ p. no_path (ap magnitude p))
]

instance abbrev pub integer_equality : Eq ℤ
integer_equality = record { dec = integer_dec }
